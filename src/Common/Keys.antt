-- ===== src/Common/Keys.antt =====
-- Association lists in which every key stands once, as the entries of a Go map do.
use mathlib.Core.Path.{subst}
use diki_operator.Common.{
  String, ◌≡◌, refl, ◌∙◌, none, List, [], ◌∷◌, arith, ◌==◌, eq_iff, Bool-cases, inl, inr,
}
use diki_operator.Common.Maps.{lookup, lookup_last, insert, copy, lookup-insert, lookup-copy}

module _ {ℓ} {V : Type ℓ} where
  abbrev pub UniqueKeys : List (String × V) → Type ℓ
  UniqueKeys [] = Unit
  UniqueKeys (entry ∷ entries) = (lookup entry.0 entries ≡ none) × UniqueKeys entries

  insert-UniqueKeys :
      (k : String) (v : V) (m : List (String × V)) → UniqueKeys m → UniqueKeys (insert k v m)
  unfolding insert lookup
  insert-UniqueKeys k v [] h = (refl, tt)
  insert-UniqueKeys k v ((j, old) ∷ m) (fresh, h) = elim (Bool-cases (j == k)) [
    | inl same ↦
        let e : j ≡ k = (eq_iff j k).0 same in
        rw same (subst (λ (i : String). lookup i m ≡ none) e fresh, h)
    | inr differs ↦
        let kept = lookup-insert k j v m in
        rw differs
          (kept ∙ ground (arith, fresh, differs, eq_iff k j, eq_iff j k), insert-UniqueKeys k v m h)
  ]

  pub copy-UniqueKeys : (dst src : List (String × V)) → UniqueKeys dst → UniqueKeys (copy dst src)
  unfolding copy
  copy-UniqueKeys dst [] h = h
  copy-UniqueKeys dst ((k, v) ∷ src) h =
      copy-UniqueKeys (insert k v dst) src (insert-UniqueKeys k v dst h)

  lookup_last-eq-lookup :
      (k : String) (m : List (String × V)) → UniqueKeys m → lookup_last k m ≡ lookup k m
  unfolding lookup lookup_last
  lookup_last-eq-lookup k [] h = refl
  lookup_last-eq-lookup k ((j, v) ∷ m) (fresh, h) =
      let rest = lookup_last-eq-lookup k m h in
      elim (Bool-cases (j == k)) [
        | inl same ↦
            let none_behind : lookup k m ≡ none =
              subst (λ (i : String). lookup i m ≡ none) ((eq_iff j k).0 same) fresh in
            ground (arith, rest, none_behind, same)
        | inr differs ↦ ground (arith, rest, differs)
      ]

  -- A copy into an empty map has the entries of the original.
  pub lookup-copy_unique :
      (k : String) (src : List (String × V))
      → UniqueKeys src
      → lookup k (copy [] src) ≡ lookup k src
  unfolding lookup
  lookup-copy_unique k src h =
      let last = lookup_last-eq-lookup k src h in lookup-copy k [] src ∙ ground (arith, last)
