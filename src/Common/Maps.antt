-- ===== src/Common/Maps.antt =====
-- Go's `map[string]V` as an association list: a read gives `none` on a missing key.
use Prim.Native.String.{String}
use mathlib.Core.Path.{◌≡◌, refl}
use mathlib.Core.Option.{Option, none, some}
use mathlib.Core.List.{List, [], ◌∷◌}
use native.Mathlib.Omega.{arith}
use text.Mathlib.Text.{◌==◌}
use text.Mathlib.TextEquality.{eq_iff}
use diki_operator.Common.Tests.{if◌then◌else◌}

module _ {ℓ} {V : Type ℓ} where
  unfoldable pub lookup : String → List (String × V) → Option V
  lookup key [] = none
  lookup key (entry ∷ entries) = if entry.0 == key then some entry.1 else lookup key entries

  -- The last entry of a key, which the copy leaves under it.
  unfoldable pub lookup_last : String → List (String × V) → Option V
  lookup_last k [] = none
  lookup_last k ((j, v) ∷ m) = elim (lookup_last k m) [
    | some w ↦ some w
    | none ↦ if j == k then some v else none
  ]

  -- `m[k] = v`
  unfoldable pub insert : String → V → List (String × V) → List (String × V)
  insert key v [] = (key, v) ∷ []
  insert key v (entry ∷ entries) =
      if entry.0 == key then (key, v) ∷ entries else entry ∷ insert key v entries

  -- `maps.Copy(dst, src)`
  unfoldable pub copy : List (String × V) → List (String × V) → List (String × V)
  copy dst [] = dst
  copy dst ((k, v) ∷ src) = copy (insert k v dst) src

  pub lookup-insert :
      (written read : String) (v : V) (entries : List (String × V))
      → lookup read (insert written v entries)
        ≡ (if written == read then some v else lookup read entries)
  unfolding lookup insert
  lookup-insert written read v [] = refl
  lookup-insert written read v ((k, old) ∷ entries) =
      let rest = lookup-insert written read v entries in
      ground (arith, rest, eq_iff k written, eq_iff k read, eq_iff written read)

  pub lookup-copy :
      (k : String) (dst src : List (String × V))
      → lookup k (copy dst src)
        ≡ (elim (lookup_last k src) [ some w ↦ some w | none ↦ lookup k dst ])
  unfolding copy lookup_last
  lookup-copy k dst [] = refl
  lookup-copy k dst ((j, v) ∷ src) =
      ground (arith, lookup-copy k (insert j v dst) src, lookup-insert j k v dst)
