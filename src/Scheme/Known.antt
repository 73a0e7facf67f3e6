-- ===== src/Scheme/Known.antt =====
-- Which kinds a scheme recognizes after the registration.
use mathlib.Core.Path.{subst}
use diki_operator.Common.{String, ◌≡◌, true, List, [], ◌∷◌, All}
use diki_operator.Common.Errors.{Result, ok, >>=-eq-ok, ok-injective}
use diki_operator.Scheme.{
  GroupVersion, diki_internal, diki_v1alpha1, diki_kinds, Registry, add_known_types, register_all,
  add_v1alpha1_types,
}

module _ (R : Registry) where
  -- What the first scheme recognizes and converts, the second does.
  pub record Extends (s t : R.Scheme) : Type 0 where
    pub recognized :
        (gv : GroupVersion) (kind : String)
        → R.recognizes s gv kind ≡ true
        → R.recognizes t gv kind ≡ true
    pub converted :
        (from to : GroupVersion) (type_name : String)
        → R.converts s from to type_name ≡ true
        → R.converts t from to type_name ≡ true

  pub Extends-refl : (s : R.Scheme) → Extends s s
  Extends-refl s = record { recognized = λ gv kind h. h; converted = λ from to n h. h }

  pub Extends-trans : {s t u : R.Scheme} → Extends s t → Extends t u → Extends s u
  Extends-trans p q = record {
    recognized = λ gv kind h. q.recognized gv kind (p.recognized gv kind h);
    converted = λ from to n h. q.converted from to n (p.converted from to n h);
  }

  -- A registration that succeeds extends the scheme.
  abbrev pub IsExtending : (R.Scheme → Result R.Scheme) → Type 0
  IsExtending register = (s t : R.Scheme) → register s ≡ ok t → Extends s t

  -- The documented behaviour of the scheme: a type that is added is recognized, a conversion that is
  -- added is found, and no registration makes the scheme forget one.
  pub record IsRegistry : Type 0 where
    pub added :
        (gv : GroupVersion) (kind : String) (s : R.Scheme)
        → R.recognizes (R.add_known_type gv kind s) gv kind ≡ true
    pub adding :
        (gv : GroupVersion) (kind : String) (s : R.Scheme) → Extends s (R.add_known_type gv kind s)
    pub grouping : (gv : GroupVersion) (s : R.Scheme) → Extends s (R.add_to_group_version gv s)
    pub prioritizing : (gv : GroupVersion) → IsExtending (R.set_version_priority gv)
    pub convertible_by :
        (from to : GroupVersion) (n : String) (s t : R.Scheme)
        → R.add_generated_conversion from to n s ≡ ok t
        → R.converts t from to n ≡ true
    pub converting :
        (from to : GroupVersion) (n : String) → IsExtending (R.add_generated_conversion from to n)

  -- The scheme recognizes each of these kinds.
  abbrev pub Recognizes : R.Scheme → GroupVersion → List String → Type 0
  Recognizes s gv kinds = All (λ kind. R.recognizes s gv kind ≡ true) kinds

  -- The scheme converts each of these types in both directions.
  abbrev pub Converts : R.Scheme → List String → Type 0
  Converts s names =
      All
        (λ n.
          (R.converts s diki_v1alpha1 diki_internal n ≡ true)
          × (R.converts s diki_internal diki_v1alpha1 n ≡ true))
        names

  pub Recognizes-Extends :
      {s t : R.Scheme} (gv : GroupVersion) (kinds : List String)
      → Extends s t
      → Recognizes s gv kinds
      → Recognizes t gv kinds
  Recognizes-Extends gv [] more h = tt
  Recognizes-Extends gv (kind ∷ kinds) more (h, hs) =
      (more.recognized gv kind h, Recognizes-Extends gv kinds more hs)

  pub Converts-Extends :
      {s t : R.Scheme} (names : List String) → Extends s t → Converts s names → Converts t names
  Converts-Extends [] more h = tt
  Converts-Extends (n ∷ names) more ((to, from), hs) = (
    (
      more.converted diki_v1alpha1 diki_internal n to,
      more.converted diki_internal diki_v1alpha1 n from,
    ),
    Converts-Extends names more hs,
  )

  module _ (L : IsRegistry) where
    pub add_known_types-Extends :
        (gv : GroupVersion) (kinds : List String) (s : R.Scheme)
        → Extends s (add_known_types R gv kinds s)
    unfolding add_known_types
    add_known_types-Extends gv [] s = Extends-refl s
    add_known_types-Extends gv (kind ∷ kinds) s =
        Extends-trans (L.adding gv kind s)
          (add_known_types-Extends gv kinds (R.add_known_type gv kind s))

    pub add_known_types-Recognizes :
        (gv : GroupVersion) (kinds : List String) (s : R.Scheme)
        → Recognizes (add_known_types R gv kinds s) gv kinds
    unfolding add_known_types
    add_known_types-Recognizes gv [] s = tt
    add_known_types-Recognizes gv (kind ∷ kinds) s = (
      (add_known_types-Extends gv kinds (R.add_known_type gv kind s)).recognized gv kind
          (L.added gv kind s),
      add_known_types-Recognizes gv kinds (R.add_known_type gv kind s),
    )

    pub register_all-Converts :
        (names : List String) (s t : R.Scheme)
        → register_all R names s ≡ ok t
        → Extends s t × Converts t names
    unfolding register_all
    register_all-Converts [] s t h = (subst (Extends s) (ok-injective h) (Extends-refl s), tt)
    register_all-Converts (n ∷ names) s t h =
        let (s1, done1, rest1) =
          >>=-eq-ok (R.add_generated_conversion diki_v1alpha1 diki_internal n s) _ h in
        let (s2, done2, rest2) =
          >>=-eq-ok (R.add_generated_conversion diki_internal diki_v1alpha1 n s1) _ rest1 in
        let (more, all) = register_all-Converts names s2 t rest2 in
        let first = L.converting diki_v1alpha1 diki_internal n s s1 done1 in
        let second = L.converting diki_internal diki_v1alpha1 n s1 s2 done2 in
        (
          Extends-trans first (Extends-trans second more),
          (
            (
              (Extends-trans second more).converted diki_v1alpha1 diki_internal n
                  (L.convertible_by diki_v1alpha1 diki_internal n s s1 done1),
              more.converted diki_internal diki_v1alpha1 n
                  (L.convertible_by diki_internal diki_v1alpha1 n s1 s2 done2),
            ),
            all,
          ),
        )

    pub add_v1alpha1_types-Extends :
        (s t : R.Scheme)
        → add_v1alpha1_types R s ≡ ok t
        → Extends s t × Recognizes t diki_v1alpha1 diki_kinds
    unfolding add_v1alpha1_types
    add_v1alpha1_types-Extends s t h =
        let with_types = add_known_types R diki_v1alpha1 diki_kinds s in
        let grouped = L.grouping diki_v1alpha1 with_types in
        let same = ok-injective h in
        (
          subst (Extends s) same
              (Extends-trans (add_known_types-Extends diki_v1alpha1 diki_kinds s) grouped),
          subst (λ u. Recognizes u diki_v1alpha1 diki_kinds) same
              (Recognizes-Extends diki_v1alpha1 diki_kinds grouped
                (add_known_types-Recognizes diki_v1alpha1 diki_kinds s)),
        )
