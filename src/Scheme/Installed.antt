-- ===== src/Scheme/Installed.antt =====
-- What the registrations of the packages come to.
use mathlib.Core.Path.{subst}
use diki_operator.Common.{String, List, [], ◌∷◌, ◌≡◌}
use diki_operator.Common.Errors.{ok, >>=-eq-ok, ok-injective}
use diki_operator.Scheme.{
  GroupVersion, diki_internal, diki_v1alpha1, diki_kinds, convertible, Registry, add_to_scheme,
  register_conversions, register_no_defaults, add_internal_types, add_v1alpha1_types, add_internal,
  add_v1alpha1, install,
}
use diki_operator.Scheme.Known.{
  Extends, Extends-refl, Extends-trans, IsRegistry, Recognizes, Converts, Recognizes-Extends,
  Converts-Extends, add_known_types-Extends, add_known_types-Recognizes, register_all-Converts,
  add_v1alpha1_types-Extends,
}

-- The versions, the kinds and the types that the resources and their parts have.
abbrev pub external_version : GroupVersion
external_version = record { group = "diki.gardener.cloud"; version = "v1alpha1" }

abbrev pub internal_version : GroupVersion
internal_version = record { group = "diki.gardener.cloud"; version = "__internal" }

abbrev pub resource_kinds : List String
resource_kinds =
    "ReportOutput" ∷ "ReportOutputList" ∷ "ComplianceScan" ∷ "ComplianceScanList"
    ∷ "ScheduledComplianceScan" ∷ "ScheduledComplianceScanList" ∷ []

abbrev pub resource_types : List String
resource_types =
    "ComplianceScan" ∷ "ComplianceScanList" ∷ "ComplianceScanSpec" ∷ "ComplianceScanStatus"
    ∷ "Condition" ∷ "Options" ∷ "OptionsConfigMapRef" ∷ "Output" ∷ "OutputConfigMap"
    ∷ "OutputStatus" ∷ "ReportOutput" ∷ "ReportOutputList" ∷ "ReportOutputRef" ∷ "ReportOutputSpec"
    ∷ "Rule" ∷ "RulesFindings" ∷ "RulesResults" ∷ "RulesSummary" ∷ "RulesetConfig"
    ∷ "RulesetOptions" ∷ "RulesetSummary" ∷ "ScheduledComplianceScan"
    ∷ "ScheduledComplianceScanList" ∷ "ScheduledComplianceScanSpec"
    ∷ "ScheduledComplianceScanStatus" ∷ "ScheduledComplianceScanTemplate" ∷ []

module _ (R : Registry) (L : IsRegistry R) where
  register_no_defaults-Extends : (s t : R.Scheme) → register_no_defaults R s ≡ ok t → Extends R s t
  unfolding register_no_defaults
  register_no_defaults-Extends s t h = subst (Extends R s) (ok-injective h) (Extends-refl R s)

  add_v1alpha1-Extends :
      (s t : R.Scheme)
      → add_v1alpha1 R s ≡ ok t
      → Extends R s t × Recognizes R t diki_v1alpha1 diki_kinds × Converts R t convertible
  unfolding add_v1alpha1 add_to_scheme register_conversions
  add_v1alpha1-Extends s t h =
      let (s1, d1, r1) = >>=-eq-ok (add_v1alpha1_types R s) _ h in
      let (s2, d2, r2) = >>=-eq-ok (register_no_defaults R s1) _ r1 in
      let (s3, d3, r3) = >>=-eq-ok (add_v1alpha1_types R s2) _ r2 in
      let (s4, d4, r4) = >>=-eq-ok (register_conversions R s3) _ r3 in
      let (types, known) = add_v1alpha1_types-Extends R L s s1 d1 in
      let defaults = register_no_defaults-Extends s1 s2 d2 in
      let (again, known_again) = add_v1alpha1_types-Extends R L s2 s3 d3 in
      let (conversions, all) = register_all-Converts R L convertible s3 s4 d4 in
      let later =
        Extends-trans R types (Extends-trans R defaults (Extends-trans R again conversions)) in
      subst
        (λ u. Extends R s u × Recognizes R u diki_v1alpha1 diki_kinds × Converts R u convertible)
        (ok-injective r4)
        (later, Recognizes-Extends R diki_v1alpha1 diki_kinds conversions known_again, all)

  add_internal-Extends :
      (s t : R.Scheme)
      → add_internal R s ≡ ok t
      → Extends R s t × Recognizes R t diki_internal diki_kinds
  unfolding add_internal add_to_scheme add_internal_types
  add_internal-Extends s t h =
      subst (λ u. Extends R s u × Recognizes R u diki_internal diki_kinds) (ok-injective h)
        (
          add_known_types-Extends R L diki_internal diki_kinds s,
          add_known_types-Recognizes R L diki_internal diki_kinds s,
        )

  -- If the scheme does what is documented of it and the installation of the diki group succeeds, then
  -- the scheme recognizes the six kinds of the group diki.gardener.cloud in the version v1alpha1 and
  -- in the internal one and converts each of the 26 types from v1alpha1 to the internal version and
  -- back, and it has forgotten nothing.
  pub install-Recognizes :
      (s t : R.Scheme)
      → install R s ≡ ok t
      → Extends R s t
        × Recognizes R t external_version resource_kinds
        × Recognizes R t internal_version resource_kinds
        × Converts R t resource_types
  unfolding install add_to_scheme
  install-Recognizes s t h =
      let (s1, d1, r1) = >>=-eq-ok (add_v1alpha1 R s) _ h in
      let (s2, d2, r2) = >>=-eq-ok (add_internal R s1) _ r1 in
      let (s3, d3, r3) = >>=-eq-ok (R.set_version_priority diki_v1alpha1 s2) _ r2 in
      let (external, known, all) = add_v1alpha1-Extends s s1 d1 in
      let (internal, known_internal) = add_internal-Extends s1 s2 d2 in
      let priority = L.prioritizing diki_v1alpha1 s2 s3 d3 in
      let rest = Extends-trans R internal priority in
      subst
        (λ u.
          Extends R s u
          × Recognizes R u diki_v1alpha1 diki_kinds
          × Recognizes R u diki_internal diki_kinds
          × Converts R u convertible)
        (ok-injective r3)
        (
          Extends-trans R external rest,
          Recognizes-Extends R diki_v1alpha1 diki_kinds rest known,
          Recognizes-Extends R diki_internal diki_kinds priority known_internal,
          Converts-Extends R convertible rest all,
        )
