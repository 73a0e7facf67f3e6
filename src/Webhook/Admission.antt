-- ===== src/Webhook/Admission.antt =====
-- When the admission webhook allows a request.
use diki_operator.Common.{ℕ, suc, String, ◌<>◌, ◌≡◌, refl, ◌↔◌, true}
use diki_operator.Common.{Option, none, some, List, [], ◌∷◌, ◌++◌, eq_iff, arith, All}
use diki_operator.Common.{Option-cases, inl, inr}
use diki_operator.Common.Maps.{lookup}
use diki_operator.Common.Errors.{ok, Result-cases}
use diki_operator.Api.Meta.{ConfigMap}
use diki_operator.Api.Scan.{OptionsConfigMapRef, RulesetConfig, ComplianceScanSpec, ComplianceScan}
use diki_operator.Cluster.{Client}
use diki_operator.Scan.DikiConfig.{rules_ref, ruleset_ref, rule_options_suffix, key_or}
use diki_operator.Webhook.{
  FieldPath, FieldError, Library, Request, allowed, validate_config_map_reference,
  validate_optional, validate_ruleset, validate_rulesets, handle, handle_update, answer,
  operation_create, operation_update,
}

append-eq-nil : {A : Type 0} (xs ys : List A) → (xs ++ ys ≡ []) ↔ ((xs ≡ []) × (ys ≡ []))
append-eq-nil [] ys = (λ h. (refl, h), λ h. h.1)
append-eq-nil (x ∷ xs) ys = (λ h. ground arith, λ h. ground arith)

module _ (C : Client) (s : C.State) where
  -- A reference, if there is one, names a ConfigMap that can be read and a key of it.
  abbrev pub Resolves : Option OptionsConfigMapRef → String → Type 0
  Resolves none default_key = Unit {0}
  Resolves (some ref) default_key =
      (m : ConfigMap) × (value : String) × (C.get_config_map s ref.namespace ref.name ≡ ok m)
      × (lookup (key_or ref.key default_key) m.values ≡ some value)

  -- Both references of a ruleset do, with the keys that stand for absent ones.
  pub record RulesetResolves (r : RulesetConfig) : Type 0 where
    pub options : Resolves (ruleset_ref r.options) r.id
    pub rules : Resolves (rules_ref r.options) (r.id <> rule_options_suffix)

  validate_optional_iff :
      (ref : Option OptionsConfigMapRef) (default_key : String) (path : FieldPath)
      → (validate_optional C s ref default_key path ≡ []) ↔ Resolves ref default_key
  unfolding validate_optional validate_config_map_reference
  validate_optional_iff none default_key path = (λ h. tt, λ h. refl)
  validate_optional_iff (some ref) default_key path =
      elim (Result-cases (C.get_config_map s ref.namespace ref.name)) [
        | inl (m, read) ↦ elim (Option-cases (lookup (key_or ref.key default_key) m.values)) [
          | inl missing ↦ (λ h. absurd (ground arith), λ (x, v, got, at_key). absurd (ground arith))
          | inr (value, found) ↦ (λ h. (m, value, read, found), λ h. ground arith)
        ]
        | inr (e, failed) ↦
            (λ h. absurd (ground arith), λ (x, v, got, at_key). absurd (ground arith))
      ]

  validate_ruleset_iff :
      (i : ℕ) (r : RulesetConfig) → (validate_ruleset C s i r ≡ []) ↔ RulesetResolves r
  unfolding validate_ruleset
  validate_ruleset_iff i r = (
    λ h.
        let (options, rules) = (append-eq-nil _ _).0 h in
        record {
          options = (validate_optional_iff (ruleset_ref r.options) r.id _).0 options;
          rules =
              (validate_optional_iff (rules_ref r.options) (r.id <> rule_options_suffix) _).0 rules;
        },
    λ h. (append-eq-nil _ _).1 (
      (validate_optional_iff (ruleset_ref r.options) r.id _).1 h.options,
      (validate_optional_iff (rules_ref r.options) (r.id <> rule_options_suffix) _).1 h.rules,
    ),
  )

  validate_rulesets_iff :
      (i : ℕ) (rs : List RulesetConfig) → (validate_rulesets C s i rs ≡ []) ↔ All RulesetResolves rs
  unfolding validate_rulesets
  validate_rulesets_iff i [] = (λ h. tt, λ h. refl)
  validate_rulesets_iff i (r ∷ rs) = (
    λ h.
        let (first, rest) = (append-eq-nil _ _).0 h in
        ((validate_ruleset_iff i r).0 first, (validate_rulesets_iff (suc i) rs).0 rest),
    λ h.
        (append-eq-nil _ _).1
          ((validate_ruleset_iff i r).1 h.0, (validate_rulesets_iff (suc i) rs).1 h.1),
  )

  module _ (L : Library) (req : Request) (scan : ComplianceScan) where
    answer_iff : (es : List FieldError) → (answer C s L es ≡ allowed "") ↔ (es ≡ [])
    unfolding answer
    answer_iff [] = (λ h. refl, λ h. refl)
    answer_iff (e ∷ es) = (λ h. absurd (ground arith), λ h. absurd (ground arith))

    -- A request to create a scan that can be decoded is allowed exactly when every reference of
    -- every ruleset of the scan names a ConfigMap that can be read and that has the key: the
    -- reference's own key, or else the ruleset's id, with the suffix for the options of rules.
    pub handle_create_iff :
        L.decode_raw req.object ≡ ok scan
        → req.operation ≡ operation_create
        → (handle C s L req ≡ allowed "") ↔ All RulesetResolves scan.spec.rulesets
    handle_create_iff decoded create = rw (handle-create decoded create) (
      λ h. (validate_rulesets_iff 0 _).0 ((answer_iff _).0 h),
      λ h. (answer_iff _).1 ((validate_rulesets_iff 0 _).1 h),
    )
      where
        handle-create :
            L.decode_raw req.object ≡ ok scan
            → req.operation ≡ operation_create
            → handle C s L req ≡ answer C s L (validate_rulesets C s 0 scan.spec.rulesets)
        handle-create d c =
            unfold handle in
            ground (
              arith,
              d,
              c,
              eq_iff req.operation operation_update,
              eq_iff operation_create operation_update,
              eq_iff req.operation operation_create,
            )

    -- Where the semantic comparison of two specs is exact, a request to update a scan of which both
    -- objects can be decoded is allowed exactly when the spec is unchanged.
    pub handle_update_iff :
        (old : ComplianceScan)
        → ((a b : ComplianceScanSpec) → (L.deep_equal a b ≡ true) ↔ (a ≡ b))
        → L.decode_raw req.object ≡ ok scan
        → L.decode_raw req.old_object ≡ ok old
        → req.operation ≡ operation_update
        → (handle C s L req ≡ allowed "") ↔ (old.spec ≡ scan.spec)
    unfolding handle handle_update
    handle_update_iff old exact decoded decoded_old update =
        let same = exact old.spec scan.spec in
        ground (arith, eq_iff req.operation operation_update, same)
