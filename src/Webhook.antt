-- ===== src/Webhook.antt =====
-- The admission webhook for ComplianceScans, internal/webhook/compliancescan/handler.go. The
-- decoder, the semantic deep equality of two specs and the text of an aggregated error list are
-- code of Kubernetes' libraries, and are arguments.
pub mod Admission
pub mod Lookup
use diki_operator.Common.{
  ℕ, suc, ◌+◌, String, ◌<>◌, Bool, Option, none, some, List, [], ◌∷◌, ◌++◌, ◌==◌,
}
use diki_operator.Common.{if◌then◌else◌}
use diki_operator.Common.Maps.{lookup}
use diki_operator.Common.Errors.{Error, is_not_found, Result, ok, err}
use diki_operator.Api.Scan.{OptionsConfigMapRef, RulesetConfig, ComplianceScanSpec, ComplianceScan}
use diki_operator.Cluster.{Client}
use diki_operator.Scan.DikiConfig.{rules_ref, ruleset_ref, rule_options_suffix, key_or}

-- A step of a `field.Path`.
pub data Segment : Type 0 where
  child : String → Segment
  index : ℕ → Segment

abbrev pub FieldPath : Type 0
FieldPath = List Segment

-- The `field.Error`s that the handler makes: `field.NotFound` with its value, and
-- `field.InternalError` with its error.
pub data FieldError : Type 0 where
  not_found : FieldPath → String → FieldError
  internal_error : FieldPath → Error → FieldError

-- `admission.Response`: allowed, denied with a message, or an error with its HTTP status.
pub data Response : Type 0 where
  allowed : String → Response
  denied : String → Response
  errored : ℕ → Error → Response

abbrev pub status_bad_request : ℕ
status_bad_request = 400

abbrev pub operation_create : String
operation_create = "CREATE"

abbrev pub operation_update : String
operation_update = "UPDATE"

-- `admission.Request`; a raw object is the text that the decoder reads.
pub record Request : Type 0 where
  pub operation : String
  pub object : String
  pub old_object : String

-- What the handler uses of the libraries.
pub record Library : Type 0 where
  pub decode_raw : String → Result ComplianceScan
  pub deep_equal : ComplianceScanSpec → ComplianceScanSpec → Bool
  pub aggregate : List FieldError → String

abbrev pub spec_field_path : FieldPath
spec_field_path = child "spec" ∷ child "rulesets" ∷ []

module _ (C : Client) (s : C.State) where
  unfoldable pub validate_config_map_reference :
      OptionsConfigMapRef → String → FieldPath → List FieldError
  validate_config_map_reference ref default_key path =
      elim (C.get_config_map s ref.namespace ref.name) [
        | err e ↦
            if is_not_found e
            then not_found path "the referenced configMap does not exist" ∷ []
            else internal_error path e ∷ []
        | ok m ↦ elim (lookup (key_or ref.key default_key) m.values) [
          | none ↦
              not_found (path ++ (child "key" ∷ []))
                "the referenced key within the configMap does not exist"
              ∷ []
          | some value ↦ []
        ]
      ]

  -- The test of a reference that may be absent.
  unfoldable pub validate_optional :
      Option OptionsConfigMapRef → String → FieldPath → List FieldError
  validate_optional none default_key path = []
  validate_optional (some ref) default_key path = validate_config_map_reference ref default_key path

  -- The body of the loop over the rulesets.
  unfoldable pub validate_ruleset : ℕ → RulesetConfig → List FieldError
  validate_ruleset i r =
      let path : FieldPath = spec_field_path ++ (index i ∷ child "options" ∷ []) in
      validate_optional (ruleset_ref r.options) r.id (path ++ (child "ruleset" ∷ []))
      ++ validate_optional (rules_ref r.options) (r.id <> rule_options_suffix)
          (path ++ (child "rules" ∷ []))

  -- The loop, from index `i` on.
  unfoldable pub validate_rulesets : ℕ → List RulesetConfig → List FieldError
  validate_rulesets i [] = []
  validate_rulesets i (r ∷ rs) = validate_ruleset i r ++ validate_rulesets (suc i) rs

  module _ (L : Library) where
    unfoldable pub handle_update : Request → ComplianceScan → Response
    handle_update req scan = elim (L.decode_raw req.old_object) [
      | err e ↦ errored status_bad_request e
      | ok old ↦
          if L.deep_equal old.spec scan.spec
          then allowed ""
          else denied "updating the ComplianceScan spec is not permitted"
    ]

    -- A denial if there are errors.
    unfoldable pub answer : List FieldError → Response
    answer [] = allowed ""
    answer (e ∷ es) = denied (L.aggregate (e ∷ es))

    unfoldable pub handle : Request → Response
    handle req = elim (L.decode_raw req.object) [
      | err e ↦ errored status_bad_request e
      | ok scan ↦
          if req.operation == operation_update
          then handle_update req scan
          else if req.operation == operation_create
          then answer (validate_rulesets 0 scan.spec.rulesets)
          else allowed ""
    ]
