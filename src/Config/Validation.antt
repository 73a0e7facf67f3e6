-- ===== src/Config/Validation.antt =====
-- validation/validation.go: the errors of a configuration. The checks of leader election, of labels
-- and of a number that may not be negative are code of Kubernetes' libraries, the names of the log
-- levels and formats are gardener's, and all of them are parameters.
pub mod Valid
use diki_operator.Common.{String, Bool, false, not, ◌&&◌, Option, none, some, List, [], ◌∷◌, ◌++◌}
use diki_operator.Common.{◌==◌, if◌then◌else◌, contains_func, ltb, ◌*◌}
use diki_operator.Common.Int.{ℤ, pos, negsuc, is_zero}
use diki_operator.Api.Meta.{Labels}
use diki_operator.Api.Config.{
  Duration, minute, Log, DikiRunnerConfig, ControllerConfiguration, Server, ServerConfiguration,
  LeaderElectionConfiguration, DikiOperatorConfiguration,
}

-- The names of a `field.Path` from its root.
abbrev pub FieldPath : Type 0
FieldPath = List String

-- A `field.Error`: those that this package makes, and those that a library made.
pub data FieldError : Type 0 where
  not_supported : FieldPath → String → List String → FieldError
  invalid : FieldPath → Duration → String → FieldError
  required : FieldPath → String → FieldError
  from_library : FieldPath → String → FieldError

pub record Library : Type 0 where
  pub validate_leader_election : Option LeaderElectionConfiguration → FieldPath → List FieldError
  pub validate_labels : Labels → FieldPath → List FieldError
  pub validate_nonnegative_field : ℤ → FieldPath → List FieldError
  pub all_log_levels : List String
  pub all_log_formats : List String

-- `sets.New(names...).Has(name)`
abbrev pub has_name : List String → String → Bool
has_name names name = contains_func names (λ n. n == name)

-- `if name != ""`, then a name that is none of the list is an error.
unfoldable pub validate_name : String → List String → FieldPath → List FieldError
validate_name name names path =
    if not (name == "")
    then (if not (has_name names name) then not_supported path name names ∷ [] else [])
    else []

-- The greatest timeout is one hour.
unfoldable pub is_timeout : Duration → Bool
is_timeout (pos n) = not (is_zero (pos n)) && not (ltb (60 * minute) n)
is_timeout (negsuc n) = false

unfoldable pub validate_timeout : Option Duration → FieldPath → List FieldError
validate_timeout none path = []
validate_timeout (some d) path =
    if not (is_timeout d)
    then invalid path d
        "podCompletionTimeout must be greater than 0 and less than or equal to 1 hour"
      ∷ []
    else []

module _ (L : Library) where
  unfoldable pub validate_log : Log → FieldPath → List FieldError
  validate_log log path =
      validate_name log.level L.all_log_levels (path ++ ("level" ∷ []))
      ++ validate_name log.format L.all_log_formats (path ++ ("format" ∷ []))

  unfoldable pub validate_diki_runner : DikiRunnerConfig → FieldPath → List FieldError
  validate_diki_runner runner path =
      L.validate_labels runner.labels (path ++ ("labels" ∷ []))
      ++ validate_timeout runner.pod_completion_timeout (path ++ ("podCompletionTimeout" ∷ []))

  unfoldable pub validate_controllers : ControllerConfiguration → FieldPath → List FieldError
  validate_controllers controllers path =
      validate_diki_runner controllers.compliance_scan.diki_runner
        (path ++ ("complianceScan" ∷ "dikiRunner" ∷ []))

  -- The port of a server that is configured.
  unfoldable pub validate_server : Option Server → FieldPath → List FieldError
  validate_server none path = []
  validate_server (some s) path = L.validate_nonnegative_field s.port (path ++ ("port" ∷ []))

  unfoldable pub validate_server_configuration : ServerConfiguration → FieldPath → List FieldError
  validate_server_configuration config path =
      L.validate_nonnegative_field config.webhooks.port (path ++ ("webhooks" ∷ "port" ∷ []))
      ++ (validate_server config.health_probes (path ++ ("healthProbes" ∷ []))
          ++ (validate_server config.metrics (path ++ ("metrics" ∷ []))
              ++ (if config.webhooks.tls.server_cert_dir == ""
                  then required (path ++ ("webhooks" ∷ "tls" ∷ "serverCertDir" ∷ []))
                      "server certificate directory is required"
                    ∷ []
                  else [])))

  -- `ValidateDikiOperatorConfiguration`
  unfoldable pub validate : DikiOperatorConfiguration → List FieldError
  validate conf =
      validate_log conf.log ("log" ∷ [])
      ++ (validate_controllers conf.controllers ("controllers" ∷ [])
          ++ (L.validate_leader_election conf.leader_election ("leaderElection" ∷ [])
              ++ validate_server_configuration conf.server ("server" ∷ [])))
