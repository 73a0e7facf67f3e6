-- ===== src/Command/Manager.antt =====
-- `run` (cmd/diki-operator/app/app.go): the manager's options and its set-up. The manager is code
-- of controller-runtime, a parameter.
pub mod SetUp
use diki_operator.Common.{
  ℕ, suc, ◌*◌, String, ◌<>◌, Bool, true, false, ◌||◌, List, [], ◌∷◌, Option, none, some,
  if◌then◌else◌,
}
use Prim.Native.Char.{code}
use diki_operator.Common.{nat_eq}
use diki_operator.Common.Int.{ℤ, pos, negsuc}
use diki_operator.Common.Decimal.{format_nat}
use diki_operator.Common.Errors.{Error, wrapped, Result, ok, err}
use diki_operator.Api.Config.{Duration, Server, DikiOperatorConfiguration}
use diki_operator.Command.Registration.{
  Controller, compliance_scan_controller, scheduled_compliance_scan_controller, webhook_path,
  second,
}

-- `strings.Contains(s, ":")`
unfoldable pub has_colon : String → Bool
has_colon String.[] = false
has_colon (String.◌∷◌ c s) = nat_eq (code c) (code ":") || has_colon s

-- `strconv.Itoa`
unfoldable pub itoa : ℤ → String
itoa (pos n) = format_nat n
itoa (negsuc n) = "-" <> format_nat (suc n)

-- `net.JoinHostPort` with `strconv.Itoa` of the port
unfoldable pub join_host_port : Server → String
unfolding has_colon itoa
join_host_port s =
    if has_colon s.bind_address
    then "[" <> (s.bind_address <> ("]:" <> itoa s.port))
    else s.bind_address <> (":" <> itoa s.port)

-- `ctrl.Options` as `run` fills it
pub record ManagerOptions : Type 0 where
  pub metrics_address : String
  pub graceful_shutdown_timeout : ℕ
  pub leader_election : Bool
  pub resource_lock : String
  pub leader_election_id : String
  pub leader_election_namespace : String
  pub release_on_cancel : Bool
  pub lease_duration : Duration
  pub renew_deadline : Duration
  pub retry_period : Duration
  pub health_probe_address : String
  pub webhook_host : String
  pub webhook_port : ℤ
  pub cert_dir : String
  pub recover_panic : Bool

-- `none` is a nil pointer that is dereferenced.
unfoldable pub manager_options : DikiOperatorConfiguration → Option ManagerOptions
manager_options config = elim config.leader_election [
  | none ↦ none
  | some l ↦ elim l.leader_elect [
    | none ↦ none
    | some elect ↦ elim config.server.metrics [
      | none ↦ none
      | some metrics ↦ elim config.server.health_probes [
        | none ↦ none
        | some probes ↦ some (record {
          metrics_address = join_host_port metrics;
          graceful_shutdown_timeout = 5 * second;
          leader_election = elect;
          resource_lock = l.resource_lock;
          leader_election_id = l.resource_name;
          leader_election_namespace = l.resource_namespace;
          release_on_cancel = true;
          lease_duration = l.lease_duration;
          renew_deadline = l.renew_deadline;
          retry_period = l.retry_period;
          health_probe_address = join_host_port probes;
          webhook_host = config.server.webhooks.bind_address;
          webhook_port = config.server.webhooks.port;
          cert_dir = config.server.webhooks.tls.server_cert_dir;
          recover_panic = true;
        })
      ]
    ]
  ]
]

-- A call at the manager that may fail.
pub data Setup : Type 0 where
  diki_scheme client_go_scheme : Setup
  healthz readyz : String → Setup
  controller : Controller → Setup

pub record Runtime : Type 1 where
  pub Rest : Type 0
  pub Manager : Type 0
  pub get_config : Result Rest
  -- `util.ApplyClientConnectionConfigurationToRESTConfig`, with the queries per second and the burst.
  pub limited : ℕ → ℕ → Rest → Rest
  pub new_manager : Rest → ManagerOptions → Result Manager
  pub perform : Setup → Manager → Option Error × Manager
  pub register : String → Manager → Manager
  pub start : Manager → Option Error

-- The calls in the order of `run`, each with what is made of its error.
unfoldable pub setups : List (Setup × (Error → Error))
setups =
    (diki_scheme, wrapped "could not update manager scheme")
    ∷ (client_go_scheme, wrapped "could not update manager scheme")
    ∷ (healthz "ping", λ e. e)
    ∷ (healthz "informer-sync", λ e. e)
    ∷ (readyz "informer-sync", λ e. e)
    ∷ (readyz "webhook-server", λ e. e)
    ∷ (
      controller compliance_scan_controller,
      wrapped "unable to create complianceScan reconcile controller",
    )
    ∷ (
      controller scheduled_compliance_scan_controller,
      wrapped "unable to create scheduledComplianceScan reconcile controller",
    )
    ∷ []

-- How the command ends: with an error before the manager starts, with what the manager's `Start`
-- returned, or with a panic. The calls that were made at the manager come with it.
pub data Ending : Type 0 where
  stopped : Error → Ending
  started : Option Error → Ending
  panicked : Ending

module _ (R : Runtime) where
  -- `AddToManager` of the webhook always succeeds.
  unfoldable pub start_manager : R.Manager → Ending
  start_manager m = started (R.start (R.register webhook_path m))

  unfoldable pub set_up : List (Setup × (Error → Error)) → R.Manager → List Setup × Ending
  unfolding start_manager
  set_up [] m = ([], start_manager m)
  set_up ((call, failure) ∷ calls) m =
      let (r, m') = R.perform call m in
      let (made, ending) = set_up calls m' in
      elim r [ some e ↦ (call ∷ [], stopped (failure e)) | none ↦ (call ∷ made, ending) ]

  unfoldable pub run : DikiOperatorConfiguration → List Setup × Ending
  run config = elim R.get_config [
    | err e ↦ ([], stopped e)
    | ok rest ↦ elim (manager_options config) [
      | none ↦ ([], panicked)
      | some options ↦ elim (R.new_manager (R.limited 100 130 rest) options) [
        | err e ↦ ([], stopped (wrapped "unable to create manager" e))
        | ok m ↦ set_up setups m
      ]
    ]
  ]
