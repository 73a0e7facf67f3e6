-- ===== src/Config/Defaults.antt =====
-- defaults.go, and zz_generated.defaults.go, which calls its functions one after the other. The
-- leader election defaults of k8s.io/component-base and the logger's names are parameters.
pub mod Complete
pub mod Parts
use diki_operator.Common.{String, Option, none, some, [], ◌==◌, if◌then◌else◌, ◌*◌}
use diki_operator.Common.Int.{ℤ, pos, is_zero}
use diki_operator.Api.Config.{
  minute, default_lock_object_namespace, default_lock_object_name, default_diki_runner_namespace,
  default_pod_completion_timeout, Log, DikiRunnerConfig, ComplianceScanConfig, Server, HttpsServer,
  ServerConfiguration, LeaderElectionConfiguration, DikiOperatorConfiguration,
}

-- What the defaults use of k8s.io/component-base and of gardener's logger.
pub record Library : Type 0 where
  -- `RecommendedDefaultLeaderElectionConfiguration`
  pub recommended : LeaderElectionConfiguration → LeaderElectionConfiguration
  pub info_level : String
  pub format_json : String

-- `if s == "" { s = default }`
abbrev pub or_default : String → String → String
or_default s default = if s == "" then default else s

-- `if d == nil { d = &default }`
abbrev pub or_some {ℓ} : {A : Type ℓ} → Option A → A → Option A
or_some none default = some default
or_some (some d) default = some d

-- `&Server{}`
abbrev pub no_server : Server
no_server = record { port = pos 0; bind_address = "" }

-- `&LeaderElectionConfiguration{}`
abbrev pub no_leader_election : LeaderElectionConfiguration
no_leader_election = record {
  leader_elect = none;
  lease_duration = pos 0;
  renew_deadline = pos 0;
  retry_period = pos 0;
  resource_lock = "";
  resource_name = "";
  resource_namespace = "";
}

-- `SetDefaults_DikiOperatorConfiguration`
unfoldable pub default_leader_election :
    Option LeaderElectionConfiguration → Option LeaderElectionConfiguration
default_leader_election none = some no_leader_election
default_leader_election (some l) = some l

unfoldable pub set_defaults_compliance_scan_config : ComplianceScanConfig → ComplianceScanConfig
set_defaults_compliance_scan_config c = record c {
  sync_period = or_some c.sync_period (pos (60 * minute));
}

unfoldable pub set_defaults_diki_runner_config : DikiRunnerConfig → DikiRunnerConfig
set_defaults_diki_runner_config c = record c {
  namespace = or_default c.namespace default_diki_runner_namespace;
  pod_completion_timeout = or_some c.pod_completion_timeout default_pod_completion_timeout;
}

-- `if s == nil { s = &Server{} }`, then `if s.Port == 0 { s.Port = port }`.
unfoldable pub default_server : Option Server → ℤ → Server
default_server s port =
    let server : Server = elim s [ none ↦ no_server | some server ↦ server ] in
    if is_zero server.port then record server { port = port } else server

unfoldable pub set_defaults_server_configuration : ServerConfiguration → ServerConfiguration
set_defaults_server_configuration c = record c {
  health_probes = some (default_server c.health_probes (pos 8081));
  metrics = some (default_server c.metrics (pos 8080));
}

unfoldable pub set_defaults_https_server : HttpsServer → HttpsServer
set_defaults_https_server h =
    if is_zero h.port then record h { server = record h.server { port = pos 10443 } } else h

module _ (L : Library) where
  unfoldable pub set_defaults_log : Log → Log
  set_defaults_log l = record {
    level = or_default l.level L.info_level;
    format = or_default l.format L.format_json;
  }

  unfoldable pub set_defaults_leader_election :
      LeaderElectionConfiguration → LeaderElectionConfiguration
  set_defaults_leader_election l =
      let r : LeaderElectionConfiguration =
        L.recommended (record l { resource_lock = or_default l.resource_lock "leases" }) in
      record r {
        resource_namespace = or_default r.resource_namespace default_lock_object_namespace;
        resource_name = or_default r.resource_name default_lock_object_name;
      }

  -- `SetObjectDefaults_DikiOperatorConfiguration`
  unfoldable pub set_object_defaults : DikiOperatorConfiguration → DikiOperatorConfiguration
  set_object_defaults c = record {
    log = set_defaults_log c.log;
    leader_election = elim (default_leader_election c.leader_election) [
      | none ↦ none
      | some l ↦ some (set_defaults_leader_election l)
    ];
    controllers = record c.controllers {
      compliance_scan =
          let scan : ComplianceScanConfig =
            set_defaults_compliance_scan_config c.controllers.compliance_scan in
          record scan { diki_runner = set_defaults_diki_runner_config scan.diki_runner };
    };
    server =
        let server : ServerConfiguration = set_defaults_server_configuration c.server in
        record server { webhooks = set_defaults_https_server server.webhooks };
  }
