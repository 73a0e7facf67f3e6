-- ===== src/Api/Config.antt =====
-- pkg/apis/config/v1alpha1/types.go: the operator's configuration. A duration is a number of
-- nanoseconds, and the leader election settings are those fields of component-base's type that
-- the operator reads.
use diki_operator.Common.{String, Bool, Option, ℕ, ◌*◌}
use diki_operator.Common.Int.{ℤ, pos}
use diki_operator.Api.Meta.{Labels}

abbrev pub Duration : Type 0
Duration = ℤ

abbrev pub minute : ℕ
minute = 60 * 1000000000

abbrev pub default_lock_object_namespace : String
default_lock_object_namespace = "kube-system"

abbrev pub default_lock_object_name : String
default_lock_object_name = "diki-operator-leader-election"

abbrev pub default_diki_runner_namespace : String
default_diki_runner_namespace = "kube-system"

abbrev pub default_pod_completion_timeout : Duration
default_pod_completion_timeout = pos (10 * minute)

pub record Log : Type 0 where
  pub level : String
  pub format : String

pub record DikiRunnerConfig : Type 0 where
  pub namespace : String
  pub labels : Labels
  pub pod_completion_timeout : Option Duration

pub record ComplianceScanConfig : Type 0 where
  pub sync_period : Option Duration
  pub diki_runner : DikiRunnerConfig

pub record ControllerConfiguration : Type 0 where
  pub compliance_scan : ComplianceScanConfig

pub record Server : Type 0 where
  pub port : ℤ
  pub bind_address : String

pub record Tls : Type 0 where
  pub server_cert_dir : String

pub record HttpsServer : Type 0 where
  pub server : Server
  pub open server use *
  pub tls : Tls

pub record ServerConfiguration : Type 0 where
  pub webhooks : HttpsServer
  pub health_probes : Option Server
  pub metrics : Option Server

pub record LeaderElectionConfiguration : Type 0 where
  pub leader_elect : Option Bool
  pub lease_duration : Duration
  pub renew_deadline : Duration
  pub retry_period : Duration
  pub resource_lock : String
  pub resource_name : String
  pub resource_namespace : String

pub record DikiOperatorConfiguration : Type 0 where
  pub log : Log
  pub leader_election : Option LeaderElectionConfiguration
  pub controllers : ControllerConfiguration
  pub server : ServerConfiguration
