-- ===== src/DeepCopy/Config.antt =====
-- The deep copies of the operator's configuration,
-- pkg/apis/config/v1alpha1/zz_generated.deepcopy.go, over a memory of their own cells. The leader
-- election settings are a type of k8s.io/component-base, whose deep copy is a parameter.
pub mod Cells
pub mod Copies
pub mod Laws
use diki_operator.Common.{String}
use diki_operator.Api.Config.{Log, HttpsServer}
use diki_operator.DeepCopy.Memory.{Pointer}

-- Leader election settings in memory, and the cells that they point to.
pub record ConfigForeign : Type 1 where
  pub ConfigBlock : Type 0
  pub Election : Type 0

pub record StoredDikiRunnerConfig : Type 0 where
  pub namespace : String
  pub labels : Pointer
  pub pod_completion_timeout : Pointer

pub record StoredComplianceScanConfig : Type 0 where
  pub sync_period : Pointer
  pub diki_runner : StoredDikiRunnerConfig

pub record StoredControllerConfiguration : Type 0 where
  pub compliance_scan : StoredComplianceScanConfig

pub record StoredServerConfiguration : Type 0 where
  pub webhooks : HttpsServer
  pub health_probes : Pointer
  pub metrics : Pointer

pub record StoredDikiOperatorConfiguration : Type 0 where
  pub log : Log
  pub leader_election : Pointer
  pub controllers : StoredControllerConfiguration
  pub server : StoredServerConfiguration
