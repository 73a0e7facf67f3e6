-- ===== src/Config/Defaults/Parts.antt =====
-- What each of the defaults fills in, and what it leaves as it is.
use diki_operator.Common.{String, ◌≡◌, ◌≢◌, refl, Option, none, some, ◌*◌, eq_iff, arith}
use diki_operator.Common.{false}
use diki_operator.Common.Int.{ℤ, pos, is_zero}
use diki_operator.Api.Config.{
  DikiRunnerConfig, ComplianceScanConfig, Server, HttpsServer, default_lock_object_name,
  default_pod_completion_timeout, minute,
}
use diki_operator.Config.Defaults.{
  or_default, or_some, set_defaults_compliance_scan_config, set_defaults_diki_runner_config,
  default_server, set_defaults_https_server,
}

abbrev pub IsServing : Option Server → Type 0
IsServing none = ⊥
IsServing (some s) = is_zero s.port ≡ false

pub or_default_set : (s default : String) → default ≢ "" → or_default s default ≢ ""
or_default_set s default h p = ground (arith, eq_iff s "")

pub or_default_kept : (s default : String) → s ≢ "" → or_default s default ≡ s
or_default_kept s default h = ground (arith, eq_iff s "")

pub default_server-IsServing :
    (s : Option Server) (port : ℤ)
    → is_zero port ≡ false
    → is_zero (default_server s port).port ≡ false
unfolding default_server
default_server-IsServing s port h = ground (arith, h)

pub default_server_kept :
    (s : Option Server) (port : ℤ) → IsServing s → some (default_server s port) ≡ s
unfolding default_server
default_server_kept none port h = elim h [ ]
default_server_kept (some s) port h = rw h refl

pub https_server_set : (h : HttpsServer) → is_zero (set_defaults_https_server h).port ≡ false
unfolding set_defaults_https_server
https_server_set h = ground arith

pub https_server_kept : (h : HttpsServer) → is_zero h.port ≡ false → set_defaults_https_server h ≡ h
unfolding set_defaults_https_server
https_server_kept h set = rw set refl

-- The constants are not empty.
pub lock_set : (s : String) → or_default s "leases" ≢ ""
lock_set s = or_default_set s "leases" (λ p. ground (arith, eq_iff "leases" ""))

pub namespace_set : (s : String) → or_default s "kube-system" ≢ ""
namespace_set s = or_default_set s "kube-system" (λ p. ground (arith, eq_iff "kube-system" ""))

pub name_set : (s : String) → or_default s default_lock_object_name ≢ ""
name_set s =
    or_default_set s default_lock_object_name
      (λ p. ground (arith, eq_iff default_lock_object_name ""))

or_some_set {ℓ} : {A : Type ℓ} (o : Option A) (default : A) → or_some o default ≢ none
or_some_set none default p = ground arith
or_some_set (some d) default p = ground arith

or_some_kept {ℓ} : {A : Type ℓ} (o : Option A) (default : A) → o ≢ none → or_some o default ≡ o
or_some_kept none default h = absurd (h refl)
or_some_kept (some d) default h = refl

pub period_kept :
    (c : ComplianceScanConfig) → c.sync_period ≢ none → set_defaults_compliance_scan_config c ≡ c
unfolding set_defaults_compliance_scan_config
period_kept c h = rw (or_some_kept c.sync_period (pos (60 * minute)) h) refl

pub period_set :
    (c : ComplianceScanConfig) → (set_defaults_compliance_scan_config c).sync_period ≢ none
unfolding set_defaults_compliance_scan_config
period_set c = or_some_set c.sync_period _

pub runner_kept :
    (c : DikiRunnerConfig)
    → c.namespace ≢ ""
    → c.pod_completion_timeout ≢ none
    → set_defaults_diki_runner_config c ≡ c
unfolding set_defaults_diki_runner_config
runner_kept c h t =
    rw
      (
        or_default_kept c.namespace "kube-system" h,
        or_some_kept c.pod_completion_timeout default_pod_completion_timeout t,
      )
      refl

pub runner_set : (c : DikiRunnerConfig) → (set_defaults_diki_runner_config c).namespace ≢ ""
unfolding set_defaults_diki_runner_config
runner_set c = namespace_set c.namespace

pub timeout_set :
    (c : DikiRunnerConfig) → (set_defaults_diki_runner_config c).pod_completion_timeout ≢ none
unfolding set_defaults_diki_runner_config
timeout_set c = or_some_set c.pod_completion_timeout _
