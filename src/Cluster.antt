-- ===== src/Cluster.antt =====
-- The API server as the operator's controllers, webhook and exporter use it: controller-runtime's
-- `client.Client`. It is not code of this repository, so it is a parameter. Every theorem holds for
-- any behaviour of it: each call may fail, and a write may return any object. `World` keeps, beside
-- the client's own state, the writes that were sent and whether each was acknowledged.
pub mod Memory
use diki_operator.Common.{String, Bool, true, false, List, [], ◌∷◌, ◌++◌, Option, none, some}
use diki_operator.Common.Errors.{Error, Result, ok, err}
use diki_operator.Api.Meta.{ConfigMap, Labels}
use diki_operator.Api.Scan.{ComplianceScan}
use diki_operator.Api.Scheduled.{ScheduledComplianceScan}

pub record Client : Type 1 where
  pub State : Type 0
  pub get_scan : State → String → Result ComplianceScan
  pub get_scheduled : State → String → Result ScheduledComplianceScan
  -- Namespace first, then name.
  pub get_config_map : State → String → String → Result ConfigMap
  pub list_scans : State → Labels → Result (List ComplianceScan)
  -- `Status().Patch`: the object before the change, then the changed one.
  pub patch_scan : State → ComplianceScan → ComplianceScan → Result ComplianceScan × State
  pub patch_scheduled :
      State
      → ScheduledComplianceScan
      → ScheduledComplianceScan
      → Result ScheduledComplianceScan × State
  pub create_config_map : State → ConfigMap → Result ConfigMap × State
  pub create_scan : State → ComplianceScan → Result ComplianceScan × State
  pub delete_scan : State → ComplianceScan → Option Error × State

-- A write as it is sent to the API server.
pub data Write : Type 0 where
  patch_scan : ComplianceScan → Write
  patch_scheduled : ScheduledComplianceScan → Write
  create_config_map : ConfigMap → Write
  create_scan : ComplianceScan → Write
  delete_scan : ComplianceScan → Write

abbrev pub acknowledged {ℓ} : {A : Type ℓ} → Result A → Bool
acknowledged (ok a) = true
acknowledged (err e) = false

module _ (C : Client) where
  -- The writes stand in the order in which they were sent.
  pub record World : Type 0 where
    pub state : C.State
    pub writes : List (Write × Bool)

  abbrev record_write {ℓ} : {A : Type ℓ} → World → Write → Result A × C.State → Result A × World
  record_write w write (r, s) =
      (r, record { state = s; writes = w.writes ++ ((write, acknowledged r) ∷ []) })

  abbrev pub send_patch_scan :
      ComplianceScan → ComplianceScan → World → Result ComplianceScan × World
  send_patch_scan base scan w =
      record_write w (Write.patch_scan scan) (C.patch_scan w.state base scan)

  abbrev pub send_patch_scheduled :
      ScheduledComplianceScan
      → ScheduledComplianceScan
      → World
      → Result ScheduledComplianceScan × World
  send_patch_scheduled base scan w =
      record_write w (Write.patch_scheduled scan) (C.patch_scheduled w.state base scan)

  abbrev pub send_create_config_map : ConfigMap → World → Result ConfigMap × World
  send_create_config_map m w =
      record_write w (Write.create_config_map m) (C.create_config_map w.state m)

  abbrev pub send_create_scan : ComplianceScan → World → Result ComplianceScan × World
  send_create_scan scan w = record_write w (Write.create_scan scan) (C.create_scan w.state scan)

  abbrev pub deleted : Option Error → Bool
  deleted none = true
  deleted (some e) = false

  abbrev pub send_delete_scan : ComplianceScan → World → Option Error × World
  send_delete_scan scan w =
      let (r, s) = C.delete_scan w.state scan in
      (r, record { state = s; writes = w.writes ++ ((Write.delete_scan scan, deleted r) ∷ []) })
