-- ===== src/Schedule/Single/Progress.antt =====
-- The reconciler of ComplianceScans (internal/reconciler/compliancescan) never makes a scan
-- unfinished.
use native.Mathlib.Nat.{le_trans}
use diki_operator.Common.{
  String, ◌≤◌, ◌≡◌, ◌∙◌, List, [], ◌∷◌, All, arith, ◌==◌, inl, inr, Bool-cases, eq_iff,
}
use diki_operator.Common.Errors.{Error, Result-cases, is_not_found}
use diki_operator.Api.Meta.{Time, Labels}
use diki_operator.Api.Scan.{ComplianceScan, compliance_scan_completed, compliance_scan_failed}
use diki_operator.Api.Config.{ComplianceScanConfig}
use diki_operator.Cluster.{Client, World}
use diki_operator.Scan.DikiConfig.{Diki, collect_rulesets}
use diki_operator.Scan.DikiConfig.Deploy.{deploy_diki_config_map, diki_config}
use diki_operator.Scan.Reconcile.{
  ClockReadings, handle_failed_scan, complete_scan, run_scan, start_scan, reconcile, mark_running,
  mark_completed, mark_failed,
}
use diki_operator.Schedule.Single.{KeepsScans, ReadsCurrent, AllUnfinished, active_count}

module _ {C : Client} {labels : Labels} (R : KeepsScans C labels) where
  handle_failed_scan-active_count :
      (now : Time) (scan : ComplianceScan) (e : Error) (w : World C)
      → active_count R (handle_failed_scan C now scan e w).1.state ≤ active_count R w.state
  unfolding handle_failed_scan mark_failed
  handle_failed_scan-active_count now scan e w =
      let bound =
        R.patched_scan w.state scan (mark_failed now e scan)
          (inl (ground (arith, eq_iff "Failed" "Failed"))) in
      elim (Result-cases (C.patch_scan w.state scan (mark_failed now e scan)).0) [
        | inl (sent, eq) ↦ rw (handle_failed_scan, eq) bound
        | inr (failure, eq) ↦ rw (handle_failed_scan, eq) bound
      ]

module _ {C : Client} {labels : Labels} (R : KeepsScans C labels) (D : Diki)
    (config : ComplianceScanConfig) (times : ClockReadings) where
  complete_scan-active_count :
      (scan : ComplianceScan) (w : World C)
      → active_count R (complete_scan C D config times scan w).1.state ≤ active_count R w.state
  unfolding complete_scan mark_completed
  complete_scan-active_count scan w =
      let completed = mark_completed times.completed scan in
      let bound =
        R.patched_scan w.state scan completed
          (inl (ground (arith, eq_iff "Completed" "Completed"))) in
      elim (Result-cases (C.patch_scan w.state scan completed).0) [
        | inl (sent, eq) ↦ rw (complete_scan, eq) bound
        | inr (failure, eq) ↦
            rw (complete_scan, eq)
              (le_trans (handle_failed_scan-active_count R times.failed completed failure _) bound)
      ]

  deploy-active_count :
      (scan : ComplianceScan) (w : World C)
      → active_count R (deploy_diki_config_map C D config scan w).1.state ≤ active_count R w.state
  unfolding deploy_diki_config_map
  deploy-active_count scan w =
      elim (Result-cases (collect_rulesets C D w.state scan.spec.rulesets [])) [
        | inr (e, eq) ↦ rw (deploy_diki_config_map, eq) (omega arith)
        | inl (rulesets, eq) ↦ elim (Result-cases (D.encode (diki_config C D config rulesets))) [
          | inr (e, eq2) ↦ rw (deploy_diki_config_map, eq, eq2) (omega arith)
          | inl (yaml, eq2) ↦ rw (deploy_diki_config_map, eq, eq2) (R.created_config_map w.state _)
        ]
      ]

  run_scan-active_count :
      (scan : ComplianceScan) (w : World C)
      → active_count R (run_scan C D config times scan w).1.state ≤ active_count R w.state
  unfolding run_scan
  run_scan-active_count scan w =
      let deployed = deploy-active_count scan w in
      elim (Result-cases (deploy_diki_config_map C D config scan w).0) [
        | inr (e, eq) ↦
            rw (run_scan, eq)
              (le_trans (handle_failed_scan-active_count R times.failed scan e _) deployed)
        | inl (m, eq) ↦ rw (run_scan, eq) (le_trans (complete_scan-active_count scan _) deployed)
      ]

  start_scan-active_count :
      (scan : ComplianceScan) (w : World C)
      → AllUnfinished scan.meta.name (R.scans w.state)
      → active_count R (start_scan C D config times scan w).1.state ≤ active_count R w.state
  unfolding start_scan
  start_scan-active_count scan w new =
      let running = mark_running times.running scan in
      let bound = R.patched_scan w.state scan running (inr new) in
      elim (Result-cases (C.patch_scan w.state scan running).0) [
        | inr (e, eq) ↦
            rw (start_scan, eq)
              (le_trans (handle_failed_scan-active_count R times.failed running e _) bound)
        | inl (sent, eq) ↦ rw (start_scan, eq) (le_trans (run_scan-active_count sent _) bound)
      ]

  -- The scans of a name have no phase, if the one that is read has none and is current.
  new-AllUnfinished :
      (found : ComplianceScan) (scans : List ComplianceScan)
      → found.status.phase ≡ ""
      → All
          (λ scan. scan.meta.name ≡ found.meta.name → scan.status.phase ≡ found.status.phase)
          scans
      → AllUnfinished found.meta.name scans
  new-AllUnfinished found [] new all = tt
  new-AllUnfinished found (x ∷ scans) new (current, all) = (
    λ same.
        let phase : x.status.phase ≡ "" = current same ∙ new in
        ground (
          arith,
          phase,
          eq_iff x.status.phase compliance_scan_completed,
          eq_iff x.status.phase compliance_scan_failed,
          eq_iff "" "Completed",
          eq_iff "" "Failed",
        ),
    new-AllUnfinished found scans new all,
  )

  -- A reconciliation of a ComplianceScan that is read as the server has it leaves at most as many
  -- unfinished scans as there were.
  pub reconcile-active_count_le :
      (name : String) (w : World C)
      → ReadsCurrent R w.state name
      → active_count R (reconcile C D config times name w).1.state ≤ active_count R w.state
  unfolding reconcile
  reconcile-active_count_le name w current = elim (Result-cases (C.get_scan w.state name)) [
    | inr (e, eq) ↦ elim (Bool-cases (is_not_found e)) [
      | inl gone ↦ rw (reconcile, eq, gone) (omega arith)
      | inr broken ↦ rw (reconcile, eq, broken) (omega arith)
    ]
    | inl (scan, eq) ↦ elim (Bool-cases (scan.status.phase == "")) [
      | inr other ↦ rw (reconcile, eq, other) (omega arith)
      | inl new ↦
          let unphased : scan.status.phase ≡ "" = (eq_iff scan.status.phase "").0 new in
          rw (reconcile, eq, new)
            (start_scan-active_count scan w
              (new-AllUnfinished scan (R.scans w.state) unphased (current scan eq)))
    ]
  ]
