-- ===== src/Scan/Reconcile.antt =====
-- `Reconcile` (reconciler.go) and `handleFailedScan` (utils.go). A `ctrl.Result` is always empty
-- here, so a call returns its error. The readings of the clock are arguments, one for each
-- `time.Now()` whose value is used.
use diki_operator.Common.{String, ◌<>◌, not, Option, none, some, ◌==◌, keep, if◌then◌else◌}
use diki_operator.Common.Errors.{Error, wrapped, joined, error_text, is_not_found, ok, err}
use diki_operator.Api.Meta.{Time}
use diki_operator.Api.Scan.{
  ComplianceScan, compliance_scan_running, compliance_scan_completed, compliance_scan_failed,
  condition_true, condition_false, condition_type_completed, condition_type_failed,
}
use diki_operator.Api.Config.{ComplianceScanConfig}
use diki_operator.Conditions.{update_conditions}
use diki_operator.Cluster.{Client, World, send_patch_scan}
use diki_operator.Scan.DikiConfig.{Diki}
use diki_operator.Scan.DikiConfig.Deploy.{deploy_diki_config_map}

abbrev pub condition_reason_running : String
condition_reason_running = "ComplianceScanRunning"

abbrev pub condition_reason_completed : String
condition_reason_completed = "ComplianceScanCompleted"

abbrev pub condition_reason_failed : String
condition_reason_failed = "ComplianceScanFailed"

pub record ClockReadings : Type 0 where
  pub running : Time
  pub completed : Time
  pub failed : Time

-- The scan with the status that is sent when it starts, when it completes and when it fails.
unfoldable pub mark_running : Time → ComplianceScan → ComplianceScan
mark_running now scan = record scan {
  status = record (scan.status) {
    conditions =
        update_conditions scan.status.conditions condition_type_completed condition_false
          condition_reason_running "ComplianceScan is running" now;
    phase = compliance_scan_running;
  };
}

unfoldable pub mark_completed : Time → ComplianceScan → ComplianceScan
mark_completed now scan = record scan {
  status = record (scan.status) {
    conditions =
        update_conditions scan.status.conditions condition_type_completed condition_true
          condition_reason_completed "ComplianceScan has completed successfully" now;
    phase = compliance_scan_completed;
  };
}

unfoldable pub mark_failed : Time → Error → ComplianceScan → ComplianceScan
mark_failed now e scan = record scan {
  status = record (scan.status) {
    conditions =
        keep (λ c. not (c.type == condition_type_completed))
          (update_conditions scan.status.conditions condition_type_failed condition_true
            condition_reason_failed ("ComplianceScan failed with error: " <> error_text e) now);
    phase = compliance_scan_failed;
  };
}

module _ (C : Client) where
  unfoldable pub handle_failed_scan :
      Time → ComplianceScan → Error → World C → Option Error × World C
  handle_failed_scan now scan e w =
      let (r, w') = send_patch_scan C scan (mark_failed now e scan) w in
      elim r [
        | err e2 ↦ (
          some (joined "failed to update ComplianceScan status to Failed" e2 "original error" e),
          w',
        )
        | ok sent ↦ (none, w')
      ]

module _ (C : Client) (D : Diki) (config : ComplianceScanConfig) (times : ClockReadings) where
  -- From the update of the phase to Completed on.
  unfoldable pub complete_scan : ComplianceScan → World C → Option Error × World C
  complete_scan scan w =
      let completed : ComplianceScan = mark_completed times.completed scan in
      let (r, w') = send_patch_scan C scan completed w in
      elim r [ err e ↦ handle_failed_scan C times.failed completed e w' | ok sent ↦ (none, w') ]

  -- From the deployment of the diki configuration on.
  unfoldable pub run_scan : ComplianceScan → World C → Option Error × World C
  run_scan scan w =
      let (r, w') = deploy_diki_config_map C D config scan w in
      elim r [ err e ↦ handle_failed_scan C times.failed scan e w' | ok m ↦ complete_scan scan w' ]

  -- From the update of the phase to Running on. A patch fills the scan with the server's answer.
  unfoldable pub start_scan : ComplianceScan → World C → Option Error × World C
  start_scan scan w =
      let running : ComplianceScan = mark_running times.running scan in
      let (r, w') = send_patch_scan C scan running w in
      elim r [ err e ↦ handle_failed_scan C times.failed running e w' | ok sent ↦ run_scan sent w' ]

  unfoldable pub reconcile : String → World C → Option Error × World C
  reconcile name w = elim (C.get_scan w.state name) [
    | err e ↦
        if is_not_found e
        then (none, w)
        else (some (wrapped "error retrieving complianceScan" e), w)
    | ok scan ↦ if scan.status.phase == "" then start_scan scan w else (none, w)
  ]
