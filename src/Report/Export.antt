-- ===== src/Report/Export.antt =====
-- `ReportExporter.Export` (report_exporter.go). The order of its goroutines is left open, so it is a
-- relation between the world and what comes of it.
pub mod Created
pub mod Published
use diki_operator.Common.{String, ℕ, ◌≡◌, Option, none, some, ◌==◌, if◌then◌else◌}
use diki_operator.Common.{List, length}
use diki_operator.Common.Errors.{Error, plain, wrapped, Result, ok, err, wrap, ◌>>=◌}
use diki_operator.Api.Scan.{ComplianceScan, OutputStatus, compliance_scan_completed}
use diki_operator.Api.Report.{ReportExporterConfiguration}
use diki_operator.Cluster.{Client, World, send_patch_scan}
use diki_operator.Report.Summary.{Statuses, DikiReport, create_ruleset_summaries}
use diki_operator.Report.Outputs.{ConfigMapExporter, Library, read_diki_report, create_outputs}
use diki_operator.Report.Workers.{Pool, start_workers, IsFinished, WorkerRun}

-- What is at hand when the goroutines start.
pub record Prepared : Type 0 where
  pub scan : ComplianceScan
  pub report : DikiReport
  pub outputs : List (String × ConfigMapExporter)

module _ (T : Statuses) (L : Library) (C : Client) (config : ReportExporterConfiguration) where
  -- The check of the scan's phase.
  unfoldable pub refuse_completed : ComplianceScan → Result ComplianceScan
  refuse_completed scan =
      if scan.status.phase == compliance_scan_completed
      then err (plain "complianceScan is already completed, cannot export report")
      else ok scan

  -- Up to the goroutines: nothing is written.
  unfoldable pub prepare : World C → Result Prepared
  prepare w = do
    scan ← wrap "error retrieving complianceScan" (C.get_scan w.state config.compliance_scan_name)
    open_scan ← refuse_completed scan
    report ← wrap "error reading diki report" (read_diki_report L config)
    outputs ← wrap "error creating outputs" (create_outputs L config)
    ok (record { scan = open_scan; report = report; outputs = outputs })

  unfoldable pub with_report : DikiReport → List OutputStatus → ComplianceScan → ComplianceScan
  with_report report statuses scan = record scan {
    status = record scan.status {
      rulesets = create_ruleset_summaries T report;
      outputs = statuses;
    };
  }

  -- After the goroutines, with the statuses in the order in which they were sent.
  unfoldable pub publish : Prepared → Pool C → Option Error × World C
  publish p q =
      let (r, w) = send_patch_scan C p.scan (with_report p.report q.channel p.scan) q.world in
      elim r [
        | ok scan ↦ (none, w)
        | err e ↦ (some (wrapped "failed to patch ComplianceScan status" e), w)
      ]

  -- From this world, `Export` may return this error, or none, and leave that world.
  pub data Exports (w : World C) : Option Error × World C → Type 0 where
    refused : {e : Error} → prepare w ≡ err e → Exports w (some e, w)
    exported :
        {p : Prepared} {n : ℕ} {q : Pool C}
        → prepare w ≡ ok p
        → WorkerRun C L p.report (length p.outputs) n (start_workers C p.outputs w) q
        → IsFinished C q
        → Exports w (publish p q)
