-- ===== src/Command/Exporter/Ends.antt =====
-- How the exporter's command ends.
use diki_operator.Common.{String, ℕ, ◌+◌, ◌*◌, Option, none, ◌≡◌, arith, length}
use diki_operator.Common.Errors.{Error, ok}
use diki_operator.Api.Report.{ReportExporterConfiguration}
use diki_operator.Cluster.{Client, World}
use diki_operator.Report.Summary.{Statuses}
use diki_operator.Report.Outputs.{Library}
use diki_operator.Report.Workers.{Pool, start_workers, IsFinished, WorkerRun}
use diki_operator.Report.Workers.Order.{run-append, workers_ends}
use diki_operator.Report.Export
use diki_operator.Report.Export.{Prepared, prepare, publish}
use diki_operator.Report.Export.Published.{Published, Exports-Published}
use diki_operator.Command.Exporter.{ExporterSystem, start_exporter, Runs, not_started, exported}

module _ (T : Statuses) (L : Library) (C : Client) (S : ExporterSystem) (config_file : String)
    (w : World C) where
  -- If the command starts and everything is at hand for the export, then whatever steps the
  -- goroutines have taken, in whatever order, they are no more than two for each output, and further
  -- steps lead to where all goroutines are done and the command ends, after two steps for each output
  -- in total: no order of them goes on for ever, and none gets stuck.
  pub Runs-ends :
      {config : ReportExporterConfiguration} {p : Prepared} {n : ℕ} {q : Pool C}
      → start_exporter S config_file ≡ ok config
      → prepare T L C config w ≡ ok p
      → WorkerRun C L p.report (length p.outputs) n (start_workers C p.outputs w) q
      → (m : ℕ) × (r : Pool C) × (n + m ≡ 2 * length p.outputs)
        × WorkerRun C L p.report (length p.outputs) m q r
        × IsFinished C r
        × Runs T L C S config_file w (publish T L C config p r)
  Runs-ends {p} starts at_hand run =
      let (m, r, more, finished, counted) = workers_ends C L p.report p.outputs w run in
      (
        m,
        r,
        counted,
        more,
        finished,
        exported starts (Export.exported at_hand (run-append C L p.report run more) finished),
      )

  -- If the command ends without an error, then its file decodes to a configuration, the client could
  -- be made, and the export under this configuration was published: ConfigMaps were sent, at most as
  -- many as there are outputs, and then the scan was patched with the summaries of the report and one
  -- status for each output.
  pub Runs-Published :
      {outcome : Option Error × World C}
      → Runs T L C S config_file w outcome
      → outcome.0 ≡ none
      → (config : ReportExporterConfiguration) × (start_exporter S config_file ≡ ok config)
        × Published T L C config w outcome.1
  Runs-Published (not_started h) succeeds = absurd (ground arith)
  Runs-Published (exported {config} h exports) succeeds =
      (config, h, Exports-Published T L C config w exports succeeds)
