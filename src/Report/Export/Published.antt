-- ===== src/Report/Export/Published.antt =====
-- What `Export` writes to the cluster, and when it writes nothing.
use mathlib.Core.List.{Perm, append_assoc}
use mathlib.Core.Path.{subst}
use diki_operator.Common.{map, ℕ, ◌≤◌, ◌≡◌, ◌≢◌, refl, sym, ◌∙◌, ap, arith}
use diki_operator.Common.{Bool, true, Option, none, eq_iff, inl, inr}
use diki_operator.Common.{List, [], ◌∷◌, ◌++◌, length, All}
use diki_operator.Common.Errors.{Error, ok, Result-cases, wrap, >>=-eq-ok, wrap-eq-ok, ok-injective}
use diki_operator.Api.Scan.{ComplianceScan, compliance_scan_completed}
use diki_operator.Api.Report.{ReportExporterConfiguration}
use diki_operator.Cluster.{Client, World, Write}
use diki_operator.Report.Summary.{Statuses}
use diki_operator.Report.Rulesets.{all_rulesets, summary_of, create_ruleset_summaries_lem}
use diki_operator.Report.Outputs.{Library, read_diki_report, create_outputs}
use diki_operator.Report.Workers.{Pool, start_workers, IsFinished, WorkerRun}
use diki_operator.Report.Workers.Order.{workers-Perm, status_names, output_names}
use diki_operator.Report.Export.{
  Prepared, refuse_completed, prepare, with_report, publish, Exports, refused, exported,
}
use diki_operator.Report.Export.Created.{Creates, Created, workers-Created}

-- The scan could be read and was not completed, and so could the report and the outputs.
pub record IsReady (L : Library) (C : Client) (config : ReportExporterConfiguration) (w : World C)
    (p : Prepared) : Type 0 where
  pub read : C.get_scan w.state config.compliance_scan_name ≡ ok p.scan
  pub not_completed : p.scan.status.phase ≢ compliance_scan_completed
  pub read_report : read_diki_report L config ≡ ok p.report
  pub created_outputs : create_outputs L config ≡ ok p.outputs

-- From what could be read, ConfigMaps were created, at most one for each output, and then the scan
-- was patched: its rulesets are the summaries of the report's rulesets, in order, its outputs are
-- one status for each output, in some order, and nothing else of it is changed.
pub record Published (T : Statuses) (L : Library) (C : Client)
    (config : ReportExporterConfiguration) (w w' : World C) : Type 0 where
  pub prepared : Prepared
  pub ready : IsReady L C config w prepared
  pub sent : ComplianceScan
  pub summaries : sent.status.rulesets ≡ map (summary_of T) (all_rulesets prepared.report.providers)
  pub each_output : Perm (status_names sent.status.outputs) (output_names prepared.outputs)
  pub meta_kept : sent.meta ≡ prepared.scan.meta
  pub spec_kept : sent.spec ≡ prepared.scan.spec
  pub conditions_kept : sent.status.conditions ≡ prepared.scan.status.conditions
  pub phase_kept : sent.status.phase ≡ prepared.scan.status.phase
  pub writes : List (Write × Bool)
  pub creates : All Creates writes
  pub at_most_one_each : length writes ≤ length prepared.outputs
  pub added : w'.writes ≡ w.writes ++ (writes ++ ((Write.patch_scan sent, true) ∷ []))

module _ (T : Statuses) (L : Library) (C : Client) (config : ReportExporterConfiguration)
    (w : World C) where
  refuse_completed-eq-ok :
      (scan : ComplianceScan) {scan' : ComplianceScan}
      → refuse_completed T L C config scan ≡ ok scan'
      → (scan ≡ scan') × (scan'.status.phase ≢ compliance_scan_completed)
  unfolding refuse_completed
  refuse_completed-eq-ok scan h =
      let same = eq_iff scan.status.phase compliance_scan_completed in
      (ground (arith, same), ground (arith, same))

  prepare-IsReady : {p : Prepared} → prepare T L C config w ≡ ok p → IsReady L C config w p
  unfolding prepare
  prepare-IsReady h =
      let (scan, read, h1) =
        >>=-eq-ok (wrap _ (C.get_scan w.state config.compliance_scan_name)) _ h in
      let (scan', passed, h2) = >>=-eq-ok (refuse_completed T L C config scan) _ h1 in
      let (report, read_report, h3) = >>=-eq-ok (wrap _ (read_diki_report L config)) _ h2 in
      let (outputs, created, h4) = >>=-eq-ok (wrap _ (create_outputs L config)) _ h3 in
      let (same, not_completed) = refuse_completed-eq-ok scan passed in
      subst (IsReady L C config w) (ok-injective h4) (record {
        read = wrap-eq-ok _ _ read ∙ ap ok same;
        not_completed = not_completed;
        read_report = wrap-eq-ok _ _ read_report;
        created_outputs = wrap-eq-ok _ _ created;
      })

  publish_writes :
      (p : Prepared) (q : Pool C) {sent : ComplianceScan}
      → (C.patch_scan q.world.state p.scan (with_report T L C config p.report q.channel p.scan)).0
        ≡ ok sent
      → ((publish T L C config p q).1).writes
        ≡ q.world.writes
          ++ ((Write.patch_scan (with_report T L C config p.report q.channel p.scan), true) ∷ [])
  unfolding publish
  publish_writes p q eq = ground (arith, eq)

  publish-Published :
      {p : Prepared} {n : ℕ} {q : Pool C}
      → prepare T L C config w ≡ ok p
      → WorkerRun C L p.report (length p.outputs) n (start_workers C p.outputs w) q
      → IsFinished C q
      → (publish T L C config p q).0 ≡ none
      → Published T L C config w (publish T L C config p q).1
  unfolding publish with_report
  publish-Published {p} {q} h run finished succeeds =
      let made : Created C w (length p.outputs) q.world =
        workers-Created C L p.report p.outputs w run in
      elim (Result-cases
        (C.patch_scan q.world.state p.scan
          (with_report T L C config p.report q.channel p.scan)).0) [
            | inr (e, eq) ↦ absurd (ground (arith, eq))
            | inl (sent, eq) ↦ record {
              prepared = p;
              ready = prepare-IsReady h;
              sent = with_report T L C config p.report q.channel p.scan;
              summaries = create_ruleset_summaries_lem T p.report;
              each_output = (workers-Perm C L p.report p.outputs w run finished).0;
              meta_kept = refl;
              spec_kept = refl;
              conditions_kept = refl;
              phase_kept = refl;
              writes = made.writes;
              creates = made.creates;
              at_most_one_each = made.within;
              added =
                  publish_writes p q eq
                  ∙ ap
                      (λ ws.
                        ws
                        ++ ((
                          Write.patch_scan (with_report T L C config p.report q.channel p.scan),
                          true,
                        )
                            ∷ []))
                      made.added
                  ∙ append_assoc w.writes made.writes _;
            }
          ]

  -- If `Export` returns no error, then the scan, the report and the outputs could be read, the scan
  -- was not completed, at most as many ConfigMaps were sent as there are outputs, and the last write
  -- patched the scan: its rulesets are the summaries of the report's rulesets in order, its outputs
  -- have one status for each output, and the rest of the scan is as it was read.
  pub Exports-Published :
      {outcome : Option Error × World C}
      → Exports T L C config w outcome
      → outcome.0 ≡ none
      → Published T L C config w outcome.1
  Exports-Published (refused h) succeeds = absurd (ground arith)
  Exports-Published (exported h run finished) succeeds = publish-Published h run finished succeeds

  -- Of a scan that is completed nothing is exported: `Export` returns an error and writes nothing.
  pub Exports-completed :
      (scan : ComplianceScan) {outcome : Option Error × World C}
      → C.get_scan w.state config.compliance_scan_name ≡ ok scan
      → scan.status.phase ≡ compliance_scan_completed
      → Exports T L C config w outcome
      → (outcome.0 ≢ none) × (outcome.1 ≡ w)
  Exports-completed scan read completed (refused h) = (λ p. ground arith, refl)
  Exports-completed scan read completed (exported h run finished) =
      let ready = prepare-IsReady h in
      absurd (
        ready.not_completed
          (ap (λ s. s.status.phase) (ok-injective (sym ready.read ∙ read)) ∙ completed))
