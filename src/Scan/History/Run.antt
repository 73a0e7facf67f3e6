-- ===== src/Scan/History/Run.antt =====
-- Each part of `Reconcile` follows the state machine, whatever the API server answers.
use diki_operator.Common.{
  sym, length, length-append, ◌<◌, String, ◌≡◌, refl, ◌∙◌, ◌≢◌, ◌↔◌, Bool, true, false, Option,
}
use diki_operator.Common.{List, [], ◌∷◌, ◌++◌, ◌==◌, eq_iff, arith, ap, Bool-cases}
use diki_operator.Common.{inl, inr}
use diki_operator.Common.Errors.{Error, wrapped, Result, Result-cases, ok, err}
use diki_operator.Api.Meta.{Time, ConfigMap}
use diki_operator.Api.Scan.{ComplianceScan}
use diki_operator.Api.Config.{ComplianceScanConfig}
use diki_operator.Cluster.{Client, World, Write}
use diki_operator.Scan.DikiConfig.{Diki, collect_rulesets}
use diki_operator.Scan.DikiConfig.Deploy.{deploy_diki_config_map, diki_config, diki_config_map}
use diki_operator.Scan.Reconcile.{
  ClockReadings, handle_failed_scan, complete_scan, run_scan, start_scan, reconcile, mark_running,
  mark_completed, mark_failed,
}
use diki_operator.Scan.Statuses.{
  mark_running-IsRunning, mark_completed-IsCompleted, mark_failed-IsFailed,
}
use diki_operator.Scan.History.{
  Stage, start, running, deployed, failing, run, not_run, deploy, not_deployed, give_up, lose_up,
  complete, not_completed, fail, lose, Ends, ends_completed, ends_failed, ends_lost, Follows,
  Follows-Step, Follows-last, Steps, done,
}

module _ (C : Client) where
  module _ (now : Time) (scan : ComplianceScan) (e : Error) (w : World C) where
    handle_failed_scan-Follows : Follows C failing w (handle_failed_scan C now scan e w)
    unfolding handle_failed_scan
    handle_failed_scan-Follows =
        let failed = mark_failed-IsFailed now scan e in
        elim (Result-cases (C.patch_scan w.state scan (mark_failed now e scan)).0) [
          | inl (sent, eq) ↦
              Follows-last C w (ground (arith, eq)) (fail e failed)
                (rw (eq, handle_failed_scan) ends_failed)
          | inr (e2, eq) ↦
              Follows-last C w (ground (arith, eq)) (lose e failed)
                (rw (eq, handle_failed_scan) ends_lost)
        ]

    handle_failed_scan-Follows_running : Follows C running w (handle_failed_scan C now scan e w)
    unfolding handle_failed_scan
    handle_failed_scan-Follows_running =
        let failed = mark_failed-IsFailed now scan e in
        elim (Result-cases (C.patch_scan w.state scan (mark_failed now e scan)).0) [
          | inl (sent, eq) ↦
              Follows-last C w (ground (arith, eq)) (give_up e failed)
                (rw (eq, handle_failed_scan) ends_failed)
          | inr (e2, eq) ↦
              Follows-last C w (ground (arith, eq)) (lose_up e failed)
                (rw (eq, handle_failed_scan) ends_lost)
        ]

-- From the start at least one write leads to an end.
Steps-from_start :
    {ws : List (Write × Bool)} {c : Stage} {e : Option Error}
    → Steps start ws c
    → Ends c e
    → 0 < length ws
Steps-from_start {c = start} done e = elim e [ ]
Steps-from_start (Steps.step st r) e = omega arith

reconcile_unread :
    (C : Client) (D : Diki) (config : ComplianceScanConfig) (times : ClockReadings) (name : String)
    (w : World C)
    → ((scan : ComplianceScan) → C.get_scan w.state name ≡ ok scan → scan.status.phase ≢ "")
    → (reconcile C D config times name w).1 ≡ w
unfolding reconcile
reconcile_unread C D config times name w h = elim (Result-cases (C.get_scan w.state name)) [
  | inl (scan, read) ↦ elim (Bool-cases (scan.status.phase == "")) [
    | inl fresh ↦ absurd (h scan read ((eq_iff scan.status.phase "").0 fresh))
    | inr set ↦ rw (read, reconcile, set)
  ]
  | inr (e, read) ↦ rw (read, reconcile) (ground arith)
]

module _ (C : Client) (D : Diki) (config : ComplianceScanConfig) (times : ClockReadings) where
  complete_scan-Follows :
      (scan : ComplianceScan) (w : World C)
      → Follows C deployed w (complete_scan C D config times scan w)
  unfolding complete_scan
  complete_scan-Follows scan w =
      let target : ComplianceScan = mark_completed times.completed scan in
      let is_completed = mark_completed-IsCompleted times.completed scan in
      let (r, s) = C.patch_scan w.state scan target in
      elim (Result-cases (C.patch_scan w.state scan target).0) [
        | inl (sent, eq) ↦
            Follows-last C w (ground (arith, eq)) (complete is_completed)
              (rw (eq, complete_scan) ends_completed)
        | inr (e, eq) ↦
            let w' : World C = record {
              state = s;
              writes = w.writes ++ ((Write.patch_scan target, false) ∷ []);
            } in
            Follows-Step C w w' refl (not_completed is_completed)
              (rw (eq, complete_scan, eq) (handle_failed_scan-Follows C times.failed target e w'))
      ]

  -- What the deployment comes to: nothing written and an error, or a creation and its answer.
  data Deployment (w : World C) (outcome : Result ConfigMap × World C) : Type 0 where
    not_built : (e : Error) → outcome ≡ (err e, w) → Deployment w outcome
    refused :
        (m : ConfigMap) (e : Error) (s : C.State)
        → outcome ≡ (
          err e,
          record { state = s; writes = w.writes ++ ((Write.create_config_map m, false) ∷ []) },
        )
        → Deployment w outcome
    created :
        (m a : ConfigMap) (s : C.State)
        → outcome ≡ (
          ok a,
          record { state = s; writes = w.writes ++ ((Write.create_config_map m, true) ∷ []) },
        )
        → Deployment w outcome

  deploy_diki_config_map-Deployment :
      (scan : ComplianceScan) (w : World C)
      → Deployment w (deploy_diki_config_map C D config scan w)
  unfolding deploy_diki_config_map
  deploy_diki_config_map-Deployment scan w =
      elim (Result-cases (collect_rulesets C D w.state scan.spec.rulesets [])) [
        | inr (e, eq) ↦ not_built e (ground (arith, eq))
        | inl (rulesets, eq) ↦ elim (Result-cases (D.encode (diki_config C D config rulesets))) [
          | inr (e, eq2) ↦
              not_built (wrapped "failed to marshal diki config" e) (ground (arith, eq, eq2))
          | inl (yaml, eq2) ↦
              let m : ConfigMap = diki_config_map C D config scan yaml in
              let (r, s) = C.create_config_map w.state m in
              elim (Result-cases (C.create_config_map w.state m).0) [
                | inl (a, eq3) ↦ created m a s (ground (arith, eq, eq2, eq3))
                | inr (e, eq3) ↦
                    refused m (wrapped "failed to create diki config configMap" e) s
                      (ground (arith, eq, eq2, eq3))
              ]
        ]
      ]

  run_scan-Follows :
      (scan : ComplianceScan) (w : World C) → Follows C running w (run_scan C D config times scan w)
  unfolding run_scan
  run_scan-Follows scan w = elim (deploy_diki_config_map-Deployment scan w) [
    | not_built e eq ↦
        rw (eq, run_scan, eq) (handle_failed_scan-Follows_running C times.failed scan e w)
    | refused m e s eq ↦
        rw (eq, run_scan, eq)
          (Follows-Step C w _ refl not_deployed
            (handle_failed_scan-Follows C times.failed scan e _))
    | created m a s eq ↦
        rw (eq, run_scan, eq) (Follows-Step C w _ refl deploy (complete_scan-Follows scan _))
  ]

  start_scan-Follows :
      (scan : ComplianceScan) (w : World C) → Follows C start w (start_scan C D config times scan w)
  unfolding start_scan
  start_scan-Follows scan w =
      let target : ComplianceScan = mark_running times.running scan in
      let is_running = mark_running-IsRunning times.running scan in
      let (r, s) = C.patch_scan w.state scan target in
      elim (Result-cases (C.patch_scan w.state scan target).0) [
        | inl (sent, eq) ↦
            let w' : World C = record {
              state = s;
              writes = w.writes ++ ((Write.patch_scan target, true) ∷ []);
            } in
            Follows-Step C w w' refl (run is_running)
              (rw (eq, start_scan, eq) (run_scan-Follows sent w'))
        | inr (e, eq) ↦
            let w' : World C = record {
              state = s;
              writes = w.writes ++ ((Write.patch_scan target, false) ∷ []);
            } in
            Follows-Step C w w' refl (not_run is_running)
              (rw (eq, start_scan, eq) (handle_failed_scan-Follows C times.failed target e w'))
      ]

  reconcile-start_scan :
      (name : String) (scan : ComplianceScan) (w : World C)
      → C.get_scan w.state name ≡ ok scan
      → scan.status.phase ≡ ""
      → reconcile C D config times name w ≡ start_scan C D config times scan w
  unfolding reconcile
  reconcile-start_scan name scan w read fresh =
      rw (read, reconcile, (eq_iff scan.status.phase "").1 fresh)

  -- A reconciliation of a scan with an empty phase sends writes that follow the state machine from
  -- its start and come to one of its ends, and it returns an error only if the last of them, the
  -- status Failed, was not acknowledged.
  pub reconcile-Follows :
      (name : String) (scan : ComplianceScan) (w : World C)
      → C.get_scan w.state name ≡ ok scan
      → scan.status.phase ≡ ""
      → Follows C start w (reconcile C D config times name w)
  reconcile-Follows name scan w read fresh =
      rw (reconcile-start_scan name scan w read fresh) (start_scan-Follows scan w)

  -- A reconciliation writes nothing exactly when there is no scan to read or its phase is set.
  pub reconcile_quiet :
      (name : String) (w : World C)
      → ((reconcile C D config times name w).1.writes ≡ w.writes)
        ↔ ((scan : ComplianceScan) → C.get_scan w.state name ≡ ok scan → scan.status.phase ≢ "")
  reconcile_quiet name w = (some_write, no_write)
    where
      some_write :
          (reconcile C D config times name w).1.writes ≡ w.writes
          → (scan : ComplianceScan) → C.get_scan w.state name ≡ ok scan
          → scan.status.phase ≢ ""
      some_write same scan read fresh =
          let f = reconcile-Follows name scan w read fresh in
          absurd (
            omega (
              arith,
              Steps-from_start f.steps f.ends,
              ap (λ (ws : List (Write × Bool)). length ws) (sym same ∙ f.added),
              length-append w.writes f.writes,
            ))

      no_write :
          ((scan : ComplianceScan) → C.get_scan w.state name ≡ ok scan → scan.status.phase ≢ "")
          → (reconcile C D config times name w).1.writes ≡ w.writes
      no_write h = ap (λ (v : World C). v.writes) (reconcile_unread C D config times name w h)
