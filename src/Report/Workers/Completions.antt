-- ===== src/Report/Workers/Completions.antt =====
-- What the statuses of the exporter's outputs say of the writes.
use diki_operator.Common.{String, ℕ, ◌+◌, ◌≡◌, refl, Bool, true, false, ap, arith, inl, inr}
use diki_operator.Common.{List, [], ◌∷◌, ◌++◌, ◌==◌, length, keep}
use diki_operator.Common.Errors.{Result-cases}
use diki_operator.Api.Meta.{ConfigMap}
use diki_operator.Api.Scan.{OutputStatus, output_status_completed}
use diki_operator.Cluster.{Client, World, Write}
use diki_operator.Report.Summary.{DikiReport}
use diki_operator.Report.Outputs.{
  ConfigMapExporter, Library, details_of, export_config_map, compress_report, report_config_map,
}
use diki_operator.Report.Workers.{
  output_status, Pool, start_workers, IsFinished, send_status, export_output, WorkerStep, export,
  send, WorkerRun, rest, next,
}

-- How many outputs are reported as exported.
abbrev pub completions : List OutputStatus → ℕ
completions statuses = length (keep (λ s. s.phase == output_status_completed) statuses)

-- How many writes were acknowledged.
abbrev pub acknowledgements : List (Write × Bool) → ℕ
acknowledgements writes = length (keep (λ x. x.1) writes)

length-keep_append {ℓ} :
    {A : Type ℓ} (p : A → Bool) (xs ys : List A)
    → length (keep p (xs ++ ys)) ≡ length (keep p xs) + length (keep p ys)
length-keep_append p [] ys = omega arith
length-keep_append p (x ∷ xs) ys = ground (arith, length-keep_append p xs ys)

completions-middle :
    (before : List OutputStatus) (status : OutputStatus) (after : List OutputStatus)
    → completions (before ++ (status ∷ after))
      ≡ completions (before ++ after) + completions (status ∷ [])
completions-middle before status after = ground (
  arith,
  length-keep_append (λ s. s.phase == output_status_completed) before (status ∷ after),
  length-keep_append (λ s. s.phase == output_status_completed) before after,
)

module _ (C : Client) (L : Library) (report : DikiReport) where
  -- A call of `Export` is reported as completed exactly if its creation was acknowledged.
  export_config_map-completions :
      (name : String) (c : ConfigMapExporter) (w : World C)
      → completions (output_status L name (export_config_map L C c report w).0 ∷ [])
          + acknowledgements w.writes
        ≡ acknowledgements (export_config_map L C c report w).1.writes
  unfolding export_config_map output_status details_of
  export_config_map-completions name c w = elim (Result-cases (compress_report L report)) [
    | inr (e, eq) ↦ rw (eq, export_config_map) (omega arith)
    | inl (bytes, eq) ↦
        let m : ConfigMap = report_config_map c.config bytes in
        elim (Result-cases (C.create_config_map w.state m).0) [
          | inr (e, failed) ↦
              rw (eq, export_config_map, failed)
                (omega (
                  arith,
                  length-keep_append (λ x. x.1) w.writes ((Write.create_config_map m, false) ∷ []),
                ))
          | inl (made, created) ↦
              rw (eq, export_config_map, created)
                (omega (
                  arith,
                  length-keep_append (λ x. x.1) w.writes ((Write.create_config_map m, true) ∷ []),
                ))
        ]
  ]

  -- Completed outputs, told or still to be told.
  abbrev told : Pool C → ℕ
  told p = completions p.sending + completions p.channel

  step-completions :
      {capacity : ℕ} {p q : Pool C}
      → WorkerStep C L report capacity p q
      → told q + acknowledgements p.world.writes ≡ told p + acknowledgements q.world.writes
  unfolding export_output send_status
  step-completions (export {p = p} before after output eq) = omega (
    arith,
    completions-middle []
        (output_status L output.0 (export_config_map L C output.1 report p.world).0) p.sending,
    export_config_map-completions output.0 output.1 p.world,
  )
  step-completions (send {p = p} before after status eq h) = rw eq (
      omega (
        arith,
        completions-middle before status after,
        length-keep_append (λ s. s.phase == output_status_completed) p.channel (status ∷ []),
      ))

  run-completions :
      {capacity n : ℕ} {p q : Pool C}
      → WorkerRun C L report capacity n p q
      → told q + acknowledgements p.world.writes ≡ told p + acknowledgements q.world.writes
  run-completions rest = refl
  run-completions (next st run) = omega (arith, step-completions st, run-completions run)

  -- Whatever the order of the goroutines, when all are done as many outputs are reported as
  -- completed as writes of theirs were acknowledged by the API server.
  pub workers-completions :
      (outputs : List (String × ConfigMapExporter)) (w : World C) {n : ℕ} {q : Pool C}
      → WorkerRun C L report (length outputs) n (start_workers C outputs w) q
      → IsFinished C q
      → completions q.channel + acknowledgements w.writes ≡ acknowledgements q.world.writes
  unfolding start_workers IsFinished
  workers-completions outputs w run (none_waits, none_sends) =
      omega (arith, run-completions run, ap completions none_sends)
