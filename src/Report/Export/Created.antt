-- ===== src/Report/Export/Created.antt =====
-- What the exporter's goroutines write to the cluster.
use mathlib.Core.List.{append_assoc, append-nil}
use mathlib.Core.Path.{subst}
use diki_operator.Common.{String, ℕ, suc, ◌+◌, ◌-◌, ◌≤◌, ◌≡◌, refl, sym, ◌∙◌, ap, arith}
use diki_operator.Common.{Bool, inl, inr}
use diki_operator.Common.{List, [], ◌∷◌, ◌++◌, length, length-append, All}
use diki_operator.Common.Errors.{Result-cases}
use diki_operator.Api.Meta.{ConfigMap}
use diki_operator.Cluster.{Client, World, Write, acknowledged}
use diki_operator.Report.Summary.{DikiReport}
use diki_operator.Report.Outputs.{
  ConfigMapExporter, Library, export_config_map, compress_report, report_config_map,
}
use diki_operator.Report.Workers.{
  Pool, start_workers, WorkerRun, WorkerStep, export, send, rest, next, export_output, send_status,
}
use diki_operator.Report.Workers.Order.{length-middle}

-- The write creates a ConfigMap.
abbrev pub Creates : Write × Bool → Type 0
Creates x = (m : ConfigMap) × (x.0 ≡ Write.create_config_map m)

All-append {ℓ κ} :
    {A : Type ℓ} (P : A → Type κ) (xs ys : List A) → All P xs → All P ys → All P (xs ++ ys)
All-append P [] ys h k = k
All-append P (x ∷ xs) ys (px, h) k = (px, All-append P xs ys h k)

module _ (C : Client) where
  -- Up to this world only ConfigMaps were created, at most this many.
  pub record Created (w : World C) (limit : ℕ) (w' : World C) : Type 0 where
    pub writes : List (Write × Bool)
    pub added : w'.writes ≡ w.writes ++ writes
    pub creates : All Creates writes
    pub within : length writes ≤ limit

  Created-refl : (w : World C) (limit : ℕ) → Created w limit w
  Created-refl w limit = record {
    writes = [];
    added = sym (append-nil _);
    creates = tt;
    within = omega arith;
  }

  Created-trans :
      {w w' w'' : World C} {m n k : ℕ}
      → Created w m w'
      → Created w' n w''
      → m + n ≤ k
      → Created w k w''
  Created-trans {w} a b h = record {
    writes = a.writes ++ b.writes;
    added = b.added ∙ rw a.added (append_assoc w.writes a.writes b.writes);
    creates = All-append Creates a.writes b.writes a.creates b.creates;
    within = omega (arith, length-append a.writes b.writes, a.within, b.within);
  }

  module _ (L : Library) (report : DikiReport) where
    export_config_map-Created :
        (c : ConfigMapExporter) (w : World C) → Created w 1 (export_config_map L C c report w).1
    unfolding export_config_map
    export_config_map-Created c w = elim (Result-cases (compress_report L report)) [
      | inr (e, eq) ↦ rw (eq, export_config_map) (Created-refl w 1)
      | inl (bytes, eq) ↦
          rw (eq, export_config_map)
            (record {
              writes =
                  (
                    Write.create_config_map (report_config_map c.config bytes),
                    acknowledged (C.create_config_map w.state (report_config_map c.config bytes)).0,
                  )
                  ∷ [];
              added = refl;
              creates = ((report_config_map c.config bytes, refl), tt);
              within = omega arith;
            })
    ]

    step-Created :
        {capacity : ℕ} {p q : Pool C}
        → WorkerStep C L report capacity p q
        → Created p.world (length p.waiting - length q.waiting) q.world
    unfolding export_output send_status
    step-Created (export {p = p} before after output eq) =
        let one : 1 ≡ suc (length (before ++ after)) - length (before ++ after) = omega arith in
        rw (eq, length-middle before output after)
          (subst (λ k. Created p.world k (export_output C L report p before output after).world) one
            (export_config_map-Created output.1 p.world))
    step-Created (send {p = p} before after status eq h) = Created-refl p.world _

    step_waiting :
        {capacity : ℕ} {p q : Pool C}
        → WorkerStep C L report capacity p q
        → length q.waiting ≤ length p.waiting
    unfolding export_output send_status
    step_waiting (export {p = p} before after output eq) =
        omega (arith, ap (λ xs. length xs) eq, length-middle before output after)
    step_waiting (send {p = p} before after status eq h) = omega arith

    run-Created :
        {capacity n : ℕ} {p q : Pool C}
        → WorkerRun C L report capacity n p q
        → Created p.world (length p.waiting) q.world
    run-Created (rest {p = p}) = Created-refl p.world _
    run-Created (next st run) =
        Created-trans (step-Created st) (run-Created run) (omega (arith, step_waiting st))

    -- The goroutines create at most one ConfigMap each, and write nothing else.
    pub workers-Created :
        (outputs : List (String × ConfigMapExporter)) (w : World C) {capacity n : ℕ} {q : Pool C}
        → WorkerRun C L report capacity n (start_workers C outputs w) q
        → Created w (length outputs) q.world
    unfolding start_workers
    workers-Created outputs w run = run-Created run
