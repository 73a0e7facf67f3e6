-- ===== src/Report/Workers/Order.antt =====
-- Every order of the goroutines comes to the same outputs, in the same number of steps, and none
-- of them blocks.
use mathlib.Core.List.{Perm, append_assoc, append-nil, perm_middle}
use mathlib.Core.List.Perm
use mathlib.Core.Path.{subst}
use diki_operator.Common.{String, ℕ, zero, suc, ◌+◌, ◌*◌, ◌≤◌, ◌≡◌, refl, sym, ◌∙◌, ap, arith, map}
use diki_operator.Common.{List, [], ◌∷◌, ◌++◌, length, length-append, length-map, ◌⊎◌, inl, inr}
use diki_operator.Common.Perms.{length-perm}
use diki_operator.Common.Errors.{Result, ok, err}
use diki_operator.Api.Scan.{OutputStatus}
use diki_operator.Cluster.{Client, World}
use diki_operator.Report.Summary.{DikiReport}
use diki_operator.Report.Outputs.{ConfigMapExporter, Library, Details, export_config_map}
use diki_operator.Report.Workers.{
  output_status, Pool, start_workers, IsFinished, send_status, export_output, WorkerStep, export,
  send, WorkerRun, rest, next,
}

abbrev pub status_names : List OutputStatus → List String
status_names statuses = map (λ s. s.output_name) statuses

abbrev pub output_names : List (String × ConfigMapExporter) → List String
output_names outputs = map (λ o. o.0) outputs

map-append {ℓ κ} :
    {A : Type ℓ} {B : Type κ} (f : A → B) (xs ys : List A) → map f (xs ++ ys) ≡ map f xs ++ map f ys
map-append f [] ys = refl
map-append f (x ∷ xs) ys = ap (◌∷◌ (f x)) (map-append f xs ys)

-- To take an element out of a list, and to put it in front.
map-middle {ℓ κ} :
    {A : Type ℓ} {B : Type κ} (f : A → B) (xs : List A) (x : A) (ys : List A)
    → Perm (f x ∷ map f (xs ++ ys)) (map f (xs ++ (x ∷ ys)))
map-middle f xs x ys =
    rw (map-append f xs ys, map-append f xs (x ∷ ys))
      (Perm.symm (perm_middle (map f xs) (map f ys)))

pub length-middle {ℓ} :
    {A : Type ℓ} (xs : List A) (x : A) (ys : List A)
    → length (xs ++ (x ∷ ys)) ≡ suc (length (xs ++ ys))
length-middle [] x ys = refl
length-middle (y ∷ xs) x ys = ap suc (length-middle xs x ys)

List-cases {ℓ} : {A : Type ℓ} (xs : List A) → (xs ≡ []) ⊎ ((y : A) × (ys : List A) × (xs ≡ y ∷ ys))
List-cases [] = inl refl
List-cases (x ∷ xs) = inr (x, xs, refl)

move_last {ℓ} :
    {A : Type ℓ} (xs ys : List A) (x : A) → Perm (xs ++ (ys ++ (x ∷ []))) (x ∷ (xs ++ ys))
move_last xs ys x =
    subst (λ zs. Perm (xs ++ (ys ++ (x ∷ []))) (x ∷ zs)) (append-nil (xs ++ ys))
      (rw (sym (append_assoc xs ys (x ∷ []))) (perm_middle (xs ++ ys) []))

output_status-name :
    (L : Library) (name : String) (r : Result Details) → (output_status L name r).output_name ≡ name
unfolding output_status
output_status-name L name (ok d) = refl
output_status-name L name (err e) = refl

pub run-append :
    (C : Client) (L : Library) (report : DikiReport) {capacity n m : ℕ} {p q r : Pool C}
    → WorkerRun C L report capacity n p q
    → WorkerRun C L report capacity m q r
    → WorkerRun C L report capacity (n + m) p r
run-append C L report {capacity} {p} {r} rest more =
    subst (λ k. WorkerRun C L report capacity k p r) (omega arith) more
run-append C L report {capacity} {p} {r} (next st run) more =
    subst (λ k. WorkerRun C L report capacity k p r) (omega arith)
      (next st (run-append C L report run more))

module _ (C : Client) where
  -- The outputs that a pool has to do with.
  abbrev pub pool_names : Pool C → List String
  pool_names p = output_names p.waiting ++ (status_names p.sending ++ status_names p.channel)

  -- The steps that are left.
  abbrev pub work : Pool C → ℕ
  work p = 2 * length p.waiting + length p.sending

  abbrev places : Pool C → ℕ
  places p = length p.waiting + (length p.sending + length p.channel)

  module _ (L : Library) (report : DikiReport) (capacity : ℕ) where
    step-pool_names :
        {p q : Pool C} → WorkerStep C L report capacity p q → Perm (pool_names q) (pool_names p)
    unfolding export_output send_status
    step-pool_names (export {p = p} before after output eq) =
        let statuses : List String = status_names p.sending ++ status_names p.channel in
        rw (eq, output_status-name L output.0 (export_config_map L C output.1 report p.world).0)
          (Perm.trans (perm_middle (output_names (before ++ after)) statuses)
            (Perm.append_right statuses (map-middle (λ o. o.0) before output after)))
    step-pool_names (send {p = p} before after status eq h) =
        rw (eq, map-append (λ s. s.output_name) p.channel (status ∷ []))
          (Perm.append_left (output_names p.waiting) (
            Perm.trans
              (move_last (status_names (before ++ after)) (status_names p.channel)
                status.output_name)
              (Perm.append_right (status_names p.channel)
                (map-middle (λ s. s.output_name) before status after))))

    step-work : {p q : Pool C} → WorkerStep C L report capacity p q → work p ≡ suc (work q)
    unfolding export_output send_status
    step-work (export {p = p} before after output eq) =
        rw eq (omega (arith, length-middle before output after))
    step-work (send {p = p} before after status eq h) =
        rw eq (omega (arith, length-middle before status after))

    run-pool_names :
        {n : ℕ} {p q : Pool C}
        → WorkerRun C L report capacity n p q
        → Perm (pool_names q) (pool_names p)
    run-pool_names rest = Perm.rfl
    run-pool_names (next st run) = Perm.trans (run-pool_names run) (step-pool_names st)

    run-work : {n : ℕ} {p q : Pool C} → WorkerRun C L report capacity n p q → work p ≡ n + work q
    run-work rest = omega arith
    run-work (next st run) = omega (arith, step-work st, run-work run)

    places-length : (p : Pool C) → length (pool_names p) ≡ places p
    places-length p = omega (
      arith,
      length-append (output_names p.waiting) (status_names p.sending ++ status_names p.channel),
      length-append (status_names p.sending) (status_names p.channel),
      length-map (λ o. o.0) p.waiting,
      length-map (λ s. s.output_name) p.sending,
      length-map (λ s. s.output_name) p.channel,
    )

    run-places : {n : ℕ} {p q : Pool C} → WorkerRun C L report capacity n p q → places q ≡ places p
    run-places {p} {q} run =
        omega (arith, length-perm (run-pool_names run), places-length p, places-length q)

    -- As long as there is room for all, a goroutine that is not done has a step.
    next_step :
        (p : Pool C)
        → places p ≤ capacity
        → IsFinished C p ⊎ ((q : Pool C) × WorkerStep C L report capacity p q)
    unfolding IsFinished
    next_step p h = elim (List-cases p.waiting) [
      | inr (o, os, eq) ↦ inr (_, export [] os o eq)
      | inl none_waits ↦ elim (List-cases p.sending) [
        | inr (s, ss, eq) ↦ inr (_, send [] ss s eq (omega (arith, ap (λ xs. length xs) eq)))
        | inl none_sends ↦ inl (none_waits, none_sends)
      ]
    ]

    -- From a pool with room for all, the goroutines come to an end.
    finish_run :
        (fuel : ℕ) (p : Pool C)
        → places p ≤ capacity
        → work p ≤ fuel
        → (n : ℕ) × (q : Pool C) × WorkerRun C L report capacity n p q × IsFinished C q
    unfolding IsFinished
    finish_run zero p room enough = elim (next_step p room) [
      | inl finished ↦ (0, p, rest, finished)
      | inr (q, st) ↦ absurd (omega (arith, step-work st))
    ]
    finish_run (suc fuel) p room enough = elim (next_step p room) [
      | inl finished ↦ (0, p, rest, finished)
      | inr (q, st) ↦
          let (n, r, run, finished) =
            finish_run fuel q (omega (arith, run-places (next st rest)))
              (omega (arith, step-work st)) in
          (suc n, r, next st run, finished)
    ]

  module _ (L : Library) (report : DikiReport) (outputs : List (String × ConfigMapExporter))
      (w : World C) where
    -- Whatever the order of the goroutines, when all are done the channel holds one status for each
    -- output and no other, and they took two steps for each output.
    pub workers-Perm :
        {n : ℕ} {q : Pool C}
        → WorkerRun C L report (length outputs) n (start_workers C outputs w) q
        → IsFinished C q
        → Perm (status_names q.channel) (output_names outputs) × (n ≡ 2 * length outputs)
    unfolding start_workers IsFinished
    workers-Perm {n} {q} run (none_waits, none_sends) =
        let names : Perm (status_names q.channel) (output_names outputs ++ []) =
          subst (λ xs. Perm xs (output_names outputs ++ []))
            (ap (λ xs. output_names xs ++ (status_names q.sending ++ status_names q.channel))
                none_waits
              ∙ ap (λ xs. status_names xs ++ status_names q.channel) none_sends)
            (run-pool_names L report (length outputs) run) in
        (
          subst (λ xs. Perm (status_names q.channel) xs) (append-nil (output_names outputs)) names,
          omega (
            arith,
            run-work L report (length outputs) run,
            ap (λ xs. length xs) none_waits,
            ap (λ xs. length xs) none_sends,
          ),
        )

    -- After any steps of the goroutines, all are done or one of them has a step: none waits for
    -- ever to send its status.
    pub workers_progress :
        {n : ℕ} {q : Pool C}
        → WorkerRun C L report (length outputs) n (start_workers C outputs w) q
        → IsFinished C q ⊎ ((r : Pool C) × WorkerStep C L report (length outputs) q r)
    unfolding start_workers
    workers_progress {q} run =
        next_step L report (length outputs) q
          (omega (arith, run-places L report (length outputs) run))

    -- From where any steps lead, the goroutines come to their end, after two steps for each output.
    pub workers_ends :
        {n : ℕ} {q : Pool C}
        → WorkerRun C L report (length outputs) n (start_workers C outputs w) q
        → (m : ℕ) × (r : Pool C) × WorkerRun C L report (length outputs) m q r
          × IsFinished C r
          × (n + m ≡ 2 * length outputs)
    unfolding start_workers
    workers_ends {n} {q} run =
        let places = run-places L report (length outputs) run in
        let (m, r, more, finished) =
          finish_run L report (length outputs) (work q) q (omega (arith, places)) (omega arith) in
        let total = (workers-Perm (run-append C L report run more) finished).1 in
        (m, r, more, finished, total)
