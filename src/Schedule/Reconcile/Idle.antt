-- ===== src/Schedule/Reconcile/Idle.antt =====
-- When a reconciliation of a ScheduledComplianceScan without unfinished children creates one.
use diki_operator.Common.{
  ◌+◌, ◌^◌, ◌≤◌, ◌<◌, String, ◌≡◌, refl, ◌∙◌, ◌⊎◌, inl, inr, true, false, none, some, List, arith,
  All, Bool-cases, Option-cases, ltb,
}
use diki_operator.Common.Errors.{ok}
use diki_operator.Api.Meta.{Time}
use diki_operator.Api.Scan.{ComplianceScan}
use diki_operator.Api.Scheduled.{ScheduledComplianceScan}
use diki_operator.Cluster.{Client, World}
use diki_operator.Schedule.ChildName.{seconds}
use diki_operator.Schedule.Cleanup.{SortFunc}
use diki_operator.Schedule.Children.{no_children, child_selector, categorize}
use diki_operator.Schedule.Children.Sorted.{IsFinished, categorize_lem}
use diki_operator.Schedule.Reconcile.{
  Cron, returns, parse_cron_schedule, should_create, handle_children, reconcile,
}
use diki_operator.Schedule.Reconcile.Creations.{creates}
use diki_operator.Schedule.Reconcile.Due.{run_schedule-creates}

-- There was no run yet, or the first time of the schedule after the last one is not in the future.
abbrev pub IsDue : (K : Cron) → K.Schedule → ScheduledComplianceScan → Time → Type 0
IsDue K expr parent now =
    (parent.status.last_schedule_time ≡ none)
    ⊎ ((last : Time) × (parent.status.last_schedule_time ≡ some last) × (K.next expr last ≤ now))

should_create-IsDue :
    (K : Cron) (expr : K.Schedule) (parent : ScheduledComplianceScan) (now : Time)
    → ((should_create K expr parent now ≡ true) × IsDue K expr parent now)
      ⊎ ((should_create K expr parent now ≡ false) × ¬ (IsDue K expr parent now))
unfolding should_create
should_create-IsDue K expr parent now = elim (Option-cases parent.status.last_schedule_time) [
  | inl first ↦ inl (rw (first, should_create) refl, inl first)
  | inr (last, ran) ↦ elim (Bool-cases (ltb now (K.next expr last))) [
    | inl early ↦ inr (
      rw (ran, should_create, early) refl,
      λ due. elim due [
        | inl first ↦ ground (arith, first, ran)
        | inr (last', ran', past) ↦
            let same : last ≡ last' = ground (arith, ran, ran') in ground (arith, early, past, same)
      ],
    )
    | inr late ↦ inl (rw (ran, should_create, late) refl, inr (last, ran, ground (arith, late)))
  ]
]

module _ (C : Client) (K : Cron) (S : SortFunc) (now : Time) where
  -- If the parent that is read refers to no child and its schedule parses, every listed child is
  -- Completed or Failed, and the seconds of the time have at most 19 digits, then a reconciliation
  -- sends one creation if there was no run yet or the schedule's next time after the last run is not
  -- later than now, and none otherwise.
  pub reconcile_idle :
      (name : String) (w : World C) {parent : ScheduledComplianceScan} {scans : List ComplianceScan}
      (expr : K.Schedule)
      → seconds now < 10 ^ 19
      → C.get_scheduled w.state name ≡ ok parent
      → C.list_scans w.state (child_selector parent) ≡ ok scans
      → All IsFinished scans
      → parent.status.active ≡ none
      → K.parse_standard parent.spec.schedule ≡ returns (ok expr)
      → (IsDue K expr parent now
          × (creates (reconcile C K S now name w).1.writes ≡ creates w.writes + 1))
        ⊎ ((¬ (IsDue K expr parent now))
            × (creates (reconcile C K S now name w).1.writes ≡ creates w.writes))
  unfolding reconcile handle_children
  reconcile_idle name w {parent} {scans} expr bounded read listed all unset parses =
      let idle = (categorize_lem scans).2.1 all in
      let parsed : parse_cron_schedule K parent.spec.schedule ≡ ok expr =
        unfold parse_cron_schedule in rw (parses, parse_cron_schedule) refl in
      let run =
        run_schedule-creates C K S now parent (categorize scans no_children) w expr bounded
          parsed in
      elim (should_create-IsDue K expr parent now) [
        | inl (decided, due) ↦ inl (
          due,
          rw (read, reconcile, listed, idle, handle_children, unset) (run ∙ rw decided refl),
        )
        | inr (decided, early) ↦ inr (
          early,
          rw (read, reconcile, listed, idle, handle_children, unset)
              (run ∙ rw decided (omega arith)),
        )
      ]
