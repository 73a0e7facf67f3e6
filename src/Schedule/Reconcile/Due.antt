-- ===== src/Schedule/Reconcile/Due.antt =====
-- When a reconciliation of a ScheduledComplianceScan creates a child, and how many.
use diki_operator.Common.{◌+◌, ◌^◌, ◌≤◌, ◌<◌, String, ◌≡◌, ◌∙◌, inl, inr}
use diki_operator.Common.{true, some, List, [], ◌∷◌, ◌++◌, arith}
use diki_operator.Common.{if◌then◌else◌, Bool-cases, Option-cases}
use mathlib.Core.List.{Memᴰ}
use diki_operator.Schedule.Children.Sorted.{IsUnfinished, categorize_unfinished}
use diki_operator.Common.Errors.{ok, Result-cases}
use diki_operator.Api.Meta.{Time}
use diki_operator.Api.Scan.{ComplianceScan}
use diki_operator.Api.Scheduled.{ScheduledComplianceScan}
use diki_operator.Cluster.{Client, World, Write, acknowledged}
use diki_operator.Schedule.ChildName.{seconds}
use diki_operator.Schedule.Cleanup.{SortFunc}
use diki_operator.Schedule.Children.{Children, no_children, child_selector, categorize}
use diki_operator.Schedule.Reconcile.{
  Cron, parse_cron_schedule, should_create, run_schedule, follow_active, without_active,
  handle_children, reconcile,
}
use diki_operator.Schedule.Reconcile.Creations.{
  creates, creates-append, finish-creates, set_active_scan-creates, create_child-creates,
}

module _ (C : Client) (K : Cron) (S : SortFunc) (now : Time) where
  -- With no active child and a schedule that parses, and at a time whose seconds have at most 19
  -- digits, a run sends one creation if the schedule is due, and none if it is not.
  pub run_schedule-creates :
      (parent : ScheduledComplianceScan) (children : Children) (w : World C) (expr : K.Schedule)
      → seconds now < 10 ^ 19
      → parse_cron_schedule K parent.spec.schedule ≡ ok expr
      → creates (run_schedule C K S now parent children w).1.writes
        ≡ creates w.writes + (if should_create K expr parent now then 1 else 0)
  unfolding run_schedule
  run_schedule-creates parent children w expr h parsed =
      elim (Bool-cases (should_create K expr parent now)) [
        | inl due ↦
            rw (parsed, run_schedule, due) (create_child-creates C K S now expr parent children w h)
        | inr early ↦
            rw (parsed, run_schedule, early)
              (finish-creates C K S now expr parent children w ∙ omega arith)
      ]

  -- A schedule that parses and of which the cron library gives the zero time as the time after the
  -- last run, for want of a next one, is due at once: every run without an active child, at a time
  -- whose seconds have at most 19 digits, sends one more creation.
  pub run_schedule_never_next :
      (parent : ScheduledComplianceScan) (children : Children) (w : World C) (expr : K.Schedule)
      (last : Time)
      → seconds now < 10 ^ 19
      → parse_cron_schedule K parent.spec.schedule ≡ ok expr
      → parent.status.last_schedule_time ≡ some last
      → K.next expr last ≡ 0
      → creates (run_schedule C K S now parent children w).1.writes ≡ creates w.writes + 1
  run_schedule_never_next parent children w expr last h parsed ran never =
      let due : should_create K expr parent now ≡ true =
        unfold should_create in rw (ran, should_create) (ground (arith, never)) in
      run_schedule-creates parent children w expr h parsed ∙ rw due

  -- With an active child nothing is created.
  follow_active-creates :
      (parent : ScheduledComplianceScan) (scan : ComplianceScan) (w : World C)
      → creates (follow_active C K S now parent scan w).1.writes ≡ creates w.writes
  unfolding follow_active
  follow_active-creates parent scan w =
      ground (arith, set_active_scan-creates C K S now parent scan scan.meta.creation_timestamp w)

  run_schedule-creates_le :
      (parent : ScheduledComplianceScan) (children : Children) (w : World C)
      → seconds now < 10 ^ 19
      → creates (run_schedule C K S now parent children w).1.writes ≤ creates w.writes + 1
  run_schedule-creates_le parent children w h =
      elim (Result-cases (parse_cron_schedule K parent.spec.schedule)) [
        | inl (expr, parsed) ↦ ground (arith, run_schedule-creates parent children w expr h parsed)
        | inr (e, refused) ↦ unfold run_schedule in rw (refused, run_schedule) (omega arith)
      ]

  handle_children-creates_active :
      (parent : ScheduledComplianceScan) (children : Children) (w : World C) (scan : ComplianceScan)
      → children.active ≡ some scan
      → creates (handle_children C K S now parent children w).1.writes ≡ creates w.writes
  unfolding handle_children
  handle_children-creates_active parent children w scan active =
      rw (active, handle_children) (follow_active-creates parent scan w)

  handle_children-creates_le :
      (parent : ScheduledComplianceScan) (children : Children) (w : World C)
      → seconds now < 10 ^ 19
      → creates (handle_children C K S now parent children w).1.writes ≤ creates w.writes + 1
  unfolding handle_children
  handle_children-creates_le parent children w h = elim (Option-cases children.active) [
    | inr (scan, active) ↦
        omega (arith, handle_children-creates_active parent children w scan active)
    | inl idle ↦ elim (Option-cases (parent.status.active)) [
      | inl unset ↦ rw (idle, handle_children, unset) (run_schedule-creates_le parent children w h)
      | inr (reference, set) ↦
          let (r, s) = C.patch_scheduled w.state parent (without_active C K S now parent) in
          let w1 : World C = record {
            state = s;
            writes =
                w.writes
                ++ ((Write.patch_scheduled (without_active C K S now parent), acknowledged r) ∷ []);
          } in
          let same : creates w1.writes ≡ creates w.writes =
            unfold creates in
            omega (
              arith,
              creates-append w.writes
                  ((Write.patch_scheduled (without_active C K S now parent), acknowledged r) ∷ []),
            ) in
          elim (Result-cases r) [
            | inr (e, eq) ↦ rw (idle, handle_children, set, eq) (omega arith)
            | inl (parent', eq) ↦
                rw (idle, handle_children, set, eq)
                  (omega (arith, run_schedule-creates_le parent' children w1 h))
          ]
    ]
  ]

  -- A reconciliation sends at most one creation of a scan, whatever the API server answers, at a
  -- time whose seconds have at most 19 digits.
  pub reconcile-creates_le :
      (name : String) (w : World C)
      → seconds now < 10 ^ 19
      → creates (reconcile C K S now name w).1.writes ≤ creates w.writes + 1
  unfolding reconcile
  reconcile-creates_le name w h = elim (Result-cases (C.get_scheduled w.state name)) [
    | inr (e, eq) ↦ rw (eq, reconcile) (ground arith)
    | inl (parent, eq) ↦ elim (Result-cases (C.list_scans w.state (child_selector parent))) [
      | inr (e, eq2) ↦ rw (eq, reconcile, eq2) (omega arith)
      | inl (scans, eq2) ↦
          rw (eq, reconcile, eq2)
            (handle_children-creates_le parent (categorize scans no_children) w h)
    ]
  ]

  -- While the listed children include one that is neither Completed nor Failed, a reconciliation
  -- sends no creation.
  pub reconcile_busy :
      (name : String) (w : World C) {parent : ScheduledComplianceScan} {scans : List ComplianceScan}
      (scan : ComplianceScan)
      → C.get_scheduled w.state name ≡ ok parent
      → C.list_scans w.state (child_selector parent) ≡ ok scans
      → Memᴰ scan scans
      → IsUnfinished scan
      → creates (reconcile C K S now name w).1.writes ≡ creates w.writes
  unfolding reconcile
  reconcile_busy name w {parent} {scans} scan read listed member unfinished =
      let (active, eq) = categorize_unfinished scans no_children scan member unfinished in
      rw (read, reconcile, listed) (handle_children-creates_active parent _ w active eq)
