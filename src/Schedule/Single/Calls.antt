-- ===== src/Schedule/Single/Calls.antt =====
-- How many scans of a parent are unfinished after each part of a reconciliation of it.
use mathlib.Core.Path.{subst}
use native.Mathlib.Nat.{le_trans}
use diki_operator.Common.{
  suc, ◌≤◌, ◌≡◌, sym, ap, ◌∙◌, String, none, some, List, arith, length, inl, inr, Bool-cases,
  Option-cases,
}
use diki_operator.Common.Int.{ℤ}
use diki_operator.Common.Errors.{Result, ok, is_not_found, Result-cases}
use diki_operator.Api.Meta.{Time, Labels}
use diki_operator.Api.Scan.{ComplianceScan}
use diki_operator.Api.Scheduled.{ScheduledComplianceScan}
use diki_operator.Cluster.{Client, World}
use diki_operator.Schedule.ChildName.{child_scan_name}
use diki_operator.Schedule.Cleanup.{SortFunc, excess, cleanup_old_scans}
use diki_operator.Schedule.Children.{
  Children, no_children, child_selector, categorize, set_active_scan, deploy_compliance_scan,
  child_scan,
}
use diki_operator.Schedule.Children.Sorted.{categorize_lem}
use diki_operator.Schedule.Reconcile.{
  Cron, parse_cron_schedule, should_create, finish, create_child, run_schedule, follow_active,
  without_active, handle_children, reconcile, limit_or_zero,
}
use diki_operator.Schedule.Single.{
  unfinished, unfinished-finished, ListsCurrent, KeepsScans, active_count, delete_loop-active_count,
}

module _ {C : Client} {labels : Labels} (R : KeepsScans C labels) (K : Cron) (S : SortFunc)
    (now : Time) where
  cleanup-active_count :
      (scans : List ComplianceScan) (limit : ℤ) (w : World C)
      → active_count R (cleanup_old_scans C S scans limit w).1.state ≤ active_count R w.state
  unfolding cleanup_old_scans
  cleanup-active_count scans limit w =
      delete_loop-active_count R (excess (length scans) limit) (S.sort scans) w

  finish-active_count :
      (expr : K.Schedule) (parent : ScheduledComplianceScan) (children : Children) (w : World C)
      → active_count R (finish C K S now expr parent children w).1.state ≤ active_count R w.state
  unfolding finish
  finish-active_count expr parent children w =
      let limit : ℤ = limit_or_zero parent.spec.successful_scans_history_limit in
      let (done, w1) = cleanup_old_scans C S children.successful limit w in
      let first = cleanup-active_count children.successful limit w in
      let second =
        cleanup-active_count children.failed (limit_or_zero parent.spec.failed_scans_history_limit)
          w1 in
      ground (arith, first, second)

  set_active_scan-active_count :
      (parent : ScheduledComplianceScan) (scan : ComplianceScan) (t : Time) (w : World C)
      → active_count R (set_active_scan C parent scan t w).1.state ≤ active_count R w.state
  unfolding set_active_scan
  set_active_scan-active_count parent scan t w = R.patched w.state parent _

  deploy-active_count :
      (parent : ScheduledComplianceScan) (w : World C) (r : Result ComplianceScan) (w1 : World C)
      → deploy_compliance_scan C parent now w ≡ some (r, w1)
      → active_count R w1.state ≤ suc (active_count R w.state)
  unfolding deploy_compliance_scan
  deploy-active_count parent w r w1 h = elim (Option-cases (child_scan_name parent.meta.name now)) [
    | inl e ↦ absurd (ground (arith, h, e))
    | inr (name, e) ↦
        let bound = R.created w.state (child_scan parent name) in ground (arith, h, e, bound)
  ]

  create_child-active_count :
      (expr : K.Schedule) (parent : ScheduledComplianceScan) (children : Children) (w : World C)
      → active_count R (create_child C K S now expr parent children w).1.state
        ≤ suc (active_count R w.state)
  unfolding create_child
  create_child-active_count expr parent children w =
      elim (Option-cases (deploy_compliance_scan C parent now w)) [
        | inl e ↦ rw (create_child, e) (omega arith)
        | inr ((r, w1), e) ↦
            let made = deploy-active_count parent w r w1 e in
            elim (Result-cases r) [
              | inr (failure, e1) ↦ rw (create_child, e, e1) made
              | inl (child, e1) ↦
                  let active = set_active_scan-active_count parent child now w1 in
                  elim (Result-cases (set_active_scan C parent child now w1).0) [
                    | inr (failure, e2) ↦ rw (create_child, e, e1, e2) (le_trans active made)
                    | inl (parent', e2) ↦
                        rw (create_child, e, e1, e2)
                          (le_trans (finish-active_count expr parent' children _)
                            (le_trans active made))
                  ]
            ]
      ]

  run_schedule-active_count :
      (parent : ScheduledComplianceScan) (children : Children) (w : World C)
      → active_count R (run_schedule C K S now parent children w).1.state
        ≤ suc (active_count R w.state)
  unfolding run_schedule
  run_schedule-active_count parent children w =
      elim (Result-cases (parse_cron_schedule K parent.spec.schedule)) [
        | inr (e, parsed) ↦ rw (run_schedule, parsed) (omega arith)
        | inl (expr, parsed) ↦
            let created = create_child-active_count expr parent children w in
            let idle = finish-active_count expr parent children w in
            elim (Bool-cases (should_create K expr parent now)) [
              | inl e ↦ rw (run_schedule, parsed, e) created
              | inr e ↦ rw (run_schedule, parsed, e) (omega (arith, idle))
            ]
      ]

  follow_active-active_count :
      (parent : ScheduledComplianceScan) (scan : ComplianceScan) (w : World C)
      → active_count R (follow_active C K S now parent scan w).1.state ≤ active_count R w.state
  unfolding follow_active
  follow_active-active_count parent scan w =
      let sent = set_active_scan-active_count parent scan scan.meta.creation_timestamp w in
      ground (arith, sent)

  -- Without an active child no scan is unfinished, with one nothing is created.
  handle_children-active_count :
      (parent : ScheduledComplianceScan) (children : Children) (w : World C)
      → (children.active ≡ none → active_count R w.state ≡ 0)
      → active_count R w.state ≤ 1
      → active_count R (handle_children C K S now parent children w).1.state ≤ 1
  unfolding handle_children
  handle_children-active_count parent children w idle h = elim (Option-cases children.active) [
    | inr (scan, e) ↦
        rw (handle_children, e) (le_trans (follow_active-active_count parent scan w) h)
    | inl e ↦
        let none_left = idle e in
        elim (Option-cases parent.status.active) [
          | inl e1 ↦
              let ran = run_schedule-active_count parent children w in
              rw (handle_children, e, e1) (omega (arith, ran, none_left))
          | inr (reference, e1) ↦
              let (r, s) = C.patch_scheduled w.state parent (without_active C K S now parent) in
              let patched = R.patched w.state parent (without_active C K S now parent) in
              elim (Result-cases r) [
                | inr (failure, e2) ↦ rw (handle_children, e, e1, e2) (le_trans patched h)
                | inl (parent', e2) ↦
                    rw (handle_children, e, e1, e2)
                      (le_trans (run_schedule-active_count parent' children _)
                        (omega (arith, patched, none_left)))
              ]
        ]
  ]

  -- If the listed labels are those of the parent that is read, the list is current, and at most one of
  -- the scans with them is unfinished, then at most one is after a reconciliation.
  pub reconcile-active_count :
      (name : String) (w : World C)
      → ((parent : ScheduledComplianceScan)
          → C.get_scheduled w.state name ≡ ok parent
          → child_selector parent ≡ labels)
      → ListsCurrent R w.state
      → active_count R w.state ≤ 1
      → active_count R (reconcile C K S now name w).1.state ≤ 1
  unfolding reconcile
  reconcile-active_count name w owned current h =
      elim (Result-cases (C.get_scheduled w.state name)) [
        | inr (e, eq) ↦ elim (Bool-cases (is_not_found e)) [
          | inl gone ↦ rw (eq, reconcile, gone) h
          | inr broken ↦ rw (eq, reconcile, broken) h
        ]
        | inl (parent, eq) ↦ elim (Result-cases (C.list_scans w.state (child_selector parent))) [
          | inr (e, eq2) ↦ rw (eq, reconcile, eq2) h
          | inl (found, eq2) ↦
              let same : found ≡ R.scans w.state =
                current found
                  (subst (λ l. C.list_scans w.state l ≡ ok found) (owned parent eq) eq2) in
              rw (eq, reconcile, eq2)
                (handle_children-active_count parent (categorize found no_children) w
                  (λ idle.
                    ap unfinished (sym same)
                    ∙ unfinished-finished found ((categorize_lem found).2.0 idle))
                  h)
        ]
      ]
