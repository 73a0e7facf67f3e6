-- ===== src/Schedule/Reconcile/Active.antt =====
-- How long a run without an active child waits, and that a reconciliation does not panic.
use diki_operator.Common.{◌-◌, ◌^◌, ◌≤◌, ◌<◌, String, ◌≡◌, ◌∙◌, ◌≢◌}
use diki_operator.Common.{inl, inr, true, false, Option, none, some, List}
use diki_operator.Common.{arith, Bool-cases, Option-cases}
use diki_operator.Common.Int.{ℤ, pos, negsuc}
use diki_operator.Common.Errors.{ok, Result-cases, wrap-eq-ok, is_not_found}
use diki_operator.Api.Meta.{Time}
use diki_operator.Api.Scan.{ComplianceScan}
use diki_operator.Api.Scheduled.{ScheduledComplianceScan}
use diki_operator.Cluster.{Client, World, send_patch_scheduled}
use diki_operator.Schedule.ChildName.{seconds}
use diki_operator.Schedule.Cleanup.{SortFunc, cleanup_old_scans}
use diki_operator.Schedule.Cleanup.Kept.{cleanup_old_scans-Cleaned}
use diki_operator.Schedule.Children.{
  Children, no_children, child_selector, categorize, with_active, set_active_scan,
}
use diki_operator.Schedule.Reconcile.Creations.{deploy_compliance_scan_sent}
use diki_operator.Schedule.Reconcile.{
  Cron, requeue_after, panicked, limit_or_zero, parse_cron_schedule, should_create, finish,
  create_child, run_schedule, follow_active, handle_children, reconcile, max_duration,
  without_active, sub_or_zero,
}

-- A history limit that the API server admits: none, or one that is not negative.
abbrev pub IsLimit : Option ℤ → Type 0
IsLimit none = Unit {0}
IsLimit (some (pos n)) = Unit {0}
IsLimit (some (negsuc n)) = ⊥

-- Both limits of a parent are.
pub record HasLimits (parent : ScheduledComplianceScan) : Type 0 where
  pub successful : IsLimit parent.spec.successful_scans_history_limit
  pub failed : IsLimit parent.spec.failed_scans_history_limit

module _ (C : Client) (K : Cron) (S : SortFunc) (now : Time) where
  cleanup_within :
      (limit : Option ℤ) (scans : List ComplianceScan) (w : World C)
      → IsLimit limit
      → (cleanup_old_scans C S scans (limit_or_zero limit) w).0 ≡ true
  cleanup_within none scans w h = (cleanup_old_scans-Cleaned C S scans w 0).finished
  cleanup_within (some (pos n)) scans w h = (cleanup_old_scans-Cleaned C S scans w n).finished
  cleanup_within (some (negsuc n)) scans w h = absurd h

  -- The time from which the next run is computed.
  abbrev reference_time : ScheduledComplianceScan → Time
  reference_time parent = elim (parent.status.last_schedule_time) [ none ↦ now | some last ↦ last ]

  finish_requeues :
      (expr : K.Schedule) (parent : ScheduledComplianceScan) (children : Children) (w : World C)
      → HasLimits parent
      → (finish C K S now expr parent children w).0
        ≡ requeue_after (sub_or_zero (K.next expr (reference_time parent)) now)
  finish_requeues expr parent children w h =
      let first =
        cleanup_within parent.spec.successful_scans_history_limit children.successful w
          h.successful in
      let second =
        cleanup_within parent.spec.failed_scans_history_limit children.failed
          (cleanup_old_scans C S children.successful
            (limit_or_zero parent.spec.successful_scans_history_limit) w).1
          h.failed in
      unfold finish in rw (first, finish, second)

  -- Where a schedule is not due, that is, before the next time after its last run, and the limits
  -- are admitted, a run without an active child returns with the exact delay until that time, if it
  -- is below the largest duration.
  pub run_schedule_waits :
      (parent : ScheduledComplianceScan) (children : Children) (w : World C) (expr : K.Schedule)
      (last : Time)
      → parse_cron_schedule K parent.spec.schedule ≡ ok expr
      → parent.status.last_schedule_time ≡ some last
      → now < K.next expr last
      → K.next expr last - now ≤ max_duration
      → HasLimits parent
      → (run_schedule C K S now parent children w).0 ≡ requeue_after (K.next expr last - now)
  run_schedule_waits parent children w expr last parsed ran early short limits =
      let not_due : should_create K expr parent now ≡ false =
        unfold should_create in rw (ran, should_create) (ground arith) in
      unfold run_schedule in
      rw (parsed, run_schedule, not_due)
        (finish_requeues expr parent children w limits ∙ ground (arith, ran))

  -- The API server gives back only parents with admitted limits (the CRD's `Minimum=0`).
  pub record ServesLimits : Type 0 where
    pub read :
        (s : C.State) (name : String) (parent : ScheduledComplianceScan)
        → C.get_scheduled s name ≡ ok parent
        → HasLimits parent
    pub answered :
        (s : C.State) (base sent parent : ScheduledComplianceScan)
        → (C.patch_scheduled s base sent).0 ≡ ok parent
        → HasLimits parent

  module _ (serves : ServesLimits) (bounded : seconds now < 10 ^ 19) where
    set_active_scan-HasLimits :
        (parent : ScheduledComplianceScan) (scan : ComplianceScan) (t : Time) (w : World C)
        {parent' : ScheduledComplianceScan}
        → (set_active_scan C parent scan t w).0 ≡ ok parent'
        → HasLimits parent'
    unfolding set_active_scan
    set_active_scan-HasLimits parent scan t w {parent'} h =
        serves.answered w.state parent (with_active scan t parent) parent' (wrap-eq-ok _ _ h)

    finish-ne-panicked :
        (expr : K.Schedule) (parent : ScheduledComplianceScan) (children : Children) (w : World C)
        → HasLimits parent
        → (finish C K S now expr parent children w).0 ≢ panicked
    finish-ne-panicked expr parent children w h e =
        ground (arith, finish_requeues expr parent children w h, e)

    create_child-ne-panicked :
        (expr : K.Schedule) (parent : ScheduledComplianceScan) (children : Children) (w : World C)
        → (create_child C K S now expr parent children w).0 ≢ panicked
    unfolding create_child
    create_child-ne-panicked expr parent children w =
        let (r, w1, sent, counted) = deploy_compliance_scan_sent C K S now parent w bounded in
        elim (Result-cases r) [
          | inr (e, eq) ↦ rw (sent, create_child, eq) (λ p. ground arith)
          | inl (child, eq) ↦ elim (Result-cases (set_active_scan C parent child now w1).0) [
            | inr (e, eq2) ↦ rw (sent, create_child, eq, eq2) (λ p. ground arith)
            | inl (parent', eq2) ↦
                rw (sent, create_child, eq, eq2)
                  (finish-ne-panicked expr parent' children
                    (set_active_scan C parent child now w1).1
                    (set_active_scan-HasLimits parent child now w1 eq2))
          ]
        ]

    run_schedule-ne-panicked :
        (parent : ScheduledComplianceScan) (children : Children) (w : World C)
        → HasLimits parent
        → (run_schedule C K S now parent children w).0 ≢ panicked
    unfolding run_schedule
    run_schedule-ne-panicked parent children w h =
        elim (Result-cases (parse_cron_schedule K parent.spec.schedule)) [
          | inr (e, eq) ↦ rw (eq, run_schedule) (λ p. ground arith)
          | inl (expr, eq) ↦ elim (Bool-cases (should_create K expr parent now)) [
            | inl due ↦ rw (eq, run_schedule, due) (create_child-ne-panicked expr parent children w)
            | inr early ↦ rw (eq, run_schedule, early) (finish-ne-panicked expr parent children w h)
          ]
        ]

    follow_active-ne-panicked :
        (parent : ScheduledComplianceScan) (scan : ComplianceScan) (w : World C)
        → (follow_active C K S now parent scan w).0 ≢ panicked
    unfolding follow_active
    follow_active-ne-panicked parent scan w p = ground arith

    handle_children-ne-panicked :
        (parent : ScheduledComplianceScan) (children : Children) (w : World C)
        → HasLimits parent
        → (handle_children C K S now parent children w).0 ≢ panicked
    unfolding handle_children
    handle_children-ne-panicked parent children w h = elim (Option-cases children.active) [
      | inr (scan, active) ↦ rw (active, handle_children) (follow_active-ne-panicked parent scan w)
      | inl idle ↦ elim (Option-cases (parent.status.active)) [
        | inl unset ↦
            rw (idle, handle_children, unset) (run_schedule-ne-panicked parent children w h)
        | inr (reference, set) ↦
            let sent : ScheduledComplianceScan = without_active C K S now parent in
            let (r, s) = C.patch_scheduled w.state parent sent in
            elim (Result-cases (C.patch_scheduled w.state parent sent).0) [
              | inr (e, eq) ↦ rw (idle, handle_children, set, eq) (λ p. ground arith)
              | inl (parent', eq) ↦
                  rw (idle, handle_children, set, eq)
                    (run_schedule-ne-panicked parent' children
                      (send_patch_scheduled C parent sent w).1
                      (serves.answered w.state parent sent parent' eq))
            ]
      ]
    ]

    -- If the API server serves only parents whose limits are not negative, a reconciliation at a
    -- time whose seconds have at most 19 digits does not panic: neither a child's name nor a
    -- clean-up goes out of range.
    pub reconcile-ne-panicked :
        (name : String) (w : World C) → (reconcile C K S now name w).0 ≢ panicked
    unfolding reconcile
    reconcile-ne-panicked name w = elim (Result-cases (C.get_scheduled w.state name)) [
      | inr (e, eq) ↦ elim (Bool-cases (is_not_found e)) [
        | inl gone ↦ rw (eq, reconcile, gone) (λ p. ground arith)
        | inr broken ↦ rw (eq, reconcile, broken) (λ p. ground arith)
      ]
      | inl (parent, eq) ↦ elim (Result-cases (C.list_scans w.state (child_selector parent))) [
        | inr (e, eq2) ↦ rw (eq, reconcile, eq2) (λ p. ground arith)
        | inl (scans, eq2) ↦
            rw (eq, reconcile, eq2)
              (handle_children-ne-panicked parent (categorize scans no_children) w
                (serves.read w.state name parent eq))
      ]
    ]
