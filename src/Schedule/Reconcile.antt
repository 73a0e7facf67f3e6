-- ===== src/Schedule/Reconcile.antt =====
-- `Reconcile` of a ScheduledComplianceScan (reconciler.go) and the cron parser with its recovery
-- (utils.go). The cron library is a parameter; a duration is a number of nanoseconds.
pub mod Creations
pub mod Due
pub mod Active
pub mod Follow
pub mod Idle
use diki_operator.Common.{
  ℕ, ◌-◌, ◌*◌, ◌^◌, String, ◌<>◌, Bool, true, false, not, Option, none, some,
}
use diki_operator.Common.{if◌then◌else◌, ltb}
use diki_operator.Common.Int.{ℤ, pos}
use diki_operator.Common.Errors.{Error, plain, wrapped, is_not_found, Result, ok, err}
use diki_operator.Api.Meta.{Time}
use diki_operator.Api.Scan.{ComplianceScan}
use diki_operator.Api.Scheduled.{ScheduledComplianceScan}
use diki_operator.Cluster.{Client, World, send_patch_scheduled}
use diki_operator.Schedule.Cleanup.{SortFunc, cleanup_old_scans}
use diki_operator.Schedule.Children.{
  Children, no_children, child_selector, categorize, set_active_scan, deploy_compliance_scan,
}

-- What `cron.ParseStandard` does on a text: it returns, with an error or not, or it panics.
pub data Parse (A : Type 0) : Type 0 where
  returns : Result A → Parse A
  panics : String → Parse A

-- `github.com/robfig/cron/v3`; `next` gives the zero time where a schedule has no next time.
pub record Cron : Type 1 where
  pub Schedule : Type 0
  pub parse_standard : String → Parse Schedule
  pub next : Schedule → Time → Time

-- How a call ends: with the delay of the next one (0 for none), with an error, or with a panic.
pub data Outcome : Type 0 where
  requeue_after : ℕ → Outcome
  failed : Error → Outcome
  panicked : Outcome

abbrev pub no_requeue : Outcome
no_requeue = requeue_after 0

abbrev pub minute : ℕ
minute = 60 * 1000000000

-- `time.Time.Sub` stops at the largest duration.
abbrev pub max_duration : ℕ
max_duration = 2 ^ 63 - 1

-- `max(a.Sub(b), 0)`
abbrev pub sub_or_zero : Time → Time → ℕ
sub_or_zero a b = if ltb max_duration (a - b) then max_duration else a - b

-- `ptr.Deref(limit, 0)`
abbrev pub limit_or_zero : Option ℤ → ℤ
limit_or_zero none = pos 0
limit_or_zero (some limit) = limit

module _ (K : Cron) where
  unfoldable pub parse_cron_schedule : String → Result K.Schedule
  parse_cron_schedule schedule = elim (K.parse_standard schedule) [
    | returns r ↦ r
    | panics text ↦ err (plain ("invalid schedule format: " <> text))
  ]

  -- The decision to create a child: there was none yet, or now is not before the next time.
  unfoldable pub should_create : K.Schedule → ScheduledComplianceScan → Time → Bool
  should_create expr parent now = elim (parent.status.last_schedule_time) [
    | none ↦ true
    | some last ↦ not (ltb now (K.next expr last))
  ]

module _ (C : Client) (K : Cron) (S : SortFunc) (now : Time) where
  -- The clean-ups, and the delay until the next run.
  unfoldable pub finish :
      K.Schedule → ScheduledComplianceScan → Children → World C → Outcome × World C
  finish expr parent children w =
      let limit : ℤ = limit_or_zero parent.spec.successful_scans_history_limit in
      let failed_limit : ℤ = limit_or_zero parent.spec.failed_scans_history_limit in
      let (done, w1) = cleanup_old_scans C S children.successful limit w in
      elim done [
        | false ↦ (panicked, w1)
        | true ↦
            let (done', w2) = cleanup_old_scans C S children.failed failed_limit w1 in
            elim done' [
              | false ↦ (panicked, w2)
              | true ↦
                  let reference_time : Time = elim (parent.status.last_schedule_time) [
                    | none ↦ now
                    | some last ↦ last
                  ] in
                  (requeue_after (sub_or_zero (K.next expr reference_time) now), w2)
            ]
      ]

  -- The creation of a child and the reference to it.
  unfoldable pub create_child :
      K.Schedule → ScheduledComplianceScan → Children → World C → Outcome × World C
  create_child expr parent children w = elim (deploy_compliance_scan C parent now w) [
    | none ↦ (panicked, w)
    | some (r, w1) ↦ elim r [
      | err e ↦ (failed e, w1)
      | ok child ↦
          let (r', w2) = set_active_scan C parent child now w1 in
          elim r' [ err e ↦ (failed e, w2) | ok parent' ↦ finish expr parent' children w2 ]
    ]
  ]

  -- With no active child.
  unfoldable pub run_schedule : ScheduledComplianceScan → Children → World C → Outcome × World C
  run_schedule parent children w = elim (parse_cron_schedule K parent.spec.schedule) [
    | err e ↦ (no_requeue, w)
    | ok expr ↦
        if should_create K expr parent now
        then create_child expr parent children w
        else finish expr parent children w
  ]

  -- With an active child: the reference to it is repaired if it is missing.
  unfoldable pub follow_active :
      ScheduledComplianceScan → ComplianceScan → World C → Outcome × World C
  follow_active parent scan w = elim (parent.status.active) [
    | some reference ↦ (requeue_after minute, w)
    | none ↦
        let (r, w1) = set_active_scan C parent scan scan.meta.creation_timestamp w in
        elim r [ err e ↦ (failed e, w1) | ok parent' ↦ (requeue_after minute, w1) ]
  ]

  unfoldable pub without_active : ScheduledComplianceScan → ScheduledComplianceScan
  without_active parent = record parent {
    status = record (parent.status) { active = none; last_completion_time = some now };
  }

  -- From the detection of a finished child on.
  unfoldable pub handle_children : ScheduledComplianceScan → Children → World C → Outcome × World C
  handle_children parent children w = elim (children.active) [
    | some scan ↦ follow_active parent scan w
    | none ↦ elim (parent.status.active) [
      | none ↦ run_schedule parent children w
      | some reference ↦
          let (r, w1) = send_patch_scheduled C parent (without_active parent) w in
          elim r [
            | err e ↦ (failed (wrapped "failed to update ScheduledComplianceScan status" e), w1)
            | ok parent' ↦ run_schedule parent' children w1
          ]
    ]
  ]

  unfoldable pub reconcile : String → World C → Outcome × World C
  reconcile name w = elim (C.get_scheduled w.state name) [
    | err e ↦
        if is_not_found e
        then (no_requeue, w)
        else (failed (wrapped "error retrieving ScheduledComplianceScan" e), w)
    | ok parent ↦ elim (C.list_scans w.state (child_selector parent)) [
      | err e ↦ (failed (wrapped "error listing child ComplianceScans" e), w)
      | ok scans ↦ handle_children parent (categorize scans no_children) w
    ]
  ]
