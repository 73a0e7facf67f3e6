-- ===== src/Schedule/Reconcile/Follow.antt =====
-- What a reconciliation of a ScheduledComplianceScan does while a child is unfinished.
use mathlib.Core.List.{Memᴰ}
use diki_operator.Common.{
  ◌*◌, String, ◌≡◌, refl, ◌≢◌, ◌↔◌, ◌⊎◌, inl, inr, Bool, true, none, some, List, [], ◌∷◌, ◌++◌,
  arith, Option-cases,
}
use diki_operator.Common.Errors.{ok}
use diki_operator.Api.Meta.{Time}
use diki_operator.Api.Scan.{ComplianceScan}
use diki_operator.Api.Scheduled.{ScheduledComplianceScan}
use diki_operator.Cluster.{Client, World, Write, acknowledged}
use diki_operator.Schedule.Cleanup.{SortFunc}
use diki_operator.Schedule.Children.{no_children, child_selector, with_active, set_active_scan}
use diki_operator.Schedule.Children.Sorted.{IsUnfinished, categorize_unfinished, categorize-active}
use diki_operator.Schedule.Reconcile.{
  Cron, Outcome, requeue_after, follow_active, handle_children, reconcile,
}

module _ {C : Client} (parent : ScheduledComplianceScan) (scans : List ComplianceScan)
    (w : World C) where
  -- One write was sent: the status of the parent now refers to an unfinished child of the list, with
  -- the child's creation time as the schedule time, and the rest of the parent is as it was. The next
  -- run is a minute away if the write was acknowledged, and only then.
  pub record Repaired (r : Outcome × World C) : Type 0 where
    pub chosen : ComplianceScan
    pub member : Memᴰ chosen scans
    pub unfinished : IsUnfinished chosen
    pub sent : ScheduledComplianceScan
    pub acked : Bool
    pub meta_kept : sent.meta ≡ parent.meta
    pub spec_kept : sent.spec ≡ parent.spec
    pub completion_kept : sent.status.last_completion_time ≡ parent.status.last_completion_time
    pub refers :
        sent.status.active
        ≡ some (record {
          api_version = "diki.gardener.cloud/v1alpha1";
          kind = "ComplianceScan";
          name = chosen.meta.name;
          uid = chosen.meta.uid;
        })
    pub scheduled : sent.status.last_schedule_time ≡ some chosen.meta.creation_timestamp
    pub written : r.1.writes ≡ w.writes ++ ((Write.patch_scheduled sent, acked) ∷ [])
    pub waits : (r.0 ≡ requeue_after (60 * 1000000000)) ↔ (acked ≡ true)

module _ (C : Client) (K : Cron) (S : SortFunc) (now : Time) where
  follow_active-Repaired :
      (parent : ScheduledComplianceScan) (scans : List ComplianceScan) (scan : ComplianceScan)
      (w : World C)
      → Memᴰ scan scans
      → IsUnfinished scan
      → parent.status.active ≡ none
      → Repaired parent scans w (follow_active C K S now parent scan w)
  unfolding follow_active set_active_scan with_active
  follow_active-Repaired parent scans scan w member unfinished unset =
      let sent : ScheduledComplianceScan = with_active scan scan.meta.creation_timestamp parent in
      rw (unset, follow_active)
        (record {
          chosen = scan;
          member = member;
          unfinished = unfinished;
          sent = sent;
          acked = acknowledged (C.patch_scheduled w.state parent sent).0;
          meta_kept = refl;
          spec_kept = refl;
          completion_kept = refl;
          refers = refl;
          scheduled = refl;
          written = ground arith;
          waits = ground arith;
        })

  -- While a listed child is neither Completed nor Failed, a reconciliation writes nothing and comes
  -- back after a minute if the parent refers to a child. If it refers to none, the one write is the
  -- parent's status, which then refers by name and UID to an unfinished child of the list, with the
  -- creation time of that child as the schedule time and all else as before, and the next run is a
  -- minute away exactly if that write was acknowledged.
  pub reconcile_follows :
      (name : String) (w : World C) {parent : ScheduledComplianceScan} {scans : List ComplianceScan}
      (scan : ComplianceScan)
      → C.get_scheduled w.state name ≡ ok parent
      → C.list_scans w.state (child_selector parent) ≡ ok scans
      → Memᴰ scan scans
      → IsUnfinished scan
      → ((parent.status.active ≢ none)
          × ((reconcile C K S now name w).1.writes ≡ w.writes)
          × ((reconcile C K S now name w).0 ≡ requeue_after (60 * 1000000000)))
        ⊎ ((parent.status.active ≡ none) × Repaired parent scans w (reconcile C K S now name w))
  unfolding reconcile handle_children follow_active
  reconcile_follows name w {parent} {scans} scan read listed member unfinished =
      let (active, eq) = categorize_unfinished scans no_children scan member unfinished in
      elim (categorize-active scans no_children active eq) [
        | inl before ↦ absurd (ground (arith, before))
        | inr (listed_active, open_phase) ↦ elim (Option-cases parent.status.active) [
          | inr (reference, set) ↦ inl (
            (λ p. ground (arith, p, set)),
            rw (read, reconcile, listed, eq, handle_children, set, follow_active) refl,
            rw (read, reconcile, listed, eq, handle_children, set, follow_active) refl,
          )
          | inl unset ↦ inr (
            unset,
            rw (read, reconcile, listed, eq, handle_children)
                (follow_active-Repaired parent scans active w listed_active open_phase unset),
          )
        ]
      ]
