-- ===== src/Schedule/Single/Steps.antt =====
-- The two reconcilers and the rest of the world as steps on the API server, in any order.
use diki_operator.Common.{String, ◌≤◌, ◌≡◌, sym}
use mathlib.Core.Path.{subst}
use native.Mathlib.Nat.{le_trans}
use diki_operator.Common.Errors.{ok}
use diki_operator.Api.Meta.{Time, Labels}
use diki_operator.Api.Scheduled.{ScheduledComplianceScan}
use diki_operator.Api.Config.{ComplianceScanConfig}
use diki_operator.Cluster.{Client, World}
use diki_operator.Scan.DikiConfig.{Diki}
use diki_operator.Scan.Reconcile.{ClockReadings, reconcile as reconcile_scan}
use diki_operator.Schedule.Cleanup.{SortFunc}
use diki_operator.Schedule.Children.{child_selector}
use diki_operator.Schedule.Reconcile.{Cron, reconcile}
use diki_operator.Schedule.Single.{KeepsScans, ListsCurrent, ReadsCurrent, active_count}
use diki_operator.Schedule.Single.Calls.{reconcile-active_count}
use diki_operator.Schedule.Single.Progress.{reconcile-active_count_le}

module _ {C : Client} {labels : Labels} (R : KeepsScans C labels) (K : Cron) (S : SortFunc)
    (D : Diki) where
  pub data Step (s t : C.State) : Type 0 where
    -- The parent whose children have the labels is reconciled, at any time.
    schedule :
        (now : Time) (name : String) (w : World C)
        → w.state ≡ s
        → ((parent : ScheduledComplianceScan)
            → C.get_scheduled s name ≡ ok parent
            → child_selector parent ≡ labels)
        → (reconcile C K S now name w).1.state ≡ t
        → Step s t
    -- Any scan is reconciled.
    scan :
        (config : ComplianceScanConfig) (times : ClockReadings) (name : String) (w : World C)
        → w.state ≡ s
        → (reconcile_scan C D config times name w).1.state ≡ t
        → Step s t
    -- Somebody else, as the report exporter or a user, finishes or deletes scans with the labels, or
    -- acts on other objects.
    others : active_count R t ≤ active_count R s → Step s t

  pub data Reach (s : C.State) : C.State → Type 0 where
    here : Reach s s
    next : {t u : C.State} → Reach s t → Step t u → Reach s u

  -- What the reconciliation of a step reads is what the server has at its start.
  unfoldable pub IsCurrent : {s t : C.State} → Step s t → Type 0
  IsCurrent {s} (schedule now name w e owned ends) = ListsCurrent R s
  IsCurrent {s} (scan config times name w e ends) = ReadsCurrent R s name
  IsCurrent (others fewer) = Unit {0}

  -- So it is in every step.
  unfoldable pub AllCurrent : {s t : C.State} → Reach s t → Type 0
  unfolding IsCurrent
  AllCurrent here = Unit {0}
  AllCurrent (next r st) = AllCurrent r × IsCurrent st

  Step-active_count :
      {s t : C.State} (st : Step s t) → IsCurrent st → active_count R s ≤ 1 → active_count R t ≤ 1
  unfolding IsCurrent
  Step-active_count (schedule now name w e owned ends) current h =
      subst (λ u. active_count R u ≤ 1) ends
        (reconcile-active_count R K S now name w
          (λ parent read. owned parent (subst (λ u. C.get_scheduled u name ≡ ok parent) e read))
          (subst (λ u. ListsCurrent R u) (sym e) current) (rw e h))
  Step-active_count (scan config times name w e ends) current h =
      subst (λ u. active_count R u ≤ 1) ends
        (le_trans
          (reconcile-active_count_le R D config times name w
            (subst (λ u. ReadsCurrent R u name) (sym e) current))
          (rw e h))
  Step-active_count (others fewer) current h = le_trans fewer h

  -- From a state where at most one scan with the labels of a parent is unfinished, reconciliations of
  -- the parent and of scans, and acts of others that make no more of these scans unfinished, lead,
  -- in any order and with any failures of the API server, only to states with at most one unfinished
  -- scan with these labels. The conditions: each reconciliation reads the list, or the phase of its
  -- scan, as the server has it then, which the manager's cached client does not promise; and a
  -- creation adds one unfinished scan at most, a patch of a scan adds one only if it sets an
  -- unfinished phase and meets a finished scan, and the other writes add none.
  pub Reach-active_count :
      {s t : C.State}
      → active_count R s ≤ 1
      → (reached : Reach s t) → AllCurrent reached
      → active_count R t ≤ 1
  unfolding AllCurrent
  Reach-active_count h here current = h
  Reach-active_count h (next r st) (before, current) =
      Step-active_count st current (Reach-active_count h r before)
