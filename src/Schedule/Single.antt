-- ===== src/Schedule/Single.antt =====
-- At most one child of a ScheduledComplianceScan is unfinished, whatever the order in which the
-- reconciler (internal/reconciler/scheduledcompliancescan) and others act on the API server.
pub mod Steps
pub mod Calls
pub mod Progress
use native.Mathlib.Nat.{le_trans}
use diki_operator.Common.{
  String, ℕ, zero, suc, ◌≤◌, ◌≡◌, ◌⊎◌, refl, Bool, true, false, not, ◌||◌, List, [], ◌∷◌, arith,
  ◌==◌, length, keep, All, eq_iff,
}
use diki_operator.Common.Errors.{ok}
use diki_operator.Api.Meta.{Labels, ConfigMap}
use diki_operator.Api.Scan.{ComplianceScan, compliance_scan_completed, compliance_scan_failed}
use diki_operator.Api.Scheduled.{ScheduledComplianceScan}
use diki_operator.Cluster.{Client, World, send_delete_scan}
use diki_operator.Schedule.Cleanup.{delete_loop}
use diki_operator.Schedule.Children.Sorted.{IsFinished}

abbrev pub finished : ComplianceScan → Bool
finished scan =
    (scan.status.phase == compliance_scan_completed)
    || (scan.status.phase == compliance_scan_failed)

-- How many scans of a list are neither Completed nor Failed.
abbrev pub unfinished : List ComplianceScan → ℕ
unfinished scans = length (keep (λ scan. not (finished scan)) scans)

pub unfinished-finished :
    (scans : List ComplianceScan) → All IsFinished scans → unfinished scans ≡ 0
unfinished-finished [] all = refl
unfinished-finished (scan ∷ scans) (f, all) = ground (
  arith,
  eq_iff scan.status.phase compliance_scan_completed,
  eq_iff scan.status.phase compliance_scan_failed,
  unfinished-finished scans all,
)

-- Every scan of the list with this name is unfinished.
abbrev pub AllUnfinished : String → List ComplianceScan → Type 0
AllUnfinished name scans = All (λ scan. scan.meta.name ≡ name → finished scan ≡ false) scans

-- What the API server has of the scans with some labels, and what a write does to how many of them
-- are unfinished. A creation adds one at most. A patch of a scan adds none if it makes the scan
-- finished, or if the scan that it meets at the server is unfinished; of a patch from a stale
-- object, which may start a finished scan once more, nothing is said. The other writes add none.
pub record KeepsScans (C : Client) (labels : Labels) : Type 0 where
  pub scans : C.State → List ComplianceScan
  pub created :
      (s : C.State) (scan : ComplianceScan)
      → unfinished (scans (C.create_scan s scan).1) ≤ suc (unfinished (scans s))
  pub deleted :
      (s : C.State) (scan : ComplianceScan)
      → unfinished (scans (C.delete_scan s scan).1) ≤ unfinished (scans s)
  pub patched :
      (s : C.State) (base sent : ScheduledComplianceScan)
      → unfinished (scans (C.patch_scheduled s base sent).1) ≤ unfinished (scans s)
  pub created_config_map :
      (s : C.State) (m : ConfigMap)
      → unfinished (scans (C.create_config_map s m).1) ≤ unfinished (scans s)
  pub patched_scan :
      (s : C.State) (base sent : ComplianceScan)
      → (finished sent ≡ true) ⊎ AllUnfinished base.meta.name (scans s)
      → unfinished (scans (C.patch_scan s base sent).1) ≤ unfinished (scans s)

module _ {C : Client} {labels : Labels} (R : KeepsScans C labels) where
  -- A list that is read in this state is the one that the server has. The client of the manager reads
  -- from a cache, which may be behind.
  abbrev pub ListsCurrent : C.State → Type 0
  ListsCurrent s =
      (found : List ComplianceScan) → C.list_scans s labels ≡ ok found → found ≡ R.scans s

  -- A scan that is read in this state under the name is in the phase that the server has.
  abbrev pub ReadsCurrent : C.State → String → Type 0
  ReadsCurrent s name =
      (found : ComplianceScan)
      → C.get_scan s name ≡ ok found
      → All (λ scan. scan.meta.name ≡ found.meta.name → scan.status.phase ≡ found.status.phase)
          (R.scans s)

  abbrev pub active_count : C.State → ℕ
  active_count s = unfinished (R.scans s)

  pub delete_loop-active_count :
      (n : ℕ) (scans : List ComplianceScan) (w : World C)
      → active_count (delete_loop C n scans w).1.state ≤ active_count w.state
  unfolding delete_loop
  delete_loop-active_count zero scans w = omega arith
  delete_loop-active_count (suc n) [] w = omega arith
  delete_loop-active_count (suc n) (x ∷ scans) w =
      le_trans (delete_loop-active_count n scans (send_delete_scan C x w).1) (R.deleted w.state x)
