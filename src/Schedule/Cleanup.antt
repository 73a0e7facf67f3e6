-- ===== src/Schedule/Cleanup.antt =====
-- `sortByCreationTimestamp` and `cleanupOldScans` (utils.go). `slices.SortFunc` may order equal
-- elements as it likes, so the sort is a parameter with its two documented laws.
pub mod Insertion
pub mod Kept
use mathlib.Core.List.{Perm}
use diki_operator.Common.{ℕ, zero, suc, ◌+◌, ◌-◌, ◌≤◌, Bool, List, [], ◌∷◌, All, length}
use diki_operator.Common.Int.{ℤ, pos, negsuc}
use diki_operator.Api.Scan.{ComplianceScan}
use diki_operator.Cluster.{Client, World, send_delete_scan}

-- `a.CreationTimestamp.Compare(b.CreationTimestamp.Time) <= 0`
abbrev pub NotAfter : ComplianceScan → ComplianceScan → Type 0
NotAfter a b = a.meta.creation_timestamp ≤ b.meta.creation_timestamp

-- Every scan was created no later than those behind it.
abbrev pub IsSorted : List ComplianceScan → Type 0
IsSorted [] = Unit {0}
IsSorted (x ∷ xs) = All (NotAfter x) xs × IsSorted xs

-- A sort by creation time.
pub record SortFunc : Type 0 where
  pub sort : List ComplianceScan → List ComplianceScan
  pub sort-perm : (scans : List ComplianceScan) → Perm (sort scans) scans
  pub sort-IsSorted : (scans : List ComplianceScan) → IsSorted (sort scans)

-- The rounds of `for i := 0; i < len(scans) - limit; i++`.
abbrev pub excess : ℕ → ℤ → ℕ
excess len (pos limit) = len - limit
excess len (negsuc limit) = len + suc limit

module _ (C : Client) where
  -- The loop. `false` is the panic of an index out of range. An error of a deletion is only logged,
  -- whether it is "not found" or another one.
  unfoldable pub delete_loop : ℕ → List ComplianceScan → World C → Bool × World C
  delete_loop zero scans w = (Bool.true, w)
  delete_loop (suc n) [] w = (Bool.false, w)
  delete_loop (suc n) (x ∷ scans) w = delete_loop n scans (send_delete_scan C x w).1

  unfoldable pub cleanup_old_scans : SortFunc → List ComplianceScan → ℤ → World C → Bool × World C
  cleanup_old_scans S scans limit w = delete_loop (excess (length scans) limit) (S.sort scans) w
