-- ===== src/DeepCopy/Patch/Base.antt =====
-- The base of a patch: the deep copy of a scan reads as the scan was, after the scan's conditions
-- have been updated in place.
use diki_operator.Common.{ℕ, ◌≤◌, ◌≡◌, ◌≢◌, List, none, some, arith, length}
use diki_operator.Api.Scan.{ComplianceScan, Condition}
use diki_operator.Conditions.{ConditionBuilder, update_with}
use diki_operator.DeepCopy.Memory.{Pointer, load}
use diki_operator.DeepCopy.Fresh.{IsFresh}
use diki_operator.DeepCopy.Pointers.{Itself, Elements, PointsTo}
use diki_operator.DeepCopy.Isolation.{load-lt-length}
use diki_operator.DeepCopy.Layout.{Foreign, StoredComplianceScan}
use diki_operator.DeepCopy.Cells.{Cell}
use diki_operator.DeepCopy.Cells.Objects.{at_compliance_scan}
use diki_operator.DeepCopy.Cells.Slices.{at_conditions}
use diki_operator.DeepCopy.Machinery.{Machinery, IsMachinery}
use diki_operator.DeepCopy.Scans.{deep_copy_compliance_scan}
use diki_operator.DeepCopy.Scans.Laws.{
  ComplianceScanReads, deep_copy_into_compliance_scan-IsDeepCopy,
}
use diki_operator.DeepCopy.Roots.{deep_copy_compliance_scan-IsDeepCopy}
use diki_operator.DeepCopy.Patch.{update_in_place}
use diki_operator.DeepCopy.Patch.Laws.{IsUpdated, update_in_place-IsUpdated}

module _ {F : Foreign} {K : Machinery F} (L : IsMachinery K) where
  -- The memory after the base of a patch was taken and the scan's conditions were updated.
  pub record IsBase (cb : ConditionBuilder) (m : List (Cell F)) (p : Pointer)
      (stored : StoredComplianceScan F) (scan : ComplianceScan) : Type 0 where
    pub base : Pointer
    pub copied : List (Cell F)
    pub copy_returns : deep_copy_compliance_scan K p m ≡ some (base, copied)
    pub conditions : Pointer
    pub updated : List (Cell F)
    pub update_returns :
        update_in_place cb stored.status.conditions copied ≡ some (conditions, updated)
    pub old : PointsTo at_compliance_scan (ComplianceScanReads L) updated base (some scan)
    pub new_conditions :
        Elements at_conditions Itself updated conditions (update_with cb scan.status.conditions)

  Elements-below :
      (m : List (Cell F)) (p : Pointer) (cs : List Condition) (q : ℕ)
      → Elements at_conditions Itself m p cs
      → length m ≤ q
      → some q ≢ p
  Elements-below m none cs q r l e = absurd (ground arith)
  Elements-below m (some p) cs q (xs, loads, same) l e =
      ground (arith, load-lt-length at_conditions p xs m loads, e)

  -- If an address holds a stored scan that reads as a scan, then the deep copy for the base of the
  -- patch and the update in place of the stored scan's conditions both return; afterwards the base
  -- reads as the whole scan with its old conditions, and the returned slice as what the loop of
  -- `UpdateConditions` makes of them.
  pub deep_copy_compliance_scan-IsBase :
      (cb : ConditionBuilder) (m : List (Cell F)) (p : ℕ) (stored : StoredComplianceScan F)
      (scan : ComplianceScan)
      → load at_compliance_scan p m ≡ some stored
      → ComplianceScanReads L m stored scan
      → IsBase cb m (some p) stored scan
  deep_copy_compliance_scan-IsBase cb m p stored scan l r = record {
    base = made.value;
    copied = made.after;
    copy_returns = made.returns;
    conditions = done.result;
    updated = done.after;
    update_returns = done.returns;
    old = made.holds done.after (λ q c below e.
        done.kept q c
          (Elements-below m stored.status.conditions scan.status.conditions q r.2.0 below) e);
    new_conditions = done.reads;
  }
    where
      made :
          IsFresh m
            (deep_copy_compliance_scan K (some p))
            (λ later q. PointsTo at_compliance_scan (ComplianceScanReads L) later q (some scan))
      made = (deep_copy_compliance_scan-IsDeepCopy L).copies m (some p) (some scan) (stored, l, r)

      there : ComplianceScanReads L made.after stored scan
      there =
          (deep_copy_into_compliance_scan-IsDeepCopy L).stable m made.after stored scan made.kept r

      done :
          IsUpdated made.after stored.status.conditions
            (update_in_place cb stored.status.conditions)
            (update_with cb scan.status.conditions)
      done =
          update_in_place-IsUpdated cb made.after stored.status.conditions scan.status.conditions
            there.2.0
