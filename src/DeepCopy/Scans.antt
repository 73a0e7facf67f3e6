-- ===== src/DeepCopy/Scans.antt =====
-- `DeepCopyInto` and `DeepCopy` of a ComplianceScan and a list of them.
pub mod Laws
use diki_operator.DeepCopy.Memory.{Pointer, Run, pure, ◌>>=◌, copy_pointer, copy_slice}
use diki_operator.DeepCopy.Layout.{Foreign, StoredComplianceScan, StoredComplianceScanList}
use diki_operator.DeepCopy.Cells.{Cell}
use diki_operator.DeepCopy.Cells.Objects.{at_compliance_scan, at_compliance_scan_list}
use diki_operator.DeepCopy.Cells.Slices.{at_compliance_scans}
use diki_operator.DeepCopy.Machinery.{Machinery}
use diki_operator.DeepCopy.Specs.{deep_copy_into_compliance_scan_spec}
use diki_operator.DeepCopy.Statuses.{deep_copy_into_compliance_scan_status}

module _ {F : Foreign} (K : Machinery F) where
  unfoldable pub deep_copy_into_compliance_scan :
      StoredComplianceScan F → Run (Cell F) (StoredComplianceScan F)
  deep_copy_into_compliance_scan from = do
    meta ← K.deep_copy_object_meta from.meta
    spec ← deep_copy_into_compliance_scan_spec K from.spec
    status ← deep_copy_into_compliance_scan_status K from.status
    pure (record from { meta = meta; spec = spec; status = status })

  unfoldable pub deep_copy_compliance_scan : Pointer → Run (Cell F) Pointer
  deep_copy_compliance_scan = copy_pointer at_compliance_scan deep_copy_into_compliance_scan

  unfoldable pub deep_copy_into_compliance_scan_list :
      StoredComplianceScanList F → Run (Cell F) (StoredComplianceScanList F)
  deep_copy_into_compliance_scan_list from = do
    list_meta ← K.deep_copy_list_meta from.list_meta
    items ← copy_slice at_compliance_scans deep_copy_into_compliance_scan from.items
    pure (record from { list_meta = list_meta; items = items })

  unfoldable pub deep_copy_compliance_scan_list : Pointer → Run (Cell F) Pointer
  deep_copy_compliance_scan_list =
      copy_pointer at_compliance_scan_list deep_copy_into_compliance_scan_list
