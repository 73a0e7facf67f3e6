-- ===== src/DeepCopy/Schedules.antt =====
-- `DeepCopyInto` and `DeepCopy` of a ScheduledComplianceScan and its parts.
pub mod Laws
use diki_operator.DeepCopy.Memory.{Pointer, Run, pure, ◌>>=◌, copy_pointer, copy_slice, assign}
use diki_operator.DeepCopy.Layout.{
  Foreign, StoredScheduledComplianceScanTemplate, StoredScheduledComplianceScanSpec,
  StoredScheduledComplianceScanStatus, StoredScheduledComplianceScan,
  StoredScheduledComplianceScanList,
}
use diki_operator.DeepCopy.Cells.{Cell}
use diki_operator.DeepCopy.Cells.Structs.{at_int32, at_time, at_object_reference}
use diki_operator.DeepCopy.Cells.Objects.{
  at_scheduled_compliance_scan_template, at_scheduled_compliance_scan_spec,
  at_scheduled_compliance_scan_status, at_scheduled_compliance_scan,
  at_scheduled_compliance_scan_list,
}
use diki_operator.DeepCopy.Cells.Slices.{at_scheduled_compliance_scans}
use diki_operator.DeepCopy.Machinery.{Machinery}
use diki_operator.DeepCopy.Specs.{deep_copy_into_compliance_scan_spec}

module _ {F : Foreign} (K : Machinery F) where
  unfoldable pub deep_copy_into_scheduled_compliance_scan_template :
      StoredScheduledComplianceScanTemplate F
      → Run (Cell F) (StoredScheduledComplianceScanTemplate F)
  deep_copy_into_scheduled_compliance_scan_template from = do
    spec ← deep_copy_into_compliance_scan_spec K from.spec
    pure (record from { spec = spec })

  unfoldable pub deep_copy_scheduled_compliance_scan_template : Pointer → Run (Cell F) Pointer
  deep_copy_scheduled_compliance_scan_template =
      copy_pointer at_scheduled_compliance_scan_template
        deep_copy_into_scheduled_compliance_scan_template

  unfoldable pub deep_copy_into_scheduled_compliance_scan_spec :
      StoredScheduledComplianceScanSpec F → Run (Cell F) (StoredScheduledComplianceScanSpec F)
  deep_copy_into_scheduled_compliance_scan_spec from = do
    successful_scans_history_limit ←
        copy_pointer at_int32 assign from.successful_scans_history_limit
    failed_scans_history_limit ← copy_pointer at_int32 assign from.failed_scans_history_limit
    scan_template ← deep_copy_into_scheduled_compliance_scan_template from.scan_template
    pure (record from {
      successful_scans_history_limit = successful_scans_history_limit;
      failed_scans_history_limit = failed_scans_history_limit;
      scan_template = scan_template;
    })

  unfoldable pub deep_copy_scheduled_compliance_scan_spec : Pointer → Run (Cell F) Pointer
  deep_copy_scheduled_compliance_scan_spec =
      copy_pointer at_scheduled_compliance_scan_spec deep_copy_into_scheduled_compliance_scan_spec

  unfoldable pub deep_copy_into_scheduled_compliance_scan_status :
      StoredScheduledComplianceScanStatus F → Run (Cell F) (StoredScheduledComplianceScanStatus F)
  deep_copy_into_scheduled_compliance_scan_status from = do
    active ← copy_pointer at_object_reference assign from.active
    last_schedule_time ← copy_pointer at_time K.deep_copy_time from.last_schedule_time
    last_completion_time ← copy_pointer at_time K.deep_copy_time from.last_completion_time
    pure (record from {
      active = active;
      last_schedule_time = last_schedule_time;
      last_completion_time = last_completion_time;
    })

  unfoldable pub deep_copy_scheduled_compliance_scan_status : Pointer → Run (Cell F) Pointer
  deep_copy_scheduled_compliance_scan_status =
      copy_pointer at_scheduled_compliance_scan_status
        deep_copy_into_scheduled_compliance_scan_status

  unfoldable pub deep_copy_into_scheduled_compliance_scan :
      StoredScheduledComplianceScan F → Run (Cell F) (StoredScheduledComplianceScan F)
  deep_copy_into_scheduled_compliance_scan from = do
    meta ← K.deep_copy_object_meta from.meta
    spec ← deep_copy_into_scheduled_compliance_scan_spec from.spec
    status ← deep_copy_into_scheduled_compliance_scan_status from.status
    pure (record from { meta = meta; spec = spec; status = status })

  unfoldable pub deep_copy_scheduled_compliance_scan : Pointer → Run (Cell F) Pointer
  deep_copy_scheduled_compliance_scan =
      copy_pointer at_scheduled_compliance_scan deep_copy_into_scheduled_compliance_scan

  unfoldable pub deep_copy_into_scheduled_compliance_scan_list :
      StoredScheduledComplianceScanList F → Run (Cell F) (StoredScheduledComplianceScanList F)
  deep_copy_into_scheduled_compliance_scan_list from = do
    list_meta ← K.deep_copy_list_meta from.list_meta
    items ←
        copy_slice at_scheduled_compliance_scans deep_copy_into_scheduled_compliance_scan from.items
    pure (record from { list_meta = list_meta; items = items })

  unfoldable pub deep_copy_scheduled_compliance_scan_list : Pointer → Run (Cell F) Pointer
  deep_copy_scheduled_compliance_scan_list =
      copy_pointer at_scheduled_compliance_scan_list deep_copy_into_scheduled_compliance_scan_list
