-- ===== src/DeepCopy/Outputs.antt =====
-- `DeepCopyInto` and `DeepCopy` of a ReportOutput and its parts.
pub mod Laws
use diki_operator.Api.Report.{OutputConfigMap}
use diki_operator.DeepCopy.Memory.{Pointer, Run, pure, ◌>>=◌, copy_pointer, copy_slice, assign}
use diki_operator.DeepCopy.Layout.{
  Foreign, StoredOutput, StoredReportOutputSpec, StoredReportOutput, StoredReportOutputList,
}
use diki_operator.DeepCopy.Cells.{Cell}
use diki_operator.DeepCopy.Cells.Objects.{
  at_output_config_map, at_output, at_report_output_spec, at_report_output, at_report_output_list,
}
use diki_operator.DeepCopy.Cells.Slices.{at_report_outputs}
use diki_operator.DeepCopy.Machinery.{Machinery}

module _ {F : Foreign} (K : Machinery F) where
  unfoldable pub deep_copy_into_output_config_map : OutputConfigMap → Run (Cell F) OutputConfigMap
  deep_copy_into_output_config_map from = assign from

  unfoldable pub deep_copy_output_config_map : Pointer → Run (Cell F) Pointer
  deep_copy_output_config_map = copy_pointer at_output_config_map deep_copy_into_output_config_map

  unfoldable pub deep_copy_into_output : StoredOutput F → Run (Cell F) (StoredOutput F)
  deep_copy_into_output from = do
    config_map ← copy_pointer at_output_config_map assign from.config_map
    pure (record from { config_map = config_map })

  unfoldable pub deep_copy_output : Pointer → Run (Cell F) Pointer
  deep_copy_output = copy_pointer at_output deep_copy_into_output

  unfoldable pub deep_copy_into_report_output_spec :
      StoredReportOutputSpec F → Run (Cell F) (StoredReportOutputSpec F)
  deep_copy_into_report_output_spec from = do
    output ← deep_copy_into_output from.output
    pure (record from { output = output })

  unfoldable pub deep_copy_report_output_spec : Pointer → Run (Cell F) Pointer
  deep_copy_report_output_spec =
      copy_pointer at_report_output_spec deep_copy_into_report_output_spec

  unfoldable pub deep_copy_into_report_output :
      StoredReportOutput F → Run (Cell F) (StoredReportOutput F)
  deep_copy_into_report_output from = do
    meta ← K.deep_copy_object_meta from.meta
    spec ← deep_copy_into_report_output_spec from.spec
    pure (record from { meta = meta; spec = spec })

  unfoldable pub deep_copy_report_output : Pointer → Run (Cell F) Pointer
  deep_copy_report_output = copy_pointer at_report_output deep_copy_into_report_output

  unfoldable pub deep_copy_into_report_output_list :
      StoredReportOutputList F → Run (Cell F) (StoredReportOutputList F)
  deep_copy_into_report_output_list from = do
    list_meta ← K.deep_copy_list_meta from.list_meta
    items ← copy_slice at_report_outputs deep_copy_into_report_output from.items
    pure (record from { list_meta = list_meta; items = items })

  unfoldable pub deep_copy_report_output_list : Pointer → Run (Cell F) Pointer
  deep_copy_report_output_list =
      copy_pointer at_report_output_list deep_copy_into_report_output_list
