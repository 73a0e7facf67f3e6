-- ===== src/DeepCopy/Specs.antt =====
-- `DeepCopyInto` and `DeepCopy` of a ComplianceScan's spec and its parts.
pub mod Laws
use diki_operator.Api.Scan.{ReportOutputRef}
use diki_operator.DeepCopy.Memory.{Pointer, Run, pure, ◌>>=◌, copy_pointer, copy_slice, assign}
use diki_operator.DeepCopy.Layout.{
  Foreign, StoredOptionsConfigMapRef, StoredOptions, StoredRulesetOptions, StoredRulesetConfig,
  StoredComplianceScanSpec,
}
use diki_operator.DeepCopy.Cells.{Cell}
use diki_operator.DeepCopy.Cells.Structs.{
  at_string, at_report_output_ref, at_options_config_map_ref, at_options, at_ruleset_options,
  at_ruleset_config,
}
use diki_operator.DeepCopy.Cells.Objects.{at_compliance_scan_spec}
use diki_operator.DeepCopy.Cells.Slices.{at_ruleset_configs, at_report_output_refs}
use diki_operator.DeepCopy.Machinery.{Machinery}

module _ {F : Foreign} (K : Machinery F) where
  unfoldable pub deep_copy_into_report_output_ref : ReportOutputRef → Run (Cell F) ReportOutputRef
  deep_copy_into_report_output_ref from = assign from

  unfoldable pub deep_copy_report_output_ref : Pointer → Run (Cell F) Pointer
  deep_copy_report_output_ref = copy_pointer at_report_output_ref deep_copy_into_report_output_ref

  unfoldable pub deep_copy_into_options_config_map_ref :
      StoredOptionsConfigMapRef F → Run (Cell F) (StoredOptionsConfigMapRef F)
  deep_copy_into_options_config_map_ref from = do
    key ← copy_pointer at_string assign from.key
    pure (record from { key = key })

  unfoldable pub deep_copy_options_config_map_ref : Pointer → Run (Cell F) Pointer
  deep_copy_options_config_map_ref =
      copy_pointer at_options_config_map_ref deep_copy_into_options_config_map_ref

  unfoldable pub deep_copy_into_options : StoredOptions F → Run (Cell F) (StoredOptions F)
  deep_copy_into_options from = do
    config_map_ref ←
        copy_pointer at_options_config_map_ref deep_copy_into_options_config_map_ref
          from.config_map_ref
    pure (record from { config_map_ref = config_map_ref })

  unfoldable pub deep_copy_options : Pointer → Run (Cell F) Pointer
  deep_copy_options = copy_pointer at_options deep_copy_into_options

  unfoldable pub deep_copy_into_ruleset_options :
      StoredRulesetOptions F → Run (Cell F) (StoredRulesetOptions F)
  deep_copy_into_ruleset_options from = do
    ruleset_options ← copy_pointer at_options deep_copy_into_options from.ruleset_options
    rules ← copy_pointer at_options deep_copy_into_options from.rules
    pure (record from { ruleset_options = ruleset_options; rules = rules })

  unfoldable pub deep_copy_ruleset_options : Pointer → Run (Cell F) Pointer
  deep_copy_ruleset_options = copy_pointer at_ruleset_options deep_copy_into_ruleset_options

  unfoldable pub deep_copy_into_ruleset_config :
      StoredRulesetConfig F → Run (Cell F) (StoredRulesetConfig F)
  deep_copy_into_ruleset_config from = do
    options ← copy_pointer at_ruleset_options deep_copy_into_ruleset_options from.options
    pure (record from { options = options })

  unfoldable pub deep_copy_ruleset_config : Pointer → Run (Cell F) Pointer
  deep_copy_ruleset_config = copy_pointer at_ruleset_config deep_copy_into_ruleset_config

  unfoldable pub deep_copy_into_compliance_scan_spec :
      StoredComplianceScanSpec F → Run (Cell F) (StoredComplianceScanSpec F)
  deep_copy_into_compliance_scan_spec from = do
    rulesets ← copy_slice at_ruleset_configs deep_copy_into_ruleset_config from.rulesets
    outputs ← copy_slice at_report_output_refs assign from.outputs
    pure (record from { rulesets = rulesets; outputs = outputs })

  unfoldable pub deep_copy_compliance_scan_spec : Pointer → Run (Cell F) Pointer
  deep_copy_compliance_scan_spec =
      copy_pointer at_compliance_scan_spec deep_copy_into_compliance_scan_spec
