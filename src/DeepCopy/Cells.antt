-- ===== src/DeepCopy/Cells.antt =====
-- The cells of the memory: one constructor for each type that a pointer or a slice leads to.
pub mod Structs
pub mod Objects
pub mod Slices
use diki_operator.Api.Meta.{Time, ObjectReference}
use diki_operator.Api.Report.{OutputConfigMap}
use diki_operator.Api.Scan.{ReportOutputRef, RulesSummary, Rule, Condition}
use diki_operator.Common.{String}
use diki_operator.Common.Int.{ℤ}
use diki_operator.Common.{List}
use diki_operator.DeepCopy.Layout.{
  Foreign, StoredOptionsConfigMapRef, StoredOptions, StoredRulesetOptions, StoredRulesetConfig,
  StoredComplianceScanSpec, StoredOutputStatus, StoredRulesFindings, StoredRulesResults,
  StoredRulesetSummary, StoredComplianceScanStatus, StoredComplianceScan, StoredComplianceScanList,
  StoredOutput, StoredReportOutputSpec, StoredReportOutput, StoredReportOutputList,
  StoredScheduledComplianceScanTemplate, StoredScheduledComplianceScanSpec,
  StoredScheduledComplianceScanStatus, StoredScheduledComplianceScan,
  StoredScheduledComplianceScanList,
}

pub data Cell (F : Foreign) : Type 0 where
  block : F.Block → Cell F
  string_cell : String → Cell F
  int32_cell : ℤ → Cell F
  time_cell : Time → Cell F
  object_reference_cell : ObjectReference → Cell F
  report_output_ref_cell : ReportOutputRef → Cell F
  options_config_map_ref_cell : StoredOptionsConfigMapRef F → Cell F
  options_cell : StoredOptions F → Cell F
  ruleset_options_cell : StoredRulesetOptions F → Cell F
  ruleset_config_cell : StoredRulesetConfig F → Cell F
  compliance_scan_spec_cell : StoredComplianceScanSpec F → Cell F
  output_status_cell : StoredOutputStatus F → Cell F
  rules_summary_cell : RulesSummary → Cell F
  rule_cell : Rule → Cell F
  rules_findings_cell : StoredRulesFindings F → Cell F
  rules_results_cell : StoredRulesResults F → Cell F
  ruleset_summary_cell : StoredRulesetSummary F → Cell F
  condition_cell : Condition → Cell F
  compliance_scan_status_cell : StoredComplianceScanStatus F → Cell F
  compliance_scan_cell : StoredComplianceScan F → Cell F
  compliance_scan_list_cell : StoredComplianceScanList F → Cell F
  output_config_map_cell : OutputConfigMap → Cell F
  output_cell : StoredOutput F → Cell F
  report_output_spec_cell : StoredReportOutputSpec F → Cell F
  report_output_cell : StoredReportOutput F → Cell F
  report_output_list_cell : StoredReportOutputList F → Cell F
  scheduled_compliance_scan_template_cell : StoredScheduledComplianceScanTemplate F → Cell F
  scheduled_compliance_scan_spec_cell : StoredScheduledComplianceScanSpec F → Cell F
  scheduled_compliance_scan_status_cell : StoredScheduledComplianceScanStatus F → Cell F
  scheduled_compliance_scan_cell : StoredScheduledComplianceScan F → Cell F
  scheduled_compliance_scan_list_cell : StoredScheduledComplianceScanList F → Cell F
  ruleset_configs_cell : List (StoredRulesetConfig F) → Cell F
  report_output_refs_cell : List ReportOutputRef → Cell F
  rules_cell : List Rule → Cell F
  conditions_cell : List Condition → Cell F
  ruleset_summaries_cell : List (StoredRulesetSummary F) → Cell F
  output_statuses_cell : List (StoredOutputStatus F) → Cell F
  compliance_scans_cell : List (StoredComplianceScan F) → Cell F
  report_outputs_cell : List (StoredReportOutput F) → Cell F
  scheduled_compliance_scans_cell : List (StoredScheduledComplianceScan F) → Cell F
