-- ===== src/Internal/Convert/Internal.antt =====
-- An internal resource comes back from v1alpha1 as it was.
pub mod Scheduled
use diki_operator.Common.{◌≡◌, refl}
use diki_operator.Internal.Scan.{
  DikiReportOutputRef, DikiOptionsConfigMapRef, DikiOptions, DikiRulesetOptions, DikiRulesetConfig,
  DikiComplianceScanSpec, DikiOutputStatus, DikiRulesSummary, DikiRule, DikiRulesFindings,
  DikiRulesResults, DikiRulesetSummary, DikiCondition, DikiComplianceScanStatus, DikiComplianceScan,
}
use diki_operator.Internal.Convert.ToDiki.{
  convert_report_output_ref_to_diki, convert_options_config_map_ref_to_diki,
  convert_options_to_diki, convert_ruleset_options_to_diki, convert_ruleset_config_to_diki,
  convert_compliance_scan_spec_to_diki, convert_output_status_to_diki,
  convert_rules_summary_to_diki, convert_rule_to_diki, convert_rules_findings_to_diki,
  convert_rules_results_to_diki, convert_ruleset_summary_to_diki, convert_condition_to_diki,
  convert_compliance_scan_status_to_diki, convert_compliance_scan_to_diki,
}
use diki_operator.Internal.Convert.ToV1alpha1.{
  convert_report_output_ref_to_v1alpha1, convert_options_config_map_ref_to_v1alpha1,
  convert_options_to_v1alpha1, convert_ruleset_options_to_v1alpha1,
  convert_ruleset_config_to_v1alpha1, convert_compliance_scan_spec_to_v1alpha1,
  convert_output_status_to_v1alpha1, convert_rules_summary_to_v1alpha1, convert_rule_to_v1alpha1,
  convert_rules_findings_to_v1alpha1, convert_rules_results_to_v1alpha1,
  convert_ruleset_summary_to_v1alpha1, convert_condition_to_v1alpha1,
  convert_compliance_scan_status_to_v1alpha1, convert_compliance_scan_to_v1alpha1,
}
use diki_operator.Internal.Convert.Maps.{map-map_id, option_map-option_map_id}

pub convert_report_output_ref_to_diki-convert_report_output_ref_to_v1alpha1 :
    (x : DikiReportOutputRef)
    → convert_report_output_ref_to_diki (convert_report_output_ref_to_v1alpha1 x) ≡ x
unfolding convert_report_output_ref_to_diki convert_report_output_ref_to_v1alpha1
convert_report_output_ref_to_diki-convert_report_output_ref_to_v1alpha1 x = refl

pub convert_options_config_map_ref_to_diki-convert_options_config_map_ref_to_v1alpha1 :
    (x : DikiOptionsConfigMapRef)
    → convert_options_config_map_ref_to_diki (convert_options_config_map_ref_to_v1alpha1 x) ≡ x
unfolding convert_options_config_map_ref_to_diki convert_options_config_map_ref_to_v1alpha1
convert_options_config_map_ref_to_diki-convert_options_config_map_ref_to_v1alpha1 x = refl

pub convert_options_to_diki-convert_options_to_v1alpha1 :
    (x : DikiOptions) → convert_options_to_diki (convert_options_to_v1alpha1 x) ≡ x
unfolding convert_options_to_diki convert_options_to_v1alpha1
convert_options_to_diki-convert_options_to_v1alpha1 x = λ i. record {
  config_map_ref =
      option_map-option_map_id convert_options_config_map_ref_to_diki
        convert_options_config_map_ref_to_v1alpha1
        convert_options_config_map_ref_to_diki-convert_options_config_map_ref_to_v1alpha1
        x.config_map_ref i;
}

pub convert_ruleset_options_to_diki-convert_ruleset_options_to_v1alpha1 :
    (x : DikiRulesetOptions)
    → convert_ruleset_options_to_diki (convert_ruleset_options_to_v1alpha1 x) ≡ x
unfolding convert_ruleset_options_to_diki convert_ruleset_options_to_v1alpha1
convert_ruleset_options_to_diki-convert_ruleset_options_to_v1alpha1 x = λ i. record {
  ruleset_options =
      option_map-option_map_id convert_options_to_diki convert_options_to_v1alpha1
        convert_options_to_diki-convert_options_to_v1alpha1 x.ruleset_options i;
  rules =
      option_map-option_map_id convert_options_to_diki convert_options_to_v1alpha1
        convert_options_to_diki-convert_options_to_v1alpha1 x.rules i;
}

pub convert_ruleset_config_to_diki-convert_ruleset_config_to_v1alpha1 :
    (x : DikiRulesetConfig)
    → convert_ruleset_config_to_diki (convert_ruleset_config_to_v1alpha1 x) ≡ x
unfolding convert_ruleset_config_to_diki convert_ruleset_config_to_v1alpha1
convert_ruleset_config_to_diki-convert_ruleset_config_to_v1alpha1 x = λ i. record {
  id = x.id;
  version = x.version;
  options =
      option_map-option_map_id convert_ruleset_options_to_diki convert_ruleset_options_to_v1alpha1
        convert_ruleset_options_to_diki-convert_ruleset_options_to_v1alpha1 x.options i;
}

pub convert_compliance_scan_spec_to_diki-convert_compliance_scan_spec_to_v1alpha1 :
    (x : DikiComplianceScanSpec)
    → convert_compliance_scan_spec_to_diki (convert_compliance_scan_spec_to_v1alpha1 x) ≡ x
unfolding convert_compliance_scan_spec_to_diki convert_compliance_scan_spec_to_v1alpha1
convert_compliance_scan_spec_to_diki-convert_compliance_scan_spec_to_v1alpha1 x = λ i. record {
  rulesets =
      map-map_id convert_ruleset_config_to_diki convert_ruleset_config_to_v1alpha1
        convert_ruleset_config_to_diki-convert_ruleset_config_to_v1alpha1 x.rulesets i;
  outputs =
      map-map_id convert_report_output_ref_to_diki convert_report_output_ref_to_v1alpha1
        convert_report_output_ref_to_diki-convert_report_output_ref_to_v1alpha1 x.outputs i;
}

pub convert_output_status_to_diki-convert_output_status_to_v1alpha1 :
    (x : DikiOutputStatus) → convert_output_status_to_diki (convert_output_status_to_v1alpha1 x) ≡ x
unfolding convert_output_status_to_diki convert_output_status_to_v1alpha1
convert_output_status_to_diki-convert_output_status_to_v1alpha1 x = refl

pub convert_rules_summary_to_diki-convert_rules_summary_to_v1alpha1 :
    (x : DikiRulesSummary) → convert_rules_summary_to_diki (convert_rules_summary_to_v1alpha1 x) ≡ x
unfolding convert_rules_summary_to_diki convert_rules_summary_to_v1alpha1
convert_rules_summary_to_diki-convert_rules_summary_to_v1alpha1 x = refl

pub convert_rule_to_diki-convert_rule_to_v1alpha1 :
    (x : DikiRule) → convert_rule_to_diki (convert_rule_to_v1alpha1 x) ≡ x
unfolding convert_rule_to_diki convert_rule_to_v1alpha1
convert_rule_to_diki-convert_rule_to_v1alpha1 x = refl

pub convert_rules_findings_to_diki-convert_rules_findings_to_v1alpha1 :
    (x : DikiRulesFindings)
    → convert_rules_findings_to_diki (convert_rules_findings_to_v1alpha1 x) ≡ x
unfolding convert_rules_findings_to_diki convert_rules_findings_to_v1alpha1
convert_rules_findings_to_diki-convert_rules_findings_to_v1alpha1 x = λ i. record {
  failed =
      map-map_id convert_rule_to_diki convert_rule_to_v1alpha1
        convert_rule_to_diki-convert_rule_to_v1alpha1 x.failed i;
  errored =
      map-map_id convert_rule_to_diki convert_rule_to_v1alpha1
        convert_rule_to_diki-convert_rule_to_v1alpha1 x.errored i;
  warning =
      map-map_id convert_rule_to_diki convert_rule_to_v1alpha1
        convert_rule_to_diki-convert_rule_to_v1alpha1 x.warning i;
}

pub convert_rules_results_to_diki-convert_rules_results_to_v1alpha1 :
    (x : DikiRulesResults) → convert_rules_results_to_diki (convert_rules_results_to_v1alpha1 x) ≡ x
unfolding convert_rules_results_to_diki convert_rules_results_to_v1alpha1
convert_rules_results_to_diki-convert_rules_results_to_v1alpha1 x = λ i. record {
  summary = convert_rules_summary_to_diki-convert_rules_summary_to_v1alpha1 x.summary i;
  rules =
      option_map-option_map_id convert_rules_findings_to_diki convert_rules_findings_to_v1alpha1
        convert_rules_findings_to_diki-convert_rules_findings_to_v1alpha1 x.rules i;
}

pub convert_ruleset_summary_to_diki-convert_ruleset_summary_to_v1alpha1 :
    (x : DikiRulesetSummary)
    → convert_ruleset_summary_to_diki (convert_ruleset_summary_to_v1alpha1 x) ≡ x
unfolding convert_ruleset_summary_to_diki convert_ruleset_summary_to_v1alpha1
convert_ruleset_summary_to_diki-convert_ruleset_summary_to_v1alpha1 x = λ i. record {
  id = x.id;
  version = x.version;
  results = convert_rules_results_to_diki-convert_rules_results_to_v1alpha1 x.results i;
}

pub convert_condition_to_diki-convert_condition_to_v1alpha1 :
    (x : DikiCondition) → convert_condition_to_diki (convert_condition_to_v1alpha1 x) ≡ x
unfolding convert_condition_to_diki convert_condition_to_v1alpha1
convert_condition_to_diki-convert_condition_to_v1alpha1 x = refl

pub convert_compliance_scan_status_to_diki-convert_compliance_scan_status_to_v1alpha1 :
    (x : DikiComplianceScanStatus)
    → convert_compliance_scan_status_to_diki (convert_compliance_scan_status_to_v1alpha1 x) ≡ x
unfolding convert_compliance_scan_status_to_diki convert_compliance_scan_status_to_v1alpha1
convert_compliance_scan_status_to_diki-convert_compliance_scan_status_to_v1alpha1 x = λ i. record {
  conditions =
      map-map_id convert_condition_to_diki convert_condition_to_v1alpha1
        convert_condition_to_diki-convert_condition_to_v1alpha1 x.conditions i;
  phase = x.phase;
  rulesets =
      map-map_id convert_ruleset_summary_to_diki convert_ruleset_summary_to_v1alpha1
        convert_ruleset_summary_to_diki-convert_ruleset_summary_to_v1alpha1 x.rulesets i;
  outputs =
      map-map_id convert_output_status_to_diki convert_output_status_to_v1alpha1
        convert_output_status_to_diki-convert_output_status_to_v1alpha1 x.outputs i;
}

pub convert_compliance_scan_to_diki-convert_compliance_scan_to_v1alpha1 :
    (x : DikiComplianceScan)
    → convert_compliance_scan_to_diki (convert_compliance_scan_to_v1alpha1 x) ≡ x
unfolding convert_compliance_scan_to_diki convert_compliance_scan_to_v1alpha1
convert_compliance_scan_to_diki-convert_compliance_scan_to_v1alpha1 x = λ i. record {
  meta = x.meta;
  spec = convert_compliance_scan_spec_to_diki-convert_compliance_scan_spec_to_v1alpha1 x.spec i;
  status =
      convert_compliance_scan_status_to_diki-convert_compliance_scan_status_to_v1alpha1 x.status i;
}
