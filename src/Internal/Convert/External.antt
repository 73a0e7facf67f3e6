-- ===== src/Internal/Convert/External.antt =====
-- A resource of v1alpha1 comes back from the internal version as it was.
pub mod Scheduled
use diki_operator.Common.{◌≡◌, refl}
use diki_operator.Api.Scan.{
  ReportOutputRef, OptionsConfigMapRef, Options, RulesetOptions, RulesetConfig, ComplianceScanSpec,
  OutputStatus, RulesSummary, Rule, RulesFindings, RulesResults, RulesetSummary, Condition,
  ComplianceScanStatus, ComplianceScan,
}
use diki_operator.Internal.Convert.ToDiki.{
  convert_report_output_ref_to_diki, convert_options_config_map_ref_to_diki,
  convert_options_to_diki, convert_ruleset_options_to_diki, convert_ruleset_config_to_diki,
  convert_compliance_scan_spec_to_diki, convert_output_status_to_diki,
  convert_rules_summary_to_diki, convert_rule_to_diki, convert_rules_findings_to_diki,
  convert_rules_results_to_diki, convert_ruleset_summary_to_diki, convert_condition_to_diki,
  convert_compliance_scan_status_to_diki, convert_compliance_scan_to_diki,
}
use diki_operator.Internal.Convert.ToV1alpha1.{
  convert_report_output_ref_to_v1alpha1, convert_options_config_map_ref_to_v1alpha1,
  convert_options_to_v1alpha1, convert_ruleset_options_to_v1alpha1,
  convert_ruleset_config_to_v1alpha1, convert_compliance_scan_spec_to_v1alpha1,
  convert_output_status_to_v1alpha1, convert_rules_summary_to_v1alpha1, convert_rule_to_v1alpha1,
  convert_rules_findings_to_v1alpha1, convert_rules_results_to_v1alpha1,
  convert_ruleset_summary_to_v1alpha1, convert_condition_to_v1alpha1,
  convert_compliance_scan_status_to_v1alpha1, convert_compliance_scan_to_v1alpha1,
}
use diki_operator.Internal.Convert.Maps.{map-map_id, option_map-option_map_id}

pub convert_report_output_ref_to_v1alpha1-convert_report_output_ref_to_diki :
    (x : ReportOutputRef)
    → convert_report_output_ref_to_v1alpha1 (convert_report_output_ref_to_diki x) ≡ x
unfolding convert_report_output_ref_to_v1alpha1 convert_report_output_ref_to_diki
convert_report_output_ref_to_v1alpha1-convert_report_output_ref_to_diki x = refl

pub convert_options_config_map_ref_to_v1alpha1-convert_options_config_map_ref_to_diki :
    (x : OptionsConfigMapRef)
    → convert_options_config_map_ref_to_v1alpha1 (convert_options_config_map_ref_to_diki x) ≡ x
unfolding convert_options_config_map_ref_to_v1alpha1 convert_options_config_map_ref_to_diki
convert_options_config_map_ref_to_v1alpha1-convert_options_config_map_ref_to_diki x = refl

pub convert_options_to_v1alpha1-convert_options_to_diki :
    (x : Options) → convert_options_to_v1alpha1 (convert_options_to_diki x) ≡ x
unfolding convert_options_to_v1alpha1 convert_options_to_diki
convert_options_to_v1alpha1-convert_options_to_diki x = λ i. record {
  config_map_ref =
      option_map-option_map_id convert_options_config_map_ref_to_v1alpha1
        convert_options_config_map_ref_to_diki
        convert_options_config_map_ref_to_v1alpha1-convert_options_config_map_ref_to_diki
        x.config_map_ref i;
}

pub convert_ruleset_options_to_v1alpha1-convert_ruleset_options_to_diki :
    (x : RulesetOptions)
    → convert_ruleset_options_to_v1alpha1 (convert_ruleset_options_to_diki x) ≡ x
unfolding convert_ruleset_options_to_v1alpha1 convert_ruleset_options_to_diki
convert_ruleset_options_to_v1alpha1-convert_ruleset_options_to_diki x = λ i. record {
  ruleset_options =
      option_map-option_map_id convert_options_to_v1alpha1 convert_options_to_diki
        convert_options_to_v1alpha1-convert_options_to_diki x.ruleset_options i;
  rules =
      option_map-option_map_id convert_options_to_v1alpha1 convert_options_to_diki
        convert_options_to_v1alpha1-convert_options_to_diki x.rules i;
}

pub convert_ruleset_config_to_v1alpha1-convert_ruleset_config_to_diki :
    (x : RulesetConfig) → convert_ruleset_config_to_v1alpha1 (convert_ruleset_config_to_diki x) ≡ x
unfolding convert_ruleset_config_to_v1alpha1 convert_ruleset_config_to_diki
convert_ruleset_config_to_v1alpha1-convert_ruleset_config_to_diki x = λ i. record {
  id = x.id;
  version = x.version;
  options =
      option_map-option_map_id convert_ruleset_options_to_v1alpha1 convert_ruleset_options_to_diki
        convert_ruleset_options_to_v1alpha1-convert_ruleset_options_to_diki x.options i;
}

pub convert_compliance_scan_spec_to_v1alpha1-convert_compliance_scan_spec_to_diki :
    (x : ComplianceScanSpec)
    → convert_compliance_scan_spec_to_v1alpha1 (convert_compliance_scan_spec_to_diki x) ≡ x
unfolding convert_compliance_scan_spec_to_v1alpha1 convert_compliance_scan_spec_to_diki
convert_compliance_scan_spec_to_v1alpha1-convert_compliance_scan_spec_to_diki x = λ i. record {
  rulesets =
      map-map_id convert_ruleset_config_to_v1alpha1 convert_ruleset_config_to_diki
        convert_ruleset_config_to_v1alpha1-convert_ruleset_config_to_diki x.rulesets i;
  outputs =
      map-map_id convert_report_output_ref_to_v1alpha1 convert_report_output_ref_to_diki
        convert_report_output_ref_to_v1alpha1-convert_report_output_ref_to_diki x.outputs i;
}

pub convert_output_status_to_v1alpha1-convert_output_status_to_diki :
    (x : OutputStatus) → convert_output_status_to_v1alpha1 (convert_output_status_to_diki x) ≡ x
unfolding convert_output_status_to_v1alpha1 convert_output_status_to_diki
convert_output_status_to_v1alpha1-convert_output_status_to_diki x = refl

pub convert_rules_summary_to_v1alpha1-convert_rules_summary_to_diki :
    (x : RulesSummary) → convert_rules_summary_to_v1alpha1 (convert_rules_summary_to_diki x) ≡ x
unfolding convert_rules_summary_to_v1alpha1 convert_rules_summary_to_diki
convert_rules_summary_to_v1alpha1-convert_rules_summary_to_diki x = refl

pub convert_rule_to_v1alpha1-convert_rule_to_diki :
    (x : Rule) → convert_rule_to_v1alpha1 (convert_rule_to_diki x) ≡ x
unfolding convert_rule_to_v1alpha1 convert_rule_to_diki
convert_rule_to_v1alpha1-convert_rule_to_diki x = refl

pub convert_rules_findings_to_v1alpha1-convert_rules_findings_to_diki :
    (x : RulesFindings) → convert_rules_findings_to_v1alpha1 (convert_rules_findings_to_diki x) ≡ x
unfolding convert_rules_findings_to_v1alpha1 convert_rules_findings_to_diki
convert_rules_findings_to_v1alpha1-convert_rules_findings_to_diki x = λ i. record {
  failed =
      map-map_id convert_rule_to_v1alpha1 convert_rule_to_diki
        convert_rule_to_v1alpha1-convert_rule_to_diki x.failed i;
  errored =
      map-map_id convert_rule_to_v1alpha1 convert_rule_to_diki
        convert_rule_to_v1alpha1-convert_rule_to_diki x.errored i;
  warning =
      map-map_id convert_rule_to_v1alpha1 convert_rule_to_diki
        convert_rule_to_v1alpha1-convert_rule_to_diki x.warning i;
}

pub convert_rules_results_to_v1alpha1-convert_rules_results_to_diki :
    (x : RulesResults) → convert_rules_results_to_v1alpha1 (convert_rules_results_to_diki x) ≡ x
unfolding convert_rules_results_to_v1alpha1 convert_rules_results_to_diki
convert_rules_results_to_v1alpha1-convert_rules_results_to_diki x = λ i. record {
  summary = convert_rules_summary_to_v1alpha1-convert_rules_summary_to_diki x.summary i;
  rules =
      option_map-option_map_id convert_rules_findings_to_v1alpha1 convert_rules_findings_to_diki
        convert_rules_findings_to_v1alpha1-convert_rules_findings_to_diki x.rules i;
}

pub convert_ruleset_summary_to_v1alpha1-convert_ruleset_summary_to_diki :
    (x : RulesetSummary)
    → convert_ruleset_summary_to_v1alpha1 (convert_ruleset_summary_to_diki x) ≡ x
unfolding convert_ruleset_summary_to_v1alpha1 convert_ruleset_summary_to_diki
convert_ruleset_summary_to_v1alpha1-convert_ruleset_summary_to_diki x = λ i. record {
  id = x.id;
  version = x.version;
  results = convert_rules_results_to_v1alpha1-convert_rules_results_to_diki x.results i;
}

pub convert_condition_to_v1alpha1-convert_condition_to_diki :
    (x : Condition) → convert_condition_to_v1alpha1 (convert_condition_to_diki x) ≡ x
unfolding convert_condition_to_v1alpha1 convert_condition_to_diki
convert_condition_to_v1alpha1-convert_condition_to_diki x = refl

pub convert_compliance_scan_status_to_v1alpha1-convert_compliance_scan_status_to_diki :
    (x : ComplianceScanStatus)
    → convert_compliance_scan_status_to_v1alpha1 (convert_compliance_scan_status_to_diki x) ≡ x
unfolding convert_compliance_scan_status_to_v1alpha1 convert_compliance_scan_status_to_diki
convert_compliance_scan_status_to_v1alpha1-convert_compliance_scan_status_to_diki x = λ i. record {
  conditions =
      map-map_id convert_condition_to_v1alpha1 convert_condition_to_diki
        convert_condition_to_v1alpha1-convert_condition_to_diki x.conditions i;
  phase = x.phase;
  rulesets =
      map-map_id convert_ruleset_summary_to_v1alpha1 convert_ruleset_summary_to_diki
        convert_ruleset_summary_to_v1alpha1-convert_ruleset_summary_to_diki x.rulesets i;
  outputs =
      map-map_id convert_output_status_to_v1alpha1 convert_output_status_to_diki
        convert_output_status_to_v1alpha1-convert_output_status_to_diki x.outputs i;
}

pub convert_compliance_scan_to_v1alpha1-convert_compliance_scan_to_diki :
    (x : ComplianceScan)
    → convert_compliance_scan_to_v1alpha1 (convert_compliance_scan_to_diki x) ≡ x
unfolding convert_compliance_scan_to_v1alpha1 convert_compliance_scan_to_diki
convert_compliance_scan_to_v1alpha1-convert_compliance_scan_to_diki x = λ i. record {
  meta = x.meta;
  spec = convert_compliance_scan_spec_to_v1alpha1-convert_compliance_scan_spec_to_diki x.spec i;
  status =
      convert_compliance_scan_status_to_v1alpha1-convert_compliance_scan_status_to_diki x.status i;
}
