-- ===== src/Internal/Convert/ToV1alpha1.antt =====
-- zz_generated.conversion.go: the conversions to v1alpha1. A cast of a pointer to a
-- slice converts each element, and one of a pointer to a struct converts what it points to, if it
-- is not nil.
use mathlib.Core.Option
use diki_operator.Common.{map}
use diki_operator.Api.Scan.{
  ReportOutputRef, OptionsConfigMapRef, Options, RulesetOptions, RulesetConfig, ComplianceScanSpec,
  OutputStatus, RulesSummary, Rule, RulesFindings, RulesResults, RulesetSummary, Condition,
  ComplianceScanStatus, ComplianceScan,
}
use diki_operator.Api.Scheduled.{
  ScheduledComplianceScanTemplate, ScheduledComplianceScanSpec, ScheduledComplianceScanStatus,
  ScheduledComplianceScan,
}
use diki_operator.Internal.Scan.{
  DikiReportOutputRef, DikiOptionsConfigMapRef, DikiOptions, DikiRulesetOptions, DikiRulesetConfig,
  DikiComplianceScanSpec, DikiOutputStatus, DikiRulesSummary, DikiRule, DikiRulesFindings,
  DikiRulesResults, DikiRulesetSummary, DikiCondition, DikiComplianceScanStatus, DikiComplianceScan,
}
use diki_operator.Internal.Scheduled.{
  DikiScheduledComplianceScanTemplate, DikiScheduledComplianceScanSpec,
  DikiScheduledComplianceScanStatus, DikiScheduledComplianceScan,
}

unfoldable pub convert_report_output_ref_to_v1alpha1 : DikiReportOutputRef → ReportOutputRef
convert_report_output_ref_to_v1alpha1 x = record { name = x.name }

unfoldable pub convert_options_config_map_ref_to_v1alpha1 :
    DikiOptionsConfigMapRef → OptionsConfigMapRef
convert_options_config_map_ref_to_v1alpha1 x = record {
  name = x.name;
  namespace = x.namespace;
  key = x.key;
}

unfoldable pub convert_options_to_v1alpha1 : DikiOptions → Options
convert_options_to_v1alpha1 x = record {
  config_map_ref = Option.map convert_options_config_map_ref_to_v1alpha1 x.config_map_ref;
}

unfoldable pub convert_ruleset_options_to_v1alpha1 : DikiRulesetOptions → RulesetOptions
convert_ruleset_options_to_v1alpha1 x = record {
  ruleset_options = Option.map convert_options_to_v1alpha1 x.ruleset_options;
  rules = Option.map convert_options_to_v1alpha1 x.rules;
}

unfoldable pub convert_ruleset_config_to_v1alpha1 : DikiRulesetConfig → RulesetConfig
convert_ruleset_config_to_v1alpha1 x = record {
  id = x.id;
  version = x.version;
  options = Option.map convert_ruleset_options_to_v1alpha1 x.options;
}

unfoldable pub convert_compliance_scan_spec_to_v1alpha1 :
    DikiComplianceScanSpec → ComplianceScanSpec
convert_compliance_scan_spec_to_v1alpha1 x = record {
  rulesets = map convert_ruleset_config_to_v1alpha1 x.rulesets;
  outputs = map convert_report_output_ref_to_v1alpha1 x.outputs;
}

unfoldable pub convert_output_status_to_v1alpha1 : DikiOutputStatus → OutputStatus
convert_output_status_to_v1alpha1 x = record {
  output_name = x.output_name;
  phase = x.phase;
  details = x.details;
}

unfoldable pub convert_rules_summary_to_v1alpha1 : DikiRulesSummary → RulesSummary
convert_rules_summary_to_v1alpha1 x = record {
  passed = x.passed;
  skipped = x.skipped;
  accepted = x.accepted;
  warning = x.warning;
  failed = x.failed;
  errored = x.errored;
}

unfoldable pub convert_rule_to_v1alpha1 : DikiRule → Rule
convert_rule_to_v1alpha1 x = record { id = x.id; name = x.name }

unfoldable pub convert_rules_findings_to_v1alpha1 : DikiRulesFindings → RulesFindings
convert_rules_findings_to_v1alpha1 x = record {
  failed = map convert_rule_to_v1alpha1 x.failed;
  errored = map convert_rule_to_v1alpha1 x.errored;
  warning = map convert_rule_to_v1alpha1 x.warning;
}

unfoldable pub convert_rules_results_to_v1alpha1 : DikiRulesResults → RulesResults
convert_rules_results_to_v1alpha1 x = record {
  summary = convert_rules_summary_to_v1alpha1 x.summary;
  rules = Option.map convert_rules_findings_to_v1alpha1 x.rules;
}

unfoldable pub convert_ruleset_summary_to_v1alpha1 : DikiRulesetSummary → RulesetSummary
convert_ruleset_summary_to_v1alpha1 x = record {
  id = x.id;
  version = x.version;
  results = convert_rules_results_to_v1alpha1 x.results;
}

unfoldable pub convert_condition_to_v1alpha1 : DikiCondition → Condition
convert_condition_to_v1alpha1 x = record {
  type = x.type;
  status = x.status;
  last_update_time = x.last_update_time;
  last_transition_time = x.last_transition_time;
  reason = x.reason;
  message = x.message;
}

unfoldable pub convert_compliance_scan_status_to_v1alpha1 :
    DikiComplianceScanStatus → ComplianceScanStatus
convert_compliance_scan_status_to_v1alpha1 x = record {
  conditions = map convert_condition_to_v1alpha1 x.conditions;
  phase = x.phase;
  rulesets = map convert_ruleset_summary_to_v1alpha1 x.rulesets;
  outputs = map convert_output_status_to_v1alpha1 x.outputs;
}

unfoldable pub convert_compliance_scan_to_v1alpha1 : DikiComplianceScan → ComplianceScan
convert_compliance_scan_to_v1alpha1 x = record {
  meta = x.meta;
  spec = convert_compliance_scan_spec_to_v1alpha1 x.spec;
  status = convert_compliance_scan_status_to_v1alpha1 x.status;
}

unfoldable pub convert_scheduled_compliance_scan_template_to_v1alpha1 :
    DikiScheduledComplianceScanTemplate → ScheduledComplianceScanTemplate
convert_scheduled_compliance_scan_template_to_v1alpha1 x = record {
  spec = convert_compliance_scan_spec_to_v1alpha1 x.spec;
}

unfoldable pub convert_scheduled_compliance_scan_spec_to_v1alpha1 :
    DikiScheduledComplianceScanSpec → ScheduledComplianceScanSpec
convert_scheduled_compliance_scan_spec_to_v1alpha1 x = record {
  schedule = x.schedule;
  successful_scans_history_limit = x.successful_scans_history_limit;
  failed_scans_history_limit = x.failed_scans_history_limit;
  scan_template = convert_scheduled_compliance_scan_template_to_v1alpha1 x.scan_template;
}

unfoldable pub convert_scheduled_compliance_scan_status_to_v1alpha1 :
    DikiScheduledComplianceScanStatus → ScheduledComplianceScanStatus
convert_scheduled_compliance_scan_status_to_v1alpha1 x = record {
  active = x.active;
  last_schedule_time = x.last_schedule_time;
  last_completion_time = x.last_completion_time;
}

unfoldable pub convert_scheduled_compliance_scan_to_v1alpha1 :
    DikiScheduledComplianceScan → ScheduledComplianceScan
convert_scheduled_compliance_scan_to_v1alpha1 x = record {
  meta = x.meta;
  spec = convert_scheduled_compliance_scan_spec_to_v1alpha1 x.spec;
  status = convert_scheduled_compliance_scan_status_to_v1alpha1 x.status;
}
