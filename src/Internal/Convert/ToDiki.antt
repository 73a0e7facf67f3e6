-- ===== src/Internal/Convert/ToDiki.antt =====
-- zz_generated.conversion.go: the conversions to the internal version. A cast of a pointer to a
-- slice converts each element, and one of a pointer to a struct converts what it points to, if it
-- is not nil.
use mathlib.Core.Option
use diki_operator.Common.{map}
use diki_operator.Api.Scan.{
  ReportOutputRef, OptionsConfigMapRef, Options, RulesetOptions, RulesetConfig, ComplianceScanSpec,
  OutputStatus, RulesSummary, Rule, RulesFindings, RulesResults, RulesetSummary, Condition,
  ComplianceScanStatus, ComplianceScan,
}
use diki_operator.Api.Scheduled.{
  ScheduledComplianceScanTemplate, ScheduledComplianceScanSpec, ScheduledComplianceScanStatus,
  ScheduledComplianceScan,
}
use diki_operator.Internal.Scan.{
  DikiReportOutputRef, DikiOptionsConfigMapRef, DikiOptions, DikiRulesetOptions, DikiRulesetConfig,
  DikiComplianceScanSpec, DikiOutputStatus, DikiRulesSummary, DikiRule, DikiRulesFindings,
  DikiRulesResults, DikiRulesetSummary, DikiCondition, DikiComplianceScanStatus, DikiComplianceScan,
}
use diki_operator.Internal.Scheduled.{
  DikiScheduledComplianceScanTemplate, DikiScheduledComplianceScanSpec,
  DikiScheduledComplianceScanStatus, DikiScheduledComplianceScan,
}

unfoldable pub convert_report_output_ref_to_diki : ReportOutputRef → DikiReportOutputRef
convert_report_output_ref_to_diki x = record { name = x.name }

unfoldable pub convert_options_config_map_ref_to_diki :
    OptionsConfigMapRef → DikiOptionsConfigMapRef
convert_options_config_map_ref_to_diki x = record {
  name = x.name;
  namespace = x.namespace;
  key = x.key;
}

unfoldable pub convert_options_to_diki : Options → DikiOptions
convert_options_to_diki x = record {
  config_map_ref = Option.map convert_options_config_map_ref_to_diki x.config_map_ref;
}

unfoldable pub convert_ruleset_options_to_diki : RulesetOptions → DikiRulesetOptions
convert_ruleset_options_to_diki x = record {
  ruleset_options = Option.map convert_options_to_diki x.ruleset_options;
  rules = Option.map convert_options_to_diki x.rules;
}

unfoldable pub convert_ruleset_config_to_diki : RulesetConfig → DikiRulesetConfig
convert_ruleset_config_to_diki x = record {
  id = x.id;
  version = x.version;
  options = Option.map convert_ruleset_options_to_diki x.options;
}

unfoldable pub convert_compliance_scan_spec_to_diki : ComplianceScanSpec → DikiComplianceScanSpec
convert_compliance_scan_spec_to_diki x = record {
  rulesets = map convert_ruleset_config_to_diki x.rulesets;
  outputs = map convert_report_output_ref_to_diki x.outputs;
}

unfoldable pub convert_output_status_to_diki : OutputStatus → DikiOutputStatus
convert_output_status_to_diki x = record {
  output_name = x.output_name;
  phase = x.phase;
  details = x.details;
}

unfoldable pub convert_rules_summary_to_diki : RulesSummary → DikiRulesSummary
convert_rules_summary_to_diki x = record {
  passed = x.passed;
  skipped = x.skipped;
  accepted = x.accepted;
  warning = x.warning;
  failed = x.failed;
  errored = x.errored;
}

unfoldable pub convert_rule_to_diki : Rule → DikiRule
convert_rule_to_diki x = record { id = x.id; name = x.name }

unfoldable pub convert_rules_findings_to_diki : RulesFindings → DikiRulesFindings
convert_rules_findings_to_diki x = record {
  failed = map convert_rule_to_diki x.failed;
  errored = map convert_rule_to_diki x.errored;
  warning = map convert_rule_to_diki x.warning;
}

unfoldable pub convert_rules_results_to_diki : RulesResults → DikiRulesResults
convert_rules_results_to_diki x = record {
  summary = convert_rules_summary_to_diki x.summary;
  rules = Option.map convert_rules_findings_to_diki x.rules;
}

unfoldable pub convert_ruleset_summary_to_diki : RulesetSummary → DikiRulesetSummary
convert_ruleset_summary_to_diki x = record {
  id = x.id;
  version = x.version;
  results = convert_rules_results_to_diki x.results;
}

unfoldable pub convert_condition_to_diki : Condition → DikiCondition
convert_condition_to_diki x = record {
  type = x.type;
  status = x.status;
  last_update_time = x.last_update_time;
  last_transition_time = x.last_transition_time;
  reason = x.reason;
  message = x.message;
}

unfoldable pub convert_compliance_scan_status_to_diki :
    ComplianceScanStatus → DikiComplianceScanStatus
convert_compliance_scan_status_to_diki x = record {
  conditions = map convert_condition_to_diki x.conditions;
  phase = x.phase;
  rulesets = map convert_ruleset_summary_to_diki x.rulesets;
  outputs = map convert_output_status_to_diki x.outputs;
}

unfoldable pub convert_compliance_scan_to_diki : ComplianceScan → DikiComplianceScan
convert_compliance_scan_to_diki x = record {
  meta = x.meta;
  spec = convert_compliance_scan_spec_to_diki x.spec;
  status = convert_compliance_scan_status_to_diki x.status;
}

unfoldable pub convert_scheduled_compliance_scan_template_to_diki :
    ScheduledComplianceScanTemplate → DikiScheduledComplianceScanTemplate
convert_scheduled_compliance_scan_template_to_diki x = record {
  spec = convert_compliance_scan_spec_to_diki x.spec;
}

unfoldable pub convert_scheduled_compliance_scan_spec_to_diki :
    ScheduledComplianceScanSpec → DikiScheduledComplianceScanSpec
convert_scheduled_compliance_scan_spec_to_diki x = record {
  schedule = x.schedule;
  successful_scans_history_limit = x.successful_scans_history_limit;
  failed_scans_history_limit = x.failed_scans_history_limit;
  scan_template = convert_scheduled_compliance_scan_template_to_diki x.scan_template;
}

unfoldable pub convert_scheduled_compliance_scan_status_to_diki :
    ScheduledComplianceScanStatus → DikiScheduledComplianceScanStatus
convert_scheduled_compliance_scan_status_to_diki x = record {
  active = x.active;
  last_schedule_time = x.last_schedule_time;
  last_completion_time = x.last_completion_time;
}

unfoldable pub convert_scheduled_compliance_scan_to_diki :
    ScheduledComplianceScan → DikiScheduledComplianceScan
convert_scheduled_compliance_scan_to_diki x = record {
  meta = x.meta;
  spec = convert_scheduled_compliance_scan_spec_to_diki x.spec;
  status = convert_scheduled_compliance_scan_status_to_diki x.status;
}
