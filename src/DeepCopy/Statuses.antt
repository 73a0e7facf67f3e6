-- ===== src/DeepCopy/Statuses.antt =====
-- `DeepCopyInto` and `DeepCopy` of a ComplianceScan's status and its parts.
pub mod Laws
use diki_operator.Api.Scan.{RulesSummary, Rule, Condition}
use diki_operator.DeepCopy.Memory.{Pointer, Run, pure, ◌>>=◌, copy_pointer, copy_slice, assign}
use diki_operator.DeepCopy.Layout.{
  Foreign, StoredOutputStatus, StoredRulesFindings, StoredRulesResults, StoredRulesetSummary,
  StoredComplianceScanStatus,
}
use diki_operator.DeepCopy.Cells.{Cell}
use diki_operator.DeepCopy.Cells.Structs.{
  at_output_status, at_rules_summary, at_rule, at_rules_findings, at_rules_results,
  at_ruleset_summary, at_condition,
}
use diki_operator.DeepCopy.Cells.Objects.{at_compliance_scan_status}
use diki_operator.DeepCopy.Cells.Slices.{
  at_rules, at_conditions, at_ruleset_summaries, at_output_statuses,
}
use diki_operator.DeepCopy.Machinery.{Machinery}

module _ {F : Foreign} (K : Machinery F) where
  unfoldable pub deep_copy_into_output_status :
      StoredOutputStatus F → Run (Cell F) (StoredOutputStatus F)
  deep_copy_into_output_status from = do
    details ← K.deep_copy_raw_extension from.details
    pure (record from { details = details })

  unfoldable pub deep_copy_output_status : Pointer → Run (Cell F) Pointer
  deep_copy_output_status = copy_pointer at_output_status deep_copy_into_output_status

  unfoldable pub deep_copy_into_rules_summary : RulesSummary → Run (Cell F) RulesSummary
  deep_copy_into_rules_summary from = assign from

  unfoldable pub deep_copy_rules_summary : Pointer → Run (Cell F) Pointer
  deep_copy_rules_summary = copy_pointer at_rules_summary deep_copy_into_rules_summary

  unfoldable pub deep_copy_into_rule : Rule → Run (Cell F) Rule
  deep_copy_into_rule from = assign from

  unfoldable pub deep_copy_rule : Pointer → Run (Cell F) Pointer
  deep_copy_rule = copy_pointer at_rule deep_copy_into_rule

  unfoldable pub deep_copy_into_rules_findings :
      StoredRulesFindings F → Run (Cell F) (StoredRulesFindings F)
  deep_copy_into_rules_findings from = do
    failed ← copy_slice at_rules assign from.failed
    errored ← copy_slice at_rules assign from.errored
    warning ← copy_slice at_rules assign from.warning
    pure (record from { failed = failed; errored = errored; warning = warning })

  unfoldable pub deep_copy_rules_findings : Pointer → Run (Cell F) Pointer
  deep_copy_rules_findings = copy_pointer at_rules_findings deep_copy_into_rules_findings

  unfoldable pub deep_copy_into_rules_results :
      StoredRulesResults F → Run (Cell F) (StoredRulesResults F)
  deep_copy_into_rules_results from = do
    rules ← copy_pointer at_rules_findings deep_copy_into_rules_findings from.rules
    pure (record from { rules = rules })

  unfoldable pub deep_copy_rules_results : Pointer → Run (Cell F) Pointer
  deep_copy_rules_results = copy_pointer at_rules_results deep_copy_into_rules_results

  unfoldable pub deep_copy_into_ruleset_summary :
      StoredRulesetSummary F → Run (Cell F) (StoredRulesetSummary F)
  deep_copy_into_ruleset_summary from = do
    results ← deep_copy_into_rules_results from.results
    pure (record from { results = results })

  unfoldable pub deep_copy_ruleset_summary : Pointer → Run (Cell F) Pointer
  deep_copy_ruleset_summary = copy_pointer at_ruleset_summary deep_copy_into_ruleset_summary

  -- `in` is copied as a whole first, and then its times.
  unfoldable pub deep_copy_into_condition : Condition → Run (Cell F) Condition
  deep_copy_into_condition from = do
    last_update_time ← K.deep_copy_time from.last_update_time
    last_transition_time ← K.deep_copy_time from.last_transition_time
    pure (record from {
      last_update_time = last_update_time;
      last_transition_time = last_transition_time;
    })

  unfoldable pub deep_copy_condition : Pointer → Run (Cell F) Pointer
  deep_copy_condition = copy_pointer at_condition deep_copy_into_condition

  unfoldable pub deep_copy_into_compliance_scan_status :
      StoredComplianceScanStatus F → Run (Cell F) (StoredComplianceScanStatus F)
  deep_copy_into_compliance_scan_status from = do
    conditions ← copy_slice at_conditions deep_copy_into_condition from.conditions
    rulesets ← copy_slice at_ruleset_summaries deep_copy_into_ruleset_summary from.rulesets
    outputs ← copy_slice at_output_statuses deep_copy_into_output_status from.outputs
    pure (record from { conditions = conditions; rulesets = rulesets; outputs = outputs })

  unfoldable pub deep_copy_compliance_scan_status : Pointer → Run (Cell F) Pointer
  deep_copy_compliance_scan_status =
      copy_pointer at_compliance_scan_status deep_copy_into_compliance_scan_status
