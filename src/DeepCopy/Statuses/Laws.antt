-- ===== src/DeepCopy/Statuses/Laws.antt =====
-- What a ComplianceScan's status and its parts reads as in a memory, and that its copies are deep copies.
use diki_operator.Api.Scan.{
  OutputStatus, RulesFindings, RulesResults, RulesetSummary, Condition, ComplianceScanStatus,
}
use diki_operator.Common.{◌≡◌, refl}
use diki_operator.DeepCopy.Fresh.{Reading, IsDeepCopy}
use diki_operator.DeepCopy.Pointers.{
  Itself, PointsTo, Elements, assign-IsDeepCopy, copy_pointer-IsDeepCopy, copy_slice-IsDeepCopy,
  one, two, three,
}
use diki_operator.DeepCopy.Layout.{
  Foreign, StoredOutputStatus, StoredRulesFindings, StoredRulesResults, StoredRulesetSummary,
  StoredComplianceScanStatus,
}
use diki_operator.DeepCopy.Cells.{Cell}
use diki_operator.DeepCopy.Cells.Structs.{at_rules_findings}
use diki_operator.DeepCopy.Cells.Slices.{
  at_rules, at_conditions, at_ruleset_summaries, at_output_statuses,
}
use diki_operator.DeepCopy.Machinery.{Machinery, IsMachinery}
use diki_operator.DeepCopy.Statuses.{
  deep_copy_into_output_status, deep_copy_into_rules_findings, deep_copy_into_rules_results,
  deep_copy_into_ruleset_summary, deep_copy_into_condition, deep_copy_into_compliance_scan_status,
}

module _ {F : Foreign} {K : Machinery F} (L : IsMachinery K) where
  abbrev pub OutputStatusReads : Reading (Cell F) (StoredOutputStatus F) OutputStatus
  OutputStatusReads m a v =
      (a.output_name ≡ v.output_name)
      × (a.phase ≡ v.phase)
      × L.RawExtensionReads m a.details v.details

  pub deep_copy_into_output_status-IsDeepCopy :
      IsDeepCopy OutputStatusReads (deep_copy_into_output_status K)
  unfolding deep_copy_into_output_status
  deep_copy_into_output_status-IsDeepCopy = record {
    stable = λ m later a v keeps r.
        (r.0, r.1, L.raw_extension-IsDeepCopy.stable m later a.details v.details keeps r.2);
    copies = λ m a v r. one L.raw_extension-IsDeepCopy _ r.2 (λ later b0 e0. (r.0, r.1, e0));
  }

  abbrev pub RulesFindingsReads : Reading (Cell F) (StoredRulesFindings F) RulesFindings
  RulesFindingsReads m a v =
      Elements at_rules Itself m a.failed v.failed
      × Elements at_rules Itself m a.errored v.errored
      × Elements at_rules Itself m a.warning v.warning

  pub deep_copy_into_rules_findings-IsDeepCopy :
      IsDeepCopy RulesFindingsReads (deep_copy_into_rules_findings K)
  unfolding deep_copy_into_rules_findings
  deep_copy_into_rules_findings-IsDeepCopy = record {
    stable = λ m later a v keeps r. (
      (copy_slice-IsDeepCopy assign-IsDeepCopy at_rules).stable m later a.failed v.failed keeps r.0,
      (copy_slice-IsDeepCopy assign-IsDeepCopy at_rules).stable m later a.errored v.errored keeps
          r.1,
      (copy_slice-IsDeepCopy assign-IsDeepCopy at_rules).stable m later a.warning v.warning keeps
          r.2,
    );
    copies = λ m a v r.
        three (copy_slice-IsDeepCopy assign-IsDeepCopy at_rules)
          (copy_slice-IsDeepCopy assign-IsDeepCopy at_rules)
          (copy_slice-IsDeepCopy assign-IsDeepCopy at_rules) _ r.0 r.1 r.2
          (λ later b0 b1 b2 e0 e1 e2. (e0, e1, e2));
  }

  abbrev pub RulesResultsReads : Reading (Cell F) (StoredRulesResults F) RulesResults
  RulesResultsReads m a v =
      (a.summary ≡ v.summary) × PointsTo at_rules_findings RulesFindingsReads m a.rules v.rules

  pub deep_copy_into_rules_results-IsDeepCopy :
      IsDeepCopy RulesResultsReads (deep_copy_into_rules_results K)
  unfolding deep_copy_into_rules_results
  deep_copy_into_rules_results-IsDeepCopy = record {
    stable = λ m later a v keeps r. (
      r.0,
      (copy_pointer-IsDeepCopy deep_copy_into_rules_findings-IsDeepCopy at_rules_findings).stable m
          later a.rules v.rules keeps r.1,
    );
    copies = λ m a v r.
        one (copy_pointer-IsDeepCopy deep_copy_into_rules_findings-IsDeepCopy at_rules_findings) _
          r.1 (λ later b0 e0. (r.0, e0));
  }

  abbrev pub RulesetSummaryReads : Reading (Cell F) (StoredRulesetSummary F) RulesetSummary
  RulesetSummaryReads m a v =
      (a.id ≡ v.id) × (a.version ≡ v.version) × RulesResultsReads m a.results v.results

  pub deep_copy_into_ruleset_summary-IsDeepCopy :
      IsDeepCopy RulesetSummaryReads (deep_copy_into_ruleset_summary K)
  unfolding deep_copy_into_ruleset_summary
  deep_copy_into_ruleset_summary-IsDeepCopy = record {
    stable = λ m later a v keeps r. (
      r.0,
      r.1,
      deep_copy_into_rules_results-IsDeepCopy.stable m later a.results v.results keeps r.2,
    );
    copies = λ m a v r.
        one deep_copy_into_rules_results-IsDeepCopy _ r.2 (λ later b0 e0. (r.0, r.1, e0));
  }

  deep_copy_into_condition-IsDeepCopy :
      IsDeepCopy {A = Condition} Itself (deep_copy_into_condition K)
  unfolding deep_copy_into_condition
  deep_copy_into_condition-IsDeepCopy = record {
    stable = λ m later a v keeps e. e;
    copies = λ m a v e.
        two L.time-IsDeepCopy L.time-IsDeepCopy _ refl refl (λ later b c p q. rw (p, q) e);
  }

  abbrev pub ComplianceScanStatusReads :
      Reading (Cell F) (StoredComplianceScanStatus F) ComplianceScanStatus
  ComplianceScanStatusReads m a v =
      Elements at_conditions Itself m a.conditions v.conditions
      × (a.phase ≡ v.phase)
      × Elements at_ruleset_summaries RulesetSummaryReads m a.rulesets v.rulesets
      × Elements at_output_statuses OutputStatusReads m a.outputs v.outputs

  pub deep_copy_into_compliance_scan_status-IsDeepCopy :
      IsDeepCopy ComplianceScanStatusReads (deep_copy_into_compliance_scan_status K)
  unfolding deep_copy_into_compliance_scan_status
  deep_copy_into_compliance_scan_status-IsDeepCopy = record {
    stable = λ m later a v keeps r. (
      (copy_slice-IsDeepCopy deep_copy_into_condition-IsDeepCopy at_conditions).stable m later
          a.conditions v.conditions keeps r.0,
      r.1,
      (copy_slice-IsDeepCopy deep_copy_into_ruleset_summary-IsDeepCopy at_ruleset_summaries).stable
          m later a.rulesets v.rulesets keeps r.2,
      (copy_slice-IsDeepCopy deep_copy_into_output_status-IsDeepCopy at_output_statuses).stable m
          later a.outputs v.outputs keeps r.3,
    );
    copies = λ m a v r.
        three (copy_slice-IsDeepCopy deep_copy_into_condition-IsDeepCopy at_conditions)
          (copy_slice-IsDeepCopy deep_copy_into_ruleset_summary-IsDeepCopy at_ruleset_summaries)
          (copy_slice-IsDeepCopy deep_copy_into_output_status-IsDeepCopy at_output_statuses) _ r.0
          r.2 r.3 (λ later b0 b1 b2 e0 e1 e2. (e0, r.1, e1, e2));
  }
