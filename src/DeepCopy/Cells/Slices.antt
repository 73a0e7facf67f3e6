-- ===== src/DeepCopy/Cells/Slices.antt =====
-- How the elements of a slice stand in a cell.
use diki_operator.Api.Scan.{ReportOutputRef, Rule, Condition}
use diki_operator.Common.{List, none, some, refl}
use diki_operator.DeepCopy.Memory.{Store}
use diki_operator.DeepCopy.Layout.{
  Foreign, StoredRulesetConfig, StoredOutputStatus, StoredRulesetSummary, StoredComplianceScan,
  StoredReportOutput, StoredScheduledComplianceScan,
}
use diki_operator.DeepCopy.Cells.{
  Cell, ruleset_configs_cell, report_output_refs_cell, rules_cell, conditions_cell,
  ruleset_summaries_cell, output_statuses_cell, compliance_scans_cell, report_outputs_cell,
  scheduled_compliance_scans_cell,
}

module _ {F : Foreign} where
  abbrev pub at_ruleset_configs : Store (Cell F) (List (StoredRulesetConfig F))
  at_ruleset_configs = record {
    put = ruleset_configs_cell;
    get = λ c. elim c [ ruleset_configs_cell x ↦ some x | _ ↦ none ];
    get-put = λ x. refl;
  }

  abbrev pub at_report_output_refs : Store (Cell F) (List ReportOutputRef)
  at_report_output_refs = record {
    put = report_output_refs_cell;
    get = λ c. elim c [ report_output_refs_cell x ↦ some x | _ ↦ none ];
    get-put = λ x. refl;
  }

  abbrev pub at_rules : Store (Cell F) (List Rule)
  at_rules = record {
    put = rules_cell;
    get = λ c. elim c [ rules_cell x ↦ some x | _ ↦ none ];
    get-put = λ x. refl;
  }

  abbrev pub at_conditions : Store (Cell F) (List Condition)
  at_conditions = record {
    put = conditions_cell;
    get = λ c. elim c [ conditions_cell x ↦ some x | _ ↦ none ];
    get-put = λ x. refl;
  }

  abbrev pub at_ruleset_summaries : Store (Cell F) (List (StoredRulesetSummary F))
  at_ruleset_summaries = record {
    put = ruleset_summaries_cell;
    get = λ c. elim c [ ruleset_summaries_cell x ↦ some x | _ ↦ none ];
    get-put = λ x. refl;
  }

  abbrev pub at_output_statuses : Store (Cell F) (List (StoredOutputStatus F))
  at_output_statuses = record {
    put = output_statuses_cell;
    get = λ c. elim c [ output_statuses_cell x ↦ some x | _ ↦ none ];
    get-put = λ x. refl;
  }

  abbrev pub at_compliance_scans : Store (Cell F) (List (StoredComplianceScan F))
  at_compliance_scans = record {
    put = compliance_scans_cell;
    get = λ c. elim c [ compliance_scans_cell x ↦ some x | _ ↦ none ];
    get-put = λ x. refl;
  }

  abbrev pub at_report_outputs : Store (Cell F) (List (StoredReportOutput F))
  at_report_outputs = record {
    put = report_outputs_cell;
    get = λ c. elim c [ report_outputs_cell x ↦ some x | _ ↦ none ];
    get-put = λ x. refl;
  }

  abbrev pub at_scheduled_compliance_scans : Store (Cell F) (List (StoredScheduledComplianceScan F))
  at_scheduled_compliance_scans = record {
    put = scheduled_compliance_scans_cell;
    get = λ c. elim c [ scheduled_compliance_scans_cell x ↦ some x | _ ↦ none ];
    get-put = λ x. refl;
  }
