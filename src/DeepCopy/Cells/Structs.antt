-- ===== src/DeepCopy/Cells/Structs.antt =====
-- How the parts of a resource that a pointer leads to stand in a cell.
use diki_operator.Api.Meta.{Time, ObjectReference}
use diki_operator.Api.Scan.{ReportOutputRef, RulesSummary, Rule, Condition}
use diki_operator.Common.{String}
use diki_operator.Common.Int.{ℤ}
use diki_operator.Common.{none, some, refl}
use diki_operator.DeepCopy.Memory.{Store}
use diki_operator.DeepCopy.Layout.{
  Foreign, StoredOptionsConfigMapRef, StoredOptions, StoredRulesetOptions, StoredRulesetConfig,
  StoredOutputStatus, StoredRulesFindings, StoredRulesResults, StoredRulesetSummary,
}
use diki_operator.DeepCopy.Cells.{
  Cell, block, string_cell, int32_cell, time_cell, object_reference_cell, report_output_ref_cell,
  options_config_map_ref_cell, options_cell, ruleset_options_cell, ruleset_config_cell,
  output_status_cell, rules_summary_cell, rule_cell, rules_findings_cell, rules_results_cell,
  ruleset_summary_cell, condition_cell,
}

module _ {F : Foreign} where
  abbrev pub at_block : Store (Cell F) F.Block
  at_block = record {
    put = block;
    get = λ c. elim c [ block b ↦ some b | _ ↦ none ];
    get-put = λ b. refl;
  }

  abbrev pub at_string : Store (Cell F) String
  at_string = record {
    put = string_cell;
    get = λ c. elim c [ string_cell x ↦ some x | _ ↦ none ];
    get-put = λ x. refl;
  }

  abbrev pub at_int32 : Store (Cell F) ℤ
  at_int32 = record {
    put = int32_cell;
    get = λ c. elim c [ int32_cell x ↦ some x | _ ↦ none ];
    get-put = λ x. refl;
  }

  abbrev pub at_time : Store (Cell F) Time
  at_time = record {
    put = time_cell;
    get = λ c. elim c [ time_cell x ↦ some x | _ ↦ none ];
    get-put = λ x. refl;
  }

  abbrev pub at_object_reference : Store (Cell F) ObjectReference
  at_object_reference = record {
    put = object_reference_cell;
    get = λ c. elim c [ object_reference_cell x ↦ some x | _ ↦ none ];
    get-put = λ x. refl;
  }

  abbrev pub at_report_output_ref : Store (Cell F) ReportOutputRef
  at_report_output_ref = record {
    put = report_output_ref_cell;
    get = λ c. elim c [ report_output_ref_cell x ↦ some x | _ ↦ none ];
    get-put = λ x. refl;
  }

  abbrev pub at_options_config_map_ref : Store (Cell F) (StoredOptionsConfigMapRef F)
  at_options_config_map_ref = record {
    put = options_config_map_ref_cell;
    get = λ c. elim c [ options_config_map_ref_cell x ↦ some x | _ ↦ none ];
    get-put = λ x. refl;
  }

  abbrev pub at_options : Store (Cell F) (StoredOptions F)
  at_options = record {
    put = options_cell;
    get = λ c. elim c [ options_cell x ↦ some x | _ ↦ none ];
    get-put = λ x. refl;
  }

  abbrev pub at_ruleset_options : Store (Cell F) (StoredRulesetOptions F)
  at_ruleset_options = record {
    put = ruleset_options_cell;
    get = λ c. elim c [ ruleset_options_cell x ↦ some x | _ ↦ none ];
    get-put = λ x. refl;
  }

  abbrev pub at_ruleset_config : Store (Cell F) (StoredRulesetConfig F)
  at_ruleset_config = record {
    put = ruleset_config_cell;
    get = λ c. elim c [ ruleset_config_cell x ↦ some x | _ ↦ none ];
    get-put = λ x. refl;
  }

  abbrev pub at_output_status : Store (Cell F) (StoredOutputStatus F)
  at_output_status = record {
    put = output_status_cell;
    get = λ c. elim c [ output_status_cell x ↦ some x | _ ↦ none ];
    get-put = λ x. refl;
  }

  abbrev pub at_rules_summary : Store (Cell F) RulesSummary
  at_rules_summary = record {
    put = rules_summary_cell;
    get = λ c. elim c [ rules_summary_cell x ↦ some x | _ ↦ none ];
    get-put = λ x. refl;
  }

  abbrev pub at_rule : Store (Cell F) Rule
  at_rule = record {
    put = rule_cell;
    get = λ c. elim c [ rule_cell x ↦ some x | _ ↦ none ];
    get-put = λ x. refl;
  }

  abbrev pub at_rules_findings : Store (Cell F) (StoredRulesFindings F)
  at_rules_findings = record {
    put = rules_findings_cell;
    get = λ c. elim c [ rules_findings_cell x ↦ some x | _ ↦ none ];
    get-put = λ x. refl;
  }

  abbrev pub at_rules_results : Store (Cell F) (StoredRulesResults F)
  at_rules_results = record {
    put = rules_results_cell;
    get = λ c. elim c [ rules_results_cell x ↦ some x | _ ↦ none ];
    get-put = λ x. refl;
  }

  abbrev pub at_ruleset_summary : Store (Cell F) (StoredRulesetSummary F)
  at_ruleset_summary = record {
    put = ruleset_summary_cell;
    get = λ c. elim c [ ruleset_summary_cell x ↦ some x | _ ↦ none ];
    get-put = λ x. refl;
  }

  abbrev pub at_condition : Store (Cell F) Condition
  at_condition = record {
    put = condition_cell;
    get = λ c. elim c [ condition_cell x ↦ some x | _ ↦ none ];
    get-put = λ x. refl;
  }
