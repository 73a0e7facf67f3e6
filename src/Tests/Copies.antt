-- ===== src/Tests/Copies.antt =====
-- Deep copies at a concrete memory, with raw extensions that point to a text.
use diki_operator.Common.{refl, List, [], ◌∷◌, none, some}
use diki_operator.Common.Int.{pos}
use diki_operator.Api.Meta.{ListMeta, no_meta}
use diki_operator.Api.Scan.{ComplianceScan, ComplianceScanList, ComplianceScanSpec, Condition}
use diki_operator.Api.Scheduled.{ScheduledComplianceScan, ScheduledComplianceScanList}
use diki_operator.Api.Report.{OutputConfigMap}
use diki_operator.Api.ReportOutput.{ReportOutputList}
use diki_operator.Conditions.{ConditionBuilder, empty_condition}
use diki_operator.DeepCopy.Memory.{load}
use diki_operator.DeepCopy.Pointers.{PointsTo}
use diki_operator.DeepCopy.Isolation.{IsIsolated}
use diki_operator.DeepCopy.Layout.{
  StoredComplianceScanSpec, StoredComplianceScan, StoredScheduledComplianceScan,
}
use diki_operator.DeepCopy.Cells.{
  Cell, block, options_config_map_ref_cell, options_cell, ruleset_options_cell,
  ruleset_configs_cell, conditions_cell, output_statuses_cell, compliance_scan_cell, int32_cell,
  time_cell, scheduled_compliance_scan_cell, compliance_scans_cell, compliance_scan_list_cell,
  scheduled_compliance_scans_cell, scheduled_compliance_scan_list_cell, output_config_map_cell,
  report_outputs_cell, report_output_list_cell,
}
use diki_operator.DeepCopy.Cells.Objects.{
  at_compliance_scan_list, at_scheduled_compliance_scan_list, at_report_output_list,
}
use diki_operator.DeepCopy.Scans.{deep_copy_compliance_scan_list}
use diki_operator.DeepCopy.Specs.Laws.{ComplianceScanSpecReads}
use diki_operator.DeepCopy.Scans.Laws.{ComplianceScanReads, ComplianceScanListReads}
use diki_operator.DeepCopy.Schedules.{deep_copy_scheduled_compliance_scan_list}
use diki_operator.DeepCopy.Schedules.Laws.{
  ScheduledComplianceScanReads, ScheduledComplianceScanListReads,
}
use diki_operator.DeepCopy.Outputs.{deep_copy_report_output_list}
use diki_operator.DeepCopy.Outputs.Laws.{ReportOutputListReads}
use diki_operator.DeepCopy.Roots.{lists-IsIsolated}
use diki_operator.DeepCopy.Patch.Base.{IsBase, deep_copy_compliance_scan-IsBase}
use diki_operator.Tests.RawTexts.{foreign, machinery, lawful}

abbrev first_condition : Condition
first_condition = record empty_condition { type = "Completed"; status = "False" }

abbrev stored_spec : StoredComplianceScanSpec foreign
stored_spec = record { rulesets = some 3; outputs = none }

abbrev stored_scan : StoredComplianceScan foreign
stored_scan = record {
  meta = no_meta;
  spec = stored_spec;
  status = record { conditions = some 4; phase = ""; rulesets = none; outputs = some 6 };
}

abbrev stored_scheduled_scan : StoredScheduledComplianceScan foreign
stored_scheduled_scan = record {
  meta = no_meta;
  spec = record {
    schedule = "@daily";
    successful_scans_history_limit = some 8;
    failed_scans_history_limit = none;
    scan_template = record { spec = stored_spec };
  };
  status = record { active = none; last_schedule_time = some 9; last_completion_time = none };
}

abbrev page : ListMeta
page = record { resource_version = "1"; continue = "" }

abbrev target : OutputConfigMap
target = record { namespace = "kube-system"; name_prefix = "report-" }

abbrev memory : List (Cell foreign)
memory =
    options_config_map_ref_cell (record { name = "options"; namespace = "garden"; key = none })
    ∷ options_cell (record { config_map_ref = some 0 })
    ∷ ruleset_options_cell (record { ruleset_options = none; rules = some 1 })
    ∷ ruleset_configs_cell (record { id = "disa"; version = "v2"; options = some 2 } ∷ [])
    ∷ conditions_cell (first_condition ∷ [])
    ∷ block "{}"
    ∷ output_statuses_cell
        (record { output_name = "out"; phase = "Completed"; details = some 5 } ∷ [])
    ∷ compliance_scan_cell stored_scan
    ∷ int32_cell (pos 3)
    ∷ time_cell 7
    ∷ scheduled_compliance_scan_cell stored_scheduled_scan
    ∷ compliance_scans_cell (stored_scan ∷ [])
    ∷ compliance_scan_list_cell (record { list_meta = page; items = some 11 })
    ∷ scheduled_compliance_scans_cell (stored_scheduled_scan ∷ [])
    ∷ scheduled_compliance_scan_list_cell (record { list_meta = page; items = some 13 })
    ∷ output_config_map_cell target
    ∷ report_outputs_cell
        (record { meta = no_meta; spec = record { output = record { config_map = some 15 } } } ∷ [])
    ∷ report_output_list_cell (record { list_meta = page; items = some 16 })
    ∷ []

abbrev spec : ComplianceScanSpec
spec = record {
  rulesets =
      record {
        id = "disa";
        version = "v2";
        options = some (record {
          ruleset_options = none;
          rules = some (record {
            config_map_ref = some (record { name = "options"; namespace = "garden"; key = none });
          });
        });
      }
      ∷ [];
  outputs = [];
}

abbrev scan : ComplianceScan
scan = record {
  meta = no_meta;
  spec = spec;
  status = record {
    conditions = first_condition ∷ [];
    phase = "";
    rulesets = [];
    outputs =
        record { output_name = "out"; phase = "Completed"; details = record { raw = some "{}" } }
        ∷ [];
  };
}

spec_reads : ComplianceScanSpecReads lawful memory stored_spec spec
unfolding load
spec_reads = (
  (_, refl, ((refl, refl, (_, refl, (refl, (_, refl, (_, refl, (refl, refl, refl)))))), tt)),
  refl,
)

scan_reads : ComplianceScanReads lawful memory stored_scan scan
unfolding load
scan_reads = (
  refl,
  spec_reads,
  ((_, refl, (refl, tt)), refl, refl, (_, refl, ((refl, refl, (_, refl, refl)), tt))),
)

abbrev scheduled_scan : ScheduledComplianceScan
scheduled_scan = record {
  meta = no_meta;
  spec = record {
    schedule = "@daily";
    successful_scans_history_limit = some (pos 3);
    failed_scans_history_limit = none;
    scan_template = record { spec = spec };
  };
  status = record { active = none; last_schedule_time = some 7; last_completion_time = none };
}

scheduled_scan_reads :
    ScheduledComplianceScanReads lawful memory stored_scheduled_scan scheduled_scan
unfolding load
scheduled_scan_reads =
    (refl, (refl, (_, refl, refl), refl, spec_reads), (refl, (_, refl, refl), refl))

abbrev scans : ComplianceScanList
scans = record { list_meta = page; items = scan ∷ [] }

abbrev scheduled_scans : ScheduledComplianceScanList
scheduled_scans = record { list_meta = page; items = scheduled_scan ∷ [] }

abbrev report_outputs : ReportOutputList
report_outputs = record {
  list_meta = page;
  items =
      record { meta = no_meta; spec = record { output = record { config_map = some target } } }
      ∷ [];
}

lists-IsIsolated_example :
    IsIsolated
      (PointsTo at_compliance_scan_list (ComplianceScanListReads lawful))
      (deep_copy_compliance_scan_list machinery)
      memory
      (some 12)
      (some scans)
    × IsIsolated
        (PointsTo at_scheduled_compliance_scan_list (ScheduledComplianceScanListReads lawful))
        (deep_copy_scheduled_compliance_scan_list machinery)
        memory
        (some 14)
        (some scheduled_scans)
    × IsIsolated
        (PointsTo at_report_output_list (ReportOutputListReads lawful))
        (deep_copy_report_output_list machinery)
        memory
        (some 17)
        (some report_outputs)
unfolding load
lists-IsIsolated_example =
    lists-IsIsolated lawful memory (some 12) (some 14) (some 17) (some scans) (some scheduled_scans)
      (some report_outputs) (_, refl, (refl, (_, refl, (scan_reads, tt))))
      (_, refl, (refl, (_, refl, (scheduled_scan_reads, tt))))
      (_, refl, (refl, (_, refl, ((refl, (_, refl, refl)), tt))))

abbrev completed : ConditionBuilder
completed = record {
  old = empty_condition;
  status = "True";
  condition_type = "Completed";
  reason = "ComplianceScanCompleted";
  message = "done";
  time = 9;
}

deep_copy_compliance_scan-IsBase_example : IsBase lawful completed memory (some 7) stored_scan scan
unfolding load
deep_copy_compliance_scan-IsBase_example =
    deep_copy_compliance_scan-IsBase lawful completed memory 7 stored_scan scan refl scan_reads
