-- ===== src/DeepCopy/Cells/Objects.antt =====
-- How a resource, and its spec and its status, stand in a cell.
use diki_operator.Api.Report.{OutputConfigMap}
use diki_operator.Common.{none, some, refl}
use diki_operator.DeepCopy.Memory.{Store}
use diki_operator.DeepCopy.Layout.{
  Foreign, StoredComplianceScanSpec, StoredComplianceScanStatus, StoredComplianceScan,
  StoredComplianceScanList, StoredOutput, StoredReportOutputSpec, StoredReportOutput,
  StoredReportOutputList, StoredScheduledComplianceScanTemplate, StoredScheduledComplianceScanSpec,
  StoredScheduledComplianceScanStatus, StoredScheduledComplianceScan,
  StoredScheduledComplianceScanList,
}
use diki_operator.DeepCopy.Cells.{
  Cell, compliance_scan_spec_cell, compliance_scan_status_cell, compliance_scan_cell,
  compliance_scan_list_cell, output_config_map_cell, output_cell, report_output_spec_cell,
  report_output_cell, report_output_list_cell, scheduled_compliance_scan_template_cell,
  scheduled_compliance_scan_spec_cell, scheduled_compliance_scan_status_cell,
  scheduled_compliance_scan_cell, scheduled_compliance_scan_list_cell,
}

module _ {F : Foreign} where
  abbrev pub at_compliance_scan_spec : Store (Cell F) (StoredComplianceScanSpec F)
  at_compliance_scan_spec = record {
    put = compliance_scan_spec_cell;
    get = λ c. elim c [ compliance_scan_spec_cell x ↦ some x | _ ↦ none ];
    get-put = λ x. refl;
  }

  abbrev pub at_compliance_scan_status : Store (Cell F) (StoredComplianceScanStatus F)
  at_compliance_scan_status = record {
    put = compliance_scan_status_cell;
    get = λ c. elim c [ compliance_scan_status_cell x ↦ some x | _ ↦ none ];
    get-put = λ x. refl;
  }

  abbrev pub at_compliance_scan : Store (Cell F) (StoredComplianceScan F)
  at_compliance_scan = record {
    put = compliance_scan_cell;
    get = λ c. elim c [ compliance_scan_cell x ↦ some x | _ ↦ none ];
    get-put = λ x. refl;
  }

  abbrev pub at_compliance_scan_list : Store (Cell F) (StoredComplianceScanList F)
  at_compliance_scan_list = record {
    put = compliance_scan_list_cell;
    get = λ c. elim c [ compliance_scan_list_cell x ↦ some x | _ ↦ none ];
    get-put = λ x. refl;
  }

  abbrev pub at_output_config_map : Store (Cell F) OutputConfigMap
  at_output_config_map = record {
    put = output_config_map_cell;
    get = λ c. elim c [ output_config_map_cell x ↦ some x | _ ↦ none ];
    get-put = λ x. refl;
  }

  abbrev pub at_output : Store (Cell F) (StoredOutput F)
  at_output = record {
    put = output_cell;
    get = λ c. elim c [ output_cell x ↦ some x | _ ↦ none ];
    get-put = λ x. refl;
  }

  abbrev pub at_report_output_spec : Store (Cell F) (StoredReportOutputSpec F)
  at_report_output_spec = record {
    put = report_output_spec_cell;
    get = λ c. elim c [ report_output_spec_cell x ↦ some x | _ ↦ none ];
    get-put = λ x. refl;
  }

  abbrev pub at_report_output : Store (Cell F) (StoredReportOutput F)
  at_report_output = record {
    put = report_output_cell;
    get = λ c. elim c [ report_output_cell x ↦ some x | _ ↦ none ];
    get-put = λ x. refl;
  }

  abbrev pub at_report_output_list : Store (Cell F) (StoredReportOutputList F)
  at_report_output_list = record {
    put = report_output_list_cell;
    get = λ c. elim c [ report_output_list_cell x ↦ some x | _ ↦ none ];
    get-put = λ x. refl;
  }

  abbrev pub at_scheduled_compliance_scan_template :
      Store (Cell F) (StoredScheduledComplianceScanTemplate F)
  at_scheduled_compliance_scan_template = record {
    put = scheduled_compliance_scan_template_cell;
    get = λ c. elim c [ scheduled_compliance_scan_template_cell x ↦ some x | _ ↦ none ];
    get-put = λ x. refl;
  }

  abbrev pub at_scheduled_compliance_scan_spec :
      Store (Cell F) (StoredScheduledComplianceScanSpec F)
  at_scheduled_compliance_scan_spec = record {
    put = scheduled_compliance_scan_spec_cell;
    get = λ c. elim c [ scheduled_compliance_scan_spec_cell x ↦ some x | _ ↦ none ];
    get-put = λ x. refl;
  }

  abbrev pub at_scheduled_compliance_scan_status :
      Store (Cell F) (StoredScheduledComplianceScanStatus F)
  at_scheduled_compliance_scan_status = record {
    put = scheduled_compliance_scan_status_cell;
    get = λ c. elim c [ scheduled_compliance_scan_status_cell x ↦ some x | _ ↦ none ];
    get-put = λ x. refl;
  }

  abbrev pub at_scheduled_compliance_scan : Store (Cell F) (StoredScheduledComplianceScan F)
  at_scheduled_compliance_scan = record {
    put = scheduled_compliance_scan_cell;
    get = λ c. elim c [ scheduled_compliance_scan_cell x ↦ some x | _ ↦ none ];
    get-put = λ x. refl;
  }

  abbrev pub at_scheduled_compliance_scan_list :
      Store (Cell F) (StoredScheduledComplianceScanList F)
  at_scheduled_compliance_scan_list = record {
    put = scheduled_compliance_scan_list_cell;
    get = λ c. elim c [ scheduled_compliance_scan_list_cell x ↦ some x | _ ↦ none ];
    get-put = λ x. refl;
  }
