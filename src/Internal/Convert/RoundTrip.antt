-- ===== src/Internal/Convert/RoundTrip.antt =====
-- The conversions lose nothing, in either direction.
use diki_operator.Common.{◌≡◌}
use diki_operator.Api.Scan.{ComplianceScanList}
use diki_operator.Api.Scheduled.{ScheduledComplianceScanList}
use diki_operator.Api.ReportOutput.{ReportOutputList}
use diki_operator.Internal.Outputs.{
  DikiComplianceScanList, DikiScheduledComplianceScanList, DikiReportOutputList,
}
use diki_operator.Internal.Convert.Outputs.{
  convert_report_output_list_to_diki, convert_compliance_scan_list_to_diki,
  convert_scheduled_compliance_scan_list_to_diki, convert_report_output_list_to_v1alpha1,
  convert_compliance_scan_list_to_v1alpha1, convert_scheduled_compliance_scan_list_to_v1alpha1,
}
use diki_operator.Internal.Convert.Outputs.Laws.{
  convert_compliance_scan_list_to_diki-convert_compliance_scan_list_to_v1alpha1,
  convert_compliance_scan_list_to_v1alpha1-convert_compliance_scan_list_to_diki,
  convert_scheduled_compliance_scan_list_to_diki-convert_scheduled_compliance_scan_list_to_v1alpha1,
  convert_scheduled_compliance_scan_list_to_v1alpha1-convert_scheduled_compliance_scan_list_to_diki,
  convert_report_output_list_to_diki-convert_report_output_list_to_v1alpha1,
  convert_report_output_list_to_v1alpha1-convert_report_output_list_to_diki,
}

-- Lists of ComplianceScans, of ScheduledComplianceScans and of ReportOutputs that are converted to
-- the internal version and back, and internal lists that are converted to v1alpha1 and back, are
-- what they were, in every object, every field and at every depth.
pub lists_round_trip :
    (scans : ComplianceScanList) (scheduled : ScheduledComplianceScanList)
    (outputs : ReportOutputList) (diki_scans : DikiComplianceScanList)
    (diki_scheduled : DikiScheduledComplianceScanList) (diki_outputs : DikiReportOutputList)
    → (convert_compliance_scan_list_to_v1alpha1 (convert_compliance_scan_list_to_diki scans)
        ≡ scans)
      × (convert_scheduled_compliance_scan_list_to_v1alpha1
            (convert_scheduled_compliance_scan_list_to_diki scheduled)
          ≡ scheduled)
      × (convert_report_output_list_to_v1alpha1 (convert_report_output_list_to_diki outputs)
          ≡ outputs)
      × (convert_compliance_scan_list_to_diki (convert_compliance_scan_list_to_v1alpha1 diki_scans)
          ≡ diki_scans)
      × (convert_scheduled_compliance_scan_list_to_diki
            (convert_scheduled_compliance_scan_list_to_v1alpha1 diki_scheduled)
          ≡ diki_scheduled)
      × (convert_report_output_list_to_diki (convert_report_output_list_to_v1alpha1 diki_outputs)
          ≡ diki_outputs)
lists_round_trip scans scheduled outputs diki_scans diki_scheduled diki_outputs = (
  convert_compliance_scan_list_to_v1alpha1-convert_compliance_scan_list_to_diki scans,
  convert_scheduled_compliance_scan_list_to_v1alpha1-convert_scheduled_compliance_scan_list_to_diki
      scheduled,
  convert_report_output_list_to_v1alpha1-convert_report_output_list_to_diki outputs,
  convert_compliance_scan_list_to_diki-convert_compliance_scan_list_to_v1alpha1 diki_scans,
  convert_scheduled_compliance_scan_list_to_diki-convert_scheduled_compliance_scan_list_to_v1alpha1
      diki_scheduled,
  convert_report_output_list_to_diki-convert_report_output_list_to_v1alpha1 diki_outputs,
)
