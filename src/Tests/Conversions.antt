-- ===== src/Tests/Conversions.antt =====
-- The conversions, there and back.
use diki_operator.Common.{◌≡◌, [], ◌∷◌, some}
use diki_operator.Api.Meta.{no_meta, ListMeta}
use diki_operator.Api.Scan.{ComplianceScanList}
use diki_operator.Api.Scheduled.{ScheduledComplianceScanList}
use diki_operator.Api.ReportOutput.{ReportOutputList}
use diki_operator.Internal.Convert.Outputs.{
  convert_compliance_scan_list_to_diki, convert_compliance_scan_list_to_v1alpha1,
  convert_scheduled_compliance_scan_list_to_diki,
  convert_scheduled_compliance_scan_list_to_v1alpha1, convert_report_output_list_to_diki,
  convert_report_output_list_to_v1alpha1,
}
use diki_operator.Internal.Convert.RoundTrip.{lists_round_trip}
use diki_operator.Tests.Data.{new_scan, parent}

abbrev first_page : ListMeta
first_page = record { resource_version = "7"; continue = "next" }

abbrev scans : ComplianceScanList
scans = record { list_meta = first_page; items = new_scan ∷ [] }

abbrev parents : ScheduledComplianceScanList
parents = record { list_meta = first_page; items = parent ∷ [] }

abbrev report_outputs : ReportOutputList
report_outputs = record {
  list_meta = first_page;
  items =
      record {
        meta = no_meta;
        spec = record {
          output = record {
            config_map = some (record { namespace = "kube-system"; name_prefix = "report-" });
          };
        };
      }
      ∷ [];
}

lists_round_trip_example :
    (convert_compliance_scan_list_to_v1alpha1 (convert_compliance_scan_list_to_diki scans) ≡ scans)
    × (convert_scheduled_compliance_scan_list_to_v1alpha1
          (convert_scheduled_compliance_scan_list_to_diki parents)
        ≡ parents)
    × (convert_report_output_list_to_v1alpha1 (convert_report_output_list_to_diki report_outputs)
        ≡ report_outputs)
    × (convert_compliance_scan_list_to_diki
          (convert_compliance_scan_list_to_v1alpha1 (convert_compliance_scan_list_to_diki scans))
        ≡ convert_compliance_scan_list_to_diki scans)
    × (convert_scheduled_compliance_scan_list_to_diki (
          convert_scheduled_compliance_scan_list_to_v1alpha1
            (convert_scheduled_compliance_scan_list_to_diki parents))
        ≡ convert_scheduled_compliance_scan_list_to_diki parents)
    × (convert_report_output_list_to_diki (
          convert_report_output_list_to_v1alpha1
            (convert_report_output_list_to_diki report_outputs))
        ≡ convert_report_output_list_to_diki report_outputs)
lists_round_trip_example =
    lists_round_trip scans parents report_outputs (convert_compliance_scan_list_to_diki scans)
      (convert_scheduled_compliance_scan_list_to_diki parents)
      (convert_report_output_list_to_diki report_outputs)
