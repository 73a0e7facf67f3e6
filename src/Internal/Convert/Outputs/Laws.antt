-- ===== src/Internal/Convert/Outputs/Laws.antt =====
-- ReportOutputs and lists of resources come back from the other version as they were.
use diki_operator.Common.{◌≡◌, refl}
use diki_operator.Api.Scan.{ComplianceScanList}
use diki_operator.Api.Scheduled.{ScheduledComplianceScanList}
use diki_operator.Api.Report.{OutputConfigMap}
use diki_operator.Api.ReportOutput.{Output, ReportOutputSpec, ReportOutput, ReportOutputList}
use diki_operator.Internal.Outputs.{
  DikiOutputConfigMap, DikiOutput, DikiReportOutputSpec, DikiReportOutput, DikiReportOutputList,
  DikiComplianceScanList, DikiScheduledComplianceScanList,
}
use diki_operator.Internal.Convert.ToDiki.{
  convert_compliance_scan_to_diki, convert_scheduled_compliance_scan_to_diki,
}
use diki_operator.Internal.Convert.ToV1alpha1.{
  convert_compliance_scan_to_v1alpha1, convert_scheduled_compliance_scan_to_v1alpha1,
}
use diki_operator.Internal.Convert.External.{
  convert_compliance_scan_to_v1alpha1-convert_compliance_scan_to_diki,
}
use diki_operator.Internal.Convert.External.Scheduled.{
  convert_scheduled_compliance_scan_to_v1alpha1-convert_scheduled_compliance_scan_to_diki,
}
use diki_operator.Internal.Convert.Internal.{
  convert_compliance_scan_to_diki-convert_compliance_scan_to_v1alpha1,
}
use diki_operator.Internal.Convert.Internal.Scheduled.{
  convert_scheduled_compliance_scan_to_diki-convert_scheduled_compliance_scan_to_v1alpha1,
}
use diki_operator.Internal.Convert.Maps.{map-map_id, option_map-option_map_id}
use diki_operator.Internal.Convert.Outputs.{
  convert_output_config_map_to_diki, convert_output_to_diki, convert_report_output_spec_to_diki,
  convert_report_output_to_diki, convert_report_output_list_to_diki,
  convert_compliance_scan_list_to_diki, convert_scheduled_compliance_scan_list_to_diki,
  convert_output_config_map_to_v1alpha1, convert_output_to_v1alpha1,
  convert_report_output_spec_to_v1alpha1, convert_report_output_to_v1alpha1,
  convert_report_output_list_to_v1alpha1, convert_compliance_scan_list_to_v1alpha1,
  convert_scheduled_compliance_scan_list_to_v1alpha1,
}

pub convert_output_config_map_to_v1alpha1-convert_output_config_map_to_diki :
    (x : OutputConfigMap)
    → convert_output_config_map_to_v1alpha1 (convert_output_config_map_to_diki x) ≡ x
unfolding convert_output_config_map_to_v1alpha1 convert_output_config_map_to_diki
convert_output_config_map_to_v1alpha1-convert_output_config_map_to_diki x = refl

pub convert_output_to_v1alpha1-convert_output_to_diki :
    (x : Output) → convert_output_to_v1alpha1 (convert_output_to_diki x) ≡ x
unfolding convert_output_to_v1alpha1 convert_output_to_diki
convert_output_to_v1alpha1-convert_output_to_diki x = λ i. record {
  config_map =
      option_map-option_map_id convert_output_config_map_to_v1alpha1
        convert_output_config_map_to_diki
        convert_output_config_map_to_v1alpha1-convert_output_config_map_to_diki x.config_map i;
}

pub convert_report_output_spec_to_v1alpha1-convert_report_output_spec_to_diki :
    (x : ReportOutputSpec)
    → convert_report_output_spec_to_v1alpha1 (convert_report_output_spec_to_diki x) ≡ x
unfolding convert_report_output_spec_to_v1alpha1 convert_report_output_spec_to_diki
convert_report_output_spec_to_v1alpha1-convert_report_output_spec_to_diki x =
    λ i. record { output = convert_output_to_v1alpha1-convert_output_to_diki x.output i }

pub convert_report_output_to_v1alpha1-convert_report_output_to_diki :
    (x : ReportOutput) → convert_report_output_to_v1alpha1 (convert_report_output_to_diki x) ≡ x
unfolding convert_report_output_to_v1alpha1 convert_report_output_to_diki
convert_report_output_to_v1alpha1-convert_report_output_to_diki x = λ i. record {
  meta = x.meta;
  spec = convert_report_output_spec_to_v1alpha1-convert_report_output_spec_to_diki x.spec i;
}

pub convert_report_output_list_to_v1alpha1-convert_report_output_list_to_diki :
    (x : ReportOutputList)
    → convert_report_output_list_to_v1alpha1 (convert_report_output_list_to_diki x) ≡ x
unfolding convert_report_output_list_to_v1alpha1 convert_report_output_list_to_diki
convert_report_output_list_to_v1alpha1-convert_report_output_list_to_diki x = λ i. record {
  list_meta = x.list_meta;
  items =
      map-map_id convert_report_output_to_v1alpha1 convert_report_output_to_diki
        convert_report_output_to_v1alpha1-convert_report_output_to_diki x.items i;
}

pub convert_compliance_scan_list_to_v1alpha1-convert_compliance_scan_list_to_diki :
    (x : ComplianceScanList)
    → convert_compliance_scan_list_to_v1alpha1 (convert_compliance_scan_list_to_diki x) ≡ x
unfolding convert_compliance_scan_list_to_v1alpha1 convert_compliance_scan_list_to_diki
convert_compliance_scan_list_to_v1alpha1-convert_compliance_scan_list_to_diki x = λ i. record {
  list_meta = x.list_meta;
  items =
      map-map_id convert_compliance_scan_to_v1alpha1 convert_compliance_scan_to_diki
        convert_compliance_scan_to_v1alpha1-convert_compliance_scan_to_diki x.items i;
}

pub convert_scheduled_compliance_scan_list_to_v1alpha1-convert_scheduled_compliance_scan_list_to_diki :
    (x : ScheduledComplianceScanList)
    → convert_scheduled_compliance_scan_list_to_v1alpha1
        (convert_scheduled_compliance_scan_list_to_diki x)
      ≡ x
unfolding convert_scheduled_compliance_scan_list_to_v1alpha1
    convert_scheduled_compliance_scan_list_to_diki
convert_scheduled_compliance_scan_list_to_v1alpha1-convert_scheduled_compliance_scan_list_to_diki
      x =
    λ i. record {
      list_meta = x.list_meta;
      items =
          map-map_id convert_scheduled_compliance_scan_to_v1alpha1
            convert_scheduled_compliance_scan_to_diki
            convert_scheduled_compliance_scan_to_v1alpha1-convert_scheduled_compliance_scan_to_diki
            x.items i;
    }

pub convert_output_config_map_to_diki-convert_output_config_map_to_v1alpha1 :
    (x : DikiOutputConfigMap)
    → convert_output_config_map_to_diki (convert_output_config_map_to_v1alpha1 x) ≡ x
unfolding convert_output_config_map_to_diki convert_output_config_map_to_v1alpha1
convert_output_config_map_to_diki-convert_output_config_map_to_v1alpha1 x = refl

pub convert_output_to_diki-convert_output_to_v1alpha1 :
    (x : DikiOutput) → convert_output_to_diki (convert_output_to_v1alpha1 x) ≡ x
unfolding convert_output_to_diki convert_output_to_v1alpha1
convert_output_to_diki-convert_output_to_v1alpha1 x = λ i. record {
  config_map =
      option_map-option_map_id convert_output_config_map_to_diki
        convert_output_config_map_to_v1alpha1
        convert_output_config_map_to_diki-convert_output_config_map_to_v1alpha1 x.config_map i;
}

pub convert_report_output_spec_to_diki-convert_report_output_spec_to_v1alpha1 :
    (x : DikiReportOutputSpec)
    → convert_report_output_spec_to_diki (convert_report_output_spec_to_v1alpha1 x) ≡ x
unfolding convert_report_output_spec_to_diki convert_report_output_spec_to_v1alpha1
convert_report_output_spec_to_diki-convert_report_output_spec_to_v1alpha1 x =
    λ i. record { output = convert_output_to_diki-convert_output_to_v1alpha1 x.output i }

pub convert_report_output_to_diki-convert_report_output_to_v1alpha1 :
    (x : DikiReportOutput) → convert_report_output_to_diki (convert_report_output_to_v1alpha1 x) ≡ x
unfolding convert_report_output_to_diki convert_report_output_to_v1alpha1
convert_report_output_to_diki-convert_report_output_to_v1alpha1 x = λ i. record {
  meta = x.meta;
  spec = convert_report_output_spec_to_diki-convert_report_output_spec_to_v1alpha1 x.spec i;
}

pub convert_report_output_list_to_diki-convert_report_output_list_to_v1alpha1 :
    (x : DikiReportOutputList)
    → convert_report_output_list_to_diki (convert_report_output_list_to_v1alpha1 x) ≡ x
unfolding convert_report_output_list_to_diki convert_report_output_list_to_v1alpha1
convert_report_output_list_to_diki-convert_report_output_list_to_v1alpha1 x = λ i. record {
  list_meta = x.list_meta;
  items =
      map-map_id convert_report_output_to_diki convert_report_output_to_v1alpha1
        convert_report_output_to_diki-convert_report_output_to_v1alpha1 x.items i;
}

pub convert_compliance_scan_list_to_diki-convert_compliance_scan_list_to_v1alpha1 :
    (x : DikiComplianceScanList)
    → convert_compliance_scan_list_to_diki (convert_compliance_scan_list_to_v1alpha1 x) ≡ x
unfolding convert_compliance_scan_list_to_diki convert_compliance_scan_list_to_v1alpha1
convert_compliance_scan_list_to_diki-convert_compliance_scan_list_to_v1alpha1 x = λ i. record {
  list_meta = x.list_meta;
  items =
      map-map_id convert_compliance_scan_to_diki convert_compliance_scan_to_v1alpha1
        convert_compliance_scan_to_diki-convert_compliance_scan_to_v1alpha1 x.items i;
}

pub convert_scheduled_compliance_scan_list_to_diki-convert_scheduled_compliance_scan_list_to_v1alpha1 :
    (x : DikiScheduledComplianceScanList)
    → convert_scheduled_compliance_scan_list_to_diki
        (convert_scheduled_compliance_scan_list_to_v1alpha1 x)
      ≡ x
unfolding convert_scheduled_compliance_scan_list_to_diki
    convert_scheduled_compliance_scan_list_to_v1alpha1
convert_scheduled_compliance_scan_list_to_diki-convert_scheduled_compliance_scan_list_to_v1alpha1
      x =
    λ i. record {
      list_meta = x.list_meta;
      items =
          map-map_id convert_scheduled_compliance_scan_to_diki
            convert_scheduled_compliance_scan_to_v1alpha1
            convert_scheduled_compliance_scan_to_diki-convert_scheduled_compliance_scan_to_v1alpha1
            x.items i;
    }
