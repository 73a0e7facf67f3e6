-- ===== src/Internal/Convert/Outputs.antt =====
-- zz_generated.conversion.go: the conversions of ReportOutputs and of the lists of resources. The
-- source casts a slice of items without a call, as the layouts of both versions agree; here each
-- element is converted, with the same effect.
pub mod Laws
use mathlib.Core.Option
use diki_operator.Common.{map}
use diki_operator.Api.Scan.{ComplianceScanList}
use diki_operator.Api.Scheduled.{ScheduledComplianceScanList}
use diki_operator.Api.Report.{OutputConfigMap}
use diki_operator.Api.ReportOutput.{Output, ReportOutputSpec, ReportOutput, ReportOutputList}
use diki_operator.Internal.Outputs.{
  DikiOutputConfigMap, DikiOutput, DikiReportOutputSpec, DikiReportOutput, DikiReportOutputList,
  DikiComplianceScanList, DikiScheduledComplianceScanList,
}
use diki_operator.Internal.Convert.ToDiki.{
  convert_compliance_scan_to_diki, convert_scheduled_compliance_scan_to_diki,
}
use diki_operator.Internal.Convert.ToV1alpha1.{
  convert_compliance_scan_to_v1alpha1, convert_scheduled_compliance_scan_to_v1alpha1,
}

unfoldable pub convert_output_config_map_to_diki : OutputConfigMap → DikiOutputConfigMap
convert_output_config_map_to_diki x = record {
  namespace = x.namespace;
  name_prefix = x.name_prefix;
}

unfoldable pub convert_output_to_diki : Output → DikiOutput
convert_output_to_diki x = record {
  config_map = Option.map convert_output_config_map_to_diki x.config_map;
}

unfoldable pub convert_report_output_spec_to_diki : ReportOutputSpec → DikiReportOutputSpec
convert_report_output_spec_to_diki x = record { output = convert_output_to_diki x.output }

unfoldable pub convert_report_output_to_diki : ReportOutput → DikiReportOutput
convert_report_output_to_diki x = record {
  meta = x.meta;
  spec = convert_report_output_spec_to_diki x.spec;
}

unfoldable pub convert_report_output_list_to_diki : ReportOutputList → DikiReportOutputList
convert_report_output_list_to_diki x = record {
  list_meta = x.list_meta;
  items = map convert_report_output_to_diki x.items;
}

unfoldable pub convert_compliance_scan_list_to_diki : ComplianceScanList → DikiComplianceScanList
convert_compliance_scan_list_to_diki x = record {
  list_meta = x.list_meta;
  items = map convert_compliance_scan_to_diki x.items;
}

unfoldable pub convert_scheduled_compliance_scan_list_to_diki :
    ScheduledComplianceScanList → DikiScheduledComplianceScanList
convert_scheduled_compliance_scan_list_to_diki x = record {
  list_meta = x.list_meta;
  items = map convert_scheduled_compliance_scan_to_diki x.items;
}

unfoldable pub convert_output_config_map_to_v1alpha1 : DikiOutputConfigMap → OutputConfigMap
convert_output_config_map_to_v1alpha1 x = record {
  namespace = x.namespace;
  name_prefix = x.name_prefix;
}

unfoldable pub convert_output_to_v1alpha1 : DikiOutput → Output
convert_output_to_v1alpha1 x = record {
  config_map = Option.map convert_output_config_map_to_v1alpha1 x.config_map;
}

unfoldable pub convert_report_output_spec_to_v1alpha1 : DikiReportOutputSpec → ReportOutputSpec
convert_report_output_spec_to_v1alpha1 x = record { output = convert_output_to_v1alpha1 x.output }

unfoldable pub convert_report_output_to_v1alpha1 : DikiReportOutput → ReportOutput
convert_report_output_to_v1alpha1 x = record {
  meta = x.meta;
  spec = convert_report_output_spec_to_v1alpha1 x.spec;
}

unfoldable pub convert_report_output_list_to_v1alpha1 : DikiReportOutputList → ReportOutputList
convert_report_output_list_to_v1alpha1 x = record {
  list_meta = x.list_meta;
  items = map convert_report_output_to_v1alpha1 x.items;
}

unfoldable pub convert_compliance_scan_list_to_v1alpha1 :
    DikiComplianceScanList → ComplianceScanList
convert_compliance_scan_list_to_v1alpha1 x = record {
  list_meta = x.list_meta;
  items = map convert_compliance_scan_to_v1alpha1 x.items;
}

unfoldable pub convert_scheduled_compliance_scan_list_to_v1alpha1 :
    DikiScheduledComplianceScanList → ScheduledComplianceScanList
convert_scheduled_compliance_scan_list_to_v1alpha1 x = record {
  list_meta = x.list_meta;
  items = map convert_scheduled_compliance_scan_to_v1alpha1 x.items;
}
