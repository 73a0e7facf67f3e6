-- ===== src/Api/Report.antt =====
-- The configuration of outputs: pkg/apis/diki/v1alpha1/types_reportoutput.go and
-- pkg/apis/reportexporter/v1alpha1/types.go.
use diki_operator.Common.{String, List}
use diki_operator.Api.Meta.{RawExtension}

pub record OutputConfigMap : Type 0 where
  pub namespace : String
  pub name_prefix : String

abbrev pub OutputType : Type 0
OutputType = String

abbrev pub exporter_type_config_map : OutputType
exporter_type_config_map = "ConfigMap"

pub record Output : Type 0 where
  pub type : OutputType
  pub name : String
  pub config : RawExtension

pub record ReportExporterConfiguration : Type 0 where
  pub report_path : String
  pub compliance_scan_name : String
  pub outputs : List Output
