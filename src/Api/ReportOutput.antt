-- ===== src/Api/ReportOutput.antt =====
-- pkg/apis/diki/v1alpha1/types_reportoutput.go: the ReportOutput resource.
use diki_operator.Common.{List, Option}
use diki_operator.Api.Meta.{ListMeta, ObjectMeta}
use diki_operator.Api.Report.{OutputConfigMap}

pub record Output : Type 0 where
  pub config_map : Option OutputConfigMap

pub record ReportOutputSpec : Type 0 where
  pub output : Output

pub record ReportOutput : Type 0 where
  pub meta : ObjectMeta
  pub spec : ReportOutputSpec

pub record ReportOutputList : Type 0 where
  pub list_meta : ListMeta
  pub items : List ReportOutput
