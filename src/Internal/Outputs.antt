-- ===== src/Internal/Outputs.antt =====
-- pkg/apis/diki/types_reportoutput.go, and the lists of the three internal resources.
use diki_operator.Common.{String, List, Option}
use diki_operator.Api.Meta.{ListMeta, ObjectMeta}
use diki_operator.Internal.Scan.{DikiComplianceScan}
use diki_operator.Internal.Scheduled.{DikiScheduledComplianceScan}

pub record DikiOutputConfigMap : Type 0 where
  pub namespace : String
  pub name_prefix : String

pub record DikiOutput : Type 0 where
  pub config_map : Option DikiOutputConfigMap

pub record DikiReportOutputSpec : Type 0 where
  pub output : DikiOutput

pub record DikiReportOutput : Type 0 where
  pub meta : ObjectMeta
  pub spec : DikiReportOutputSpec

pub record DikiReportOutputList : Type 0 where
  pub list_meta : ListMeta
  pub items : List DikiReportOutput

pub record DikiComplianceScanList : Type 0 where
  pub list_meta : ListMeta
  pub items : List DikiComplianceScan

pub record DikiScheduledComplianceScanList : Type 0 where
  pub list_meta : ListMeta
  pub items : List DikiScheduledComplianceScan
