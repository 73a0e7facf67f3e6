-- ===== src/Api/Scheduled.antt =====
-- pkg/apis/diki/v1alpha1/types_scheduledcompliancescan.go: the ScheduledComplianceScan resource.
use diki_operator.Common.{String, List, Option}
use diki_operator.Common.Int.{ℤ}
use diki_operator.Api.Meta.{Time, ListMeta, ObjectMeta, ObjectReference}
use diki_operator.Api.Scan.{ComplianceScanSpec}

pub record ScheduledComplianceScanTemplate : Type 0 where
  pub spec : ComplianceScanSpec

pub record ScheduledComplianceScanSpec : Type 0 where
  pub schedule : String
  pub successful_scans_history_limit : Option ℤ
  pub failed_scans_history_limit : Option ℤ
  pub scan_template : ScheduledComplianceScanTemplate

pub record ScheduledComplianceScanStatus : Type 0 where
  pub active : Option ObjectReference
  pub last_schedule_time : Option Time
  pub last_completion_time : Option Time

pub record ScheduledComplianceScan : Type 0 where
  pub meta : ObjectMeta
  pub spec : ScheduledComplianceScanSpec
  pub status : ScheduledComplianceScanStatus

pub record ScheduledComplianceScanList : Type 0 where
  pub list_meta : ListMeta
  pub items : List ScheduledComplianceScan
