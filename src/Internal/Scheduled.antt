-- ===== src/Internal/Scheduled.antt =====
-- pkg/apis/diki/types_scheduledcompliancescan.go: the internal ScheduledComplianceScan.
use diki_operator.Common.{String, Option}
use diki_operator.Common.Int.{ℤ}
use diki_operator.Api.Meta.{Time, ObjectMeta, ObjectReference}
use diki_operator.Internal.Scan.{DikiComplianceScanSpec}

pub record DikiScheduledComplianceScanTemplate : Type 0 where
  pub spec : DikiComplianceScanSpec

pub record DikiScheduledComplianceScanSpec : Type 0 where
  pub schedule : String
  pub successful_scans_history_limit : Option ℤ
  pub failed_scans_history_limit : Option ℤ
  pub scan_template : DikiScheduledComplianceScanTemplate

pub record DikiScheduledComplianceScanStatus : Type 0 where
  pub active : Option ObjectReference
  pub last_schedule_time : Option Time
  pub last_completion_time : Option Time

pub record DikiScheduledComplianceScan : Type 0 where
  pub meta : ObjectMeta
  pub spec : DikiScheduledComplianceScanSpec
  pub status : DikiScheduledComplianceScanStatus
