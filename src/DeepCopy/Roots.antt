-- ===== src/DeepCopy/Roots.antt =====
-- The copies of the objects that the API server keeps, by their `DeepCopy` methods.
use diki_operator.Common.{List, Option}
use diki_operator.Api.Scan.{ComplianceScanList}
use diki_operator.Api.Scheduled.{ScheduledComplianceScanList}
use diki_operator.Api.ReportOutput.{ReportOutputList}
use diki_operator.DeepCopy.Memory.{Pointer}
use diki_operator.DeepCopy.Fresh.{IsDeepCopy}
use diki_operator.DeepCopy.Isolation.{IsIsolated, copies-IsIsolated}
use diki_operator.DeepCopy.Pointers.{PointsTo, copy_pointer-IsDeepCopy}
use diki_operator.DeepCopy.Layout.{Foreign}
use diki_operator.DeepCopy.Cells.{Cell}
use diki_operator.DeepCopy.Cells.Objects.{
  at_compliance_scan, at_compliance_scan_list, at_report_output, at_report_output_list,
  at_scheduled_compliance_scan, at_scheduled_compliance_scan_list,
}
use diki_operator.DeepCopy.Machinery.{Machinery, IsMachinery}
use diki_operator.DeepCopy.Scans.{deep_copy_compliance_scan, deep_copy_compliance_scan_list}
use diki_operator.DeepCopy.Scans.Laws.{
  ComplianceScanReads, deep_copy_into_compliance_scan-IsDeepCopy, ComplianceScanListReads,
  deep_copy_into_compliance_scan_list-IsDeepCopy,
}
use diki_operator.DeepCopy.Outputs.{deep_copy_report_output, deep_copy_report_output_list}
use diki_operator.DeepCopy.Outputs.Laws.{
  ReportOutputReads, deep_copy_into_report_output-IsDeepCopy, ReportOutputListReads,
  deep_copy_into_report_output_list-IsDeepCopy,
}
use diki_operator.DeepCopy.Schedules.{
  deep_copy_scheduled_compliance_scan, deep_copy_scheduled_compliance_scan_list,
}
use diki_operator.DeepCopy.Schedules.Laws.{
  ScheduledComplianceScanReads, deep_copy_into_scheduled_compliance_scan-IsDeepCopy,
  ScheduledComplianceScanListReads, deep_copy_into_scheduled_compliance_scan_list-IsDeepCopy,
}

module _ {F : Foreign} {K : Machinery F} (L : IsMachinery K) where
  pub deep_copy_compliance_scan-IsDeepCopy :
      IsDeepCopy (PointsTo at_compliance_scan (ComplianceScanReads L)) (deep_copy_compliance_scan K)
  unfolding deep_copy_compliance_scan
  deep_copy_compliance_scan-IsDeepCopy =
      copy_pointer-IsDeepCopy (deep_copy_into_compliance_scan-IsDeepCopy L) at_compliance_scan

  pub deep_copy_compliance_scan_list-IsDeepCopy :
      IsDeepCopy
        (PointsTo at_compliance_scan_list (ComplianceScanListReads L))
        (deep_copy_compliance_scan_list K)
  unfolding deep_copy_compliance_scan_list
  deep_copy_compliance_scan_list-IsDeepCopy =
      copy_pointer-IsDeepCopy (deep_copy_into_compliance_scan_list-IsDeepCopy L)
        at_compliance_scan_list

  pub deep_copy_report_output-IsDeepCopy :
      IsDeepCopy (PointsTo at_report_output (ReportOutputReads L)) (deep_copy_report_output K)
  unfolding deep_copy_report_output
  deep_copy_report_output-IsDeepCopy =
      copy_pointer-IsDeepCopy (deep_copy_into_report_output-IsDeepCopy L) at_report_output

  pub deep_copy_report_output_list-IsDeepCopy :
      IsDeepCopy
        (PointsTo at_report_output_list (ReportOutputListReads L))
        (deep_copy_report_output_list K)
  unfolding deep_copy_report_output_list
  deep_copy_report_output_list-IsDeepCopy =
      copy_pointer-IsDeepCopy (deep_copy_into_report_output_list-IsDeepCopy L) at_report_output_list

  pub deep_copy_scheduled_compliance_scan-IsDeepCopy :
      IsDeepCopy
        (PointsTo at_scheduled_compliance_scan (ScheduledComplianceScanReads L))
        (deep_copy_scheduled_compliance_scan K)
  unfolding deep_copy_scheduled_compliance_scan
  deep_copy_scheduled_compliance_scan-IsDeepCopy =
      copy_pointer-IsDeepCopy (deep_copy_into_scheduled_compliance_scan-IsDeepCopy L)
        at_scheduled_compliance_scan

  pub deep_copy_scheduled_compliance_scan_list-IsDeepCopy :
      IsDeepCopy
        (PointsTo at_scheduled_compliance_scan_list (ScheduledComplianceScanListReads L))
        (deep_copy_scheduled_compliance_scan_list K)
  unfolding deep_copy_scheduled_compliance_scan_list
  deep_copy_scheduled_compliance_scan_list-IsDeepCopy =
      copy_pointer-IsDeepCopy (deep_copy_into_scheduled_compliance_scan_list-IsDeepCopy L)
        at_scheduled_compliance_scan_list

  -- If three pointers read as lists of ComplianceScans, of ScheduledComplianceScans and of
  -- ReportOutputs (or are nil), then `DeepCopy` of each returns, the pointer reads as before, and
  -- however the memory changes afterwards without a write to a cell that the copy made, the copy
  -- reads as that list, each object with all its parts.
  pub lists-IsIsolated :
      (m : List (Cell F)) (p q r : Pointer) (scans : Option ComplianceScanList)
      (scheduled : Option ScheduledComplianceScanList) (outputs : Option ReportOutputList)
      → PointsTo at_compliance_scan_list (ComplianceScanListReads L) m p scans
      → PointsTo at_scheduled_compliance_scan_list
          (ScheduledComplianceScanListReads L)
          m
          q
          scheduled
      → PointsTo at_report_output_list (ReportOutputListReads L) m r outputs
      → IsIsolated
          (PointsTo at_compliance_scan_list (ComplianceScanListReads L))
          (deep_copy_compliance_scan_list K)
          m
          p
          scans
        × IsIsolated
            (PointsTo at_scheduled_compliance_scan_list (ScheduledComplianceScanListReads L))
            (deep_copy_scheduled_compliance_scan_list K)
            m
            q
            scheduled
        × IsIsolated
            (PointsTo at_report_output_list (ReportOutputListReads L))
            (deep_copy_report_output_list K)
            m
            r
            outputs
  lists-IsIsolated m p q r scans scheduled outputs read_scans read_scheduled read_outputs = (
    copies-IsIsolated deep_copy_compliance_scan_list-IsDeepCopy m p scans read_scans,
    copies-IsIsolated deep_copy_scheduled_compliance_scan_list-IsDeepCopy m q scheduled
        read_scheduled,
    copies-IsIsolated deep_copy_report_output_list-IsDeepCopy m r outputs read_outputs,
  )
