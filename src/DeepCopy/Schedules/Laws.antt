-- ===== src/DeepCopy/Schedules/Laws.antt =====
-- What a ScheduledComplianceScan and its parts reads as in a memory, and that its copies are deep copies.
use diki_operator.Api.Scheduled.{
  ScheduledComplianceScanTemplate, ScheduledComplianceScanSpec, ScheduledComplianceScanStatus,
  ScheduledComplianceScan, ScheduledComplianceScanList,
}
use diki_operator.Common.{◌≡◌}
use diki_operator.DeepCopy.Fresh.{Reading, IsDeepCopy}
use diki_operator.DeepCopy.Pointers.{
  Itself, PointsTo, Elements, assign-IsDeepCopy, copy_pointer-IsDeepCopy, copy_slice-IsDeepCopy,
  one, two, three,
}
use diki_operator.DeepCopy.Layout.{
  Foreign, StoredScheduledComplianceScanTemplate, StoredScheduledComplianceScanSpec,
  StoredScheduledComplianceScanStatus, StoredScheduledComplianceScan,
  StoredScheduledComplianceScanList,
}
use diki_operator.DeepCopy.Cells.{Cell}
use diki_operator.DeepCopy.Cells.Structs.{at_int32, at_time, at_object_reference}
use diki_operator.DeepCopy.Cells.Slices.{at_scheduled_compliance_scans}
use diki_operator.DeepCopy.Machinery.{Machinery, IsMachinery}
use diki_operator.DeepCopy.Schedules.{
  deep_copy_into_scheduled_compliance_scan_template, deep_copy_into_scheduled_compliance_scan_spec,
  deep_copy_into_scheduled_compliance_scan_status, deep_copy_into_scheduled_compliance_scan,
  deep_copy_into_scheduled_compliance_scan_list,
}
use diki_operator.DeepCopy.Specs.Laws.{
  ComplianceScanSpecReads, deep_copy_into_compliance_scan_spec-IsDeepCopy,
}

module _ {F : Foreign} {K : Machinery F} (L : IsMachinery K) where
  abbrev pub ScheduledComplianceScanTemplateReads :
      Reading (Cell F) (StoredScheduledComplianceScanTemplate F) ScheduledComplianceScanTemplate
  ScheduledComplianceScanTemplateReads m a v = ComplianceScanSpecReads L m a.spec v.spec

  pub deep_copy_into_scheduled_compliance_scan_template-IsDeepCopy :
      IsDeepCopy ScheduledComplianceScanTemplateReads
        (deep_copy_into_scheduled_compliance_scan_template K)
  unfolding deep_copy_into_scheduled_compliance_scan_template
  deep_copy_into_scheduled_compliance_scan_template-IsDeepCopy = record {
    stable = λ m later a v keeps r.
        (deep_copy_into_compliance_scan_spec-IsDeepCopy L).stable m later a.spec v.spec keeps r;
    copies =
        λ m a v r. one (deep_copy_into_compliance_scan_spec-IsDeepCopy L) _ r (λ later b0 e0. e0);
  }

  abbrev pub ScheduledComplianceScanSpecReads :
      Reading (Cell F) (StoredScheduledComplianceScanSpec F) ScheduledComplianceScanSpec
  ScheduledComplianceScanSpecReads m a v =
      (a.schedule ≡ v.schedule)
      × PointsTo at_int32 Itself m a.successful_scans_history_limit v.successful_scans_history_limit
      × PointsTo at_int32 Itself m a.failed_scans_history_limit v.failed_scans_history_limit
      × ScheduledComplianceScanTemplateReads m a.scan_template v.scan_template

  pub deep_copy_into_scheduled_compliance_scan_spec-IsDeepCopy :
      IsDeepCopy ScheduledComplianceScanSpecReads (deep_copy_into_scheduled_compliance_scan_spec K)
  unfolding deep_copy_into_scheduled_compliance_scan_spec
  deep_copy_into_scheduled_compliance_scan_spec-IsDeepCopy = record {
    stable = λ m later a v keeps r. (
      r.0,
      (copy_pointer-IsDeepCopy assign-IsDeepCopy at_int32).stable m later
          a.successful_scans_history_limit v.successful_scans_history_limit keeps r.1,
      (copy_pointer-IsDeepCopy assign-IsDeepCopy at_int32).stable m later
          a.failed_scans_history_limit v.failed_scans_history_limit keeps r.2,
      deep_copy_into_scheduled_compliance_scan_template-IsDeepCopy.stable m later a.scan_template
          v.scan_template keeps r.3,
    );
    copies = λ m a v r.
        three (copy_pointer-IsDeepCopy assign-IsDeepCopy at_int32)
          (copy_pointer-IsDeepCopy assign-IsDeepCopy at_int32)
          deep_copy_into_scheduled_compliance_scan_template-IsDeepCopy _ r.1 r.2 r.3
          (λ later b0 b1 b2 e0 e1 e2. (r.0, e0, e1, e2));
  }

  abbrev pub ScheduledComplianceScanStatusReads :
      Reading (Cell F) (StoredScheduledComplianceScanStatus F) ScheduledComplianceScanStatus
  ScheduledComplianceScanStatusReads m a v =
      PointsTo at_object_reference Itself m a.active v.active
      × PointsTo at_time Itself m a.last_schedule_time v.last_schedule_time
      × PointsTo at_time Itself m a.last_completion_time v.last_completion_time

  pub deep_copy_into_scheduled_compliance_scan_status-IsDeepCopy :
      IsDeepCopy ScheduledComplianceScanStatusReads
        (deep_copy_into_scheduled_compliance_scan_status K)
  unfolding deep_copy_into_scheduled_compliance_scan_status
  deep_copy_into_scheduled_compliance_scan_status-IsDeepCopy = record {
    stable = λ m later a v keeps r. (
      (copy_pointer-IsDeepCopy assign-IsDeepCopy at_object_reference).stable m later a.active
          v.active keeps r.0,
      (copy_pointer-IsDeepCopy L.time-IsDeepCopy at_time).stable m later a.last_schedule_time
          v.last_schedule_time keeps r.1,
      (copy_pointer-IsDeepCopy L.time-IsDeepCopy at_time).stable m later a.last_completion_time
          v.last_completion_time keeps r.2,
    );
    copies = λ m a v r.
        three (copy_pointer-IsDeepCopy assign-IsDeepCopy at_object_reference)
          (copy_pointer-IsDeepCopy L.time-IsDeepCopy at_time)
          (copy_pointer-IsDeepCopy L.time-IsDeepCopy at_time) _ r.0 r.1 r.2
          (λ later b0 b1 b2 e0 e1 e2. (e0, e1, e2));
  }

  abbrev pub ScheduledComplianceScanReads :
      Reading (Cell F) (StoredScheduledComplianceScan F) ScheduledComplianceScan
  ScheduledComplianceScanReads m a v =
      L.ObjectMetaReads m a.meta v.meta
      × ScheduledComplianceScanSpecReads m a.spec v.spec
      × ScheduledComplianceScanStatusReads m a.status v.status

  pub deep_copy_into_scheduled_compliance_scan-IsDeepCopy :
      IsDeepCopy ScheduledComplianceScanReads (deep_copy_into_scheduled_compliance_scan K)
  unfolding deep_copy_into_scheduled_compliance_scan
  deep_copy_into_scheduled_compliance_scan-IsDeepCopy = record {
    stable = λ m later a v keeps r. (
      L.object_meta-IsDeepCopy.stable m later a.meta v.meta keeps r.0,
      deep_copy_into_scheduled_compliance_scan_spec-IsDeepCopy.stable m later a.spec v.spec keeps
          r.1,
      deep_copy_into_scheduled_compliance_scan_status-IsDeepCopy.stable m later a.status v.status
          keeps r.2,
    );
    copies = λ m a v r.
        three L.object_meta-IsDeepCopy deep_copy_into_scheduled_compliance_scan_spec-IsDeepCopy
          deep_copy_into_scheduled_compliance_scan_status-IsDeepCopy _ r.0 r.1 r.2
          (λ later b0 b1 b2 e0 e1 e2. (e0, e1, e2));
  }

  abbrev pub ScheduledComplianceScanListReads :
      Reading (Cell F) (StoredScheduledComplianceScanList F) ScheduledComplianceScanList
  ScheduledComplianceScanListReads m a v =
      L.ListMetaReads m a.list_meta v.list_meta
      × Elements at_scheduled_compliance_scans ScheduledComplianceScanReads m a.items v.items

  pub deep_copy_into_scheduled_compliance_scan_list-IsDeepCopy :
      IsDeepCopy ScheduledComplianceScanListReads (deep_copy_into_scheduled_compliance_scan_list K)
  unfolding deep_copy_into_scheduled_compliance_scan_list
  deep_copy_into_scheduled_compliance_scan_list-IsDeepCopy = record {
    stable = λ m later a v keeps r. (
      L.list_meta-IsDeepCopy.stable m later a.list_meta v.list_meta keeps r.0,
      (copy_slice-IsDeepCopy deep_copy_into_scheduled_compliance_scan-IsDeepCopy
            at_scheduled_compliance_scans).stable
          m later a.items v.items keeps r.1,
    );
    copies = λ m a v r.
        two L.list_meta-IsDeepCopy
          (copy_slice-IsDeepCopy deep_copy_into_scheduled_compliance_scan-IsDeepCopy
            at_scheduled_compliance_scans)
          _ r.0 r.1 (λ later b0 b1 e0 e1. (e0, e1));
  }
