-- ===== src/DeepCopy/Scans/Laws.antt =====
-- What a ComplianceScan and a list of them reads as in a memory, and that its copies are deep copies.
use diki_operator.Api.Scan.{ComplianceScan, ComplianceScanList}
use diki_operator.DeepCopy.Fresh.{Reading, IsDeepCopy}
use diki_operator.DeepCopy.Pointers.{Elements, copy_slice-IsDeepCopy, two, three}
use diki_operator.DeepCopy.Layout.{Foreign, StoredComplianceScan, StoredComplianceScanList}
use diki_operator.DeepCopy.Cells.{Cell}
use diki_operator.DeepCopy.Cells.Slices.{at_compliance_scans}
use diki_operator.DeepCopy.Machinery.{Machinery, IsMachinery}
use diki_operator.DeepCopy.Scans.{
  deep_copy_into_compliance_scan, deep_copy_into_compliance_scan_list,
}
use diki_operator.DeepCopy.Specs.Laws.{
  ComplianceScanSpecReads, deep_copy_into_compliance_scan_spec-IsDeepCopy,
}
use diki_operator.DeepCopy.Statuses.Laws.{
  ComplianceScanStatusReads, deep_copy_into_compliance_scan_status-IsDeepCopy,
}

module _ {F : Foreign} {K : Machinery F} (L : IsMachinery K) where
  abbrev pub ComplianceScanReads : Reading (Cell F) (StoredComplianceScan F) ComplianceScan
  ComplianceScanReads m a v =
      L.ObjectMetaReads m a.meta v.meta
      × ComplianceScanSpecReads L m a.spec v.spec
      × ComplianceScanStatusReads L m a.status v.status

  pub deep_copy_into_compliance_scan-IsDeepCopy :
      IsDeepCopy ComplianceScanReads (deep_copy_into_compliance_scan K)
  unfolding deep_copy_into_compliance_scan
  deep_copy_into_compliance_scan-IsDeepCopy = record {
    stable = λ m later a v keeps r. (
      L.object_meta-IsDeepCopy.stable m later a.meta v.meta keeps r.0,
      (deep_copy_into_compliance_scan_spec-IsDeepCopy L).stable m later a.spec v.spec keeps r.1,
      (deep_copy_into_compliance_scan_status-IsDeepCopy L).stable m later a.status v.status keeps
          r.2,
    );
    copies = λ m a v r.
        three L.object_meta-IsDeepCopy (deep_copy_into_compliance_scan_spec-IsDeepCopy L)
          (deep_copy_into_compliance_scan_status-IsDeepCopy L) _ r.0 r.1 r.2
          (λ later b0 b1 b2 e0 e1 e2. (e0, e1, e2));
  }

  abbrev pub ComplianceScanListReads :
      Reading (Cell F) (StoredComplianceScanList F) ComplianceScanList
  ComplianceScanListReads m a v =
      L.ListMetaReads m a.list_meta v.list_meta
      × Elements at_compliance_scans ComplianceScanReads m a.items v.items

  pub deep_copy_into_compliance_scan_list-IsDeepCopy :
      IsDeepCopy ComplianceScanListReads (deep_copy_into_compliance_scan_list K)
  unfolding deep_copy_into_compliance_scan_list
  deep_copy_into_compliance_scan_list-IsDeepCopy = record {
    stable = λ m later a v keeps r. (
      L.list_meta-IsDeepCopy.stable m later a.list_meta v.list_meta keeps r.0,
      (copy_slice-IsDeepCopy deep_copy_into_compliance_scan-IsDeepCopy at_compliance_scans).stable m
          later a.items v.items keeps r.1,
    );
    copies = λ m a v r.
        two L.list_meta-IsDeepCopy
          (copy_slice-IsDeepCopy deep_copy_into_compliance_scan-IsDeepCopy at_compliance_scans) _
          r.0 r.1 (λ later b0 b1 e0 e1. (e0, e1));
  }
