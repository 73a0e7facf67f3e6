-- ===== src/Internal/Convert/Internal/Scheduled.antt =====
-- An internal ScheduledComplianceScan comes back from v1alpha1 as it was.
use diki_operator.Common.{◌≡◌, refl}
use diki_operator.Internal.Scheduled.{
  DikiScheduledComplianceScanTemplate, DikiScheduledComplianceScanSpec,
  DikiScheduledComplianceScanStatus, DikiScheduledComplianceScan,
}
use diki_operator.Internal.Convert.ToDiki.{
  convert_scheduled_compliance_scan_template_to_diki,
  convert_scheduled_compliance_scan_spec_to_diki, convert_scheduled_compliance_scan_status_to_diki,
  convert_scheduled_compliance_scan_to_diki,
}
use diki_operator.Internal.Convert.ToV1alpha1.{
  convert_scheduled_compliance_scan_template_to_v1alpha1,
  convert_scheduled_compliance_scan_spec_to_v1alpha1,
  convert_scheduled_compliance_scan_status_to_v1alpha1,
  convert_scheduled_compliance_scan_to_v1alpha1,
}
use diki_operator.Internal.Convert.Internal.{
  convert_compliance_scan_spec_to_diki-convert_compliance_scan_spec_to_v1alpha1,
}

pub convert_scheduled_compliance_scan_template_to_diki-convert_scheduled_compliance_scan_template_to_v1alpha1 :
    (x : DikiScheduledComplianceScanTemplate)
    → convert_scheduled_compliance_scan_template_to_diki
        (convert_scheduled_compliance_scan_template_to_v1alpha1 x)
      ≡ x
unfolding convert_scheduled_compliance_scan_template_to_diki
    convert_scheduled_compliance_scan_template_to_v1alpha1
convert_scheduled_compliance_scan_template_to_diki-convert_scheduled_compliance_scan_template_to_v1alpha1
      x =
    λ i. record {
      spec = convert_compliance_scan_spec_to_diki-convert_compliance_scan_spec_to_v1alpha1 x.spec i;
    }

pub convert_scheduled_compliance_scan_spec_to_diki-convert_scheduled_compliance_scan_spec_to_v1alpha1 :
    (x : DikiScheduledComplianceScanSpec)
    → convert_scheduled_compliance_scan_spec_to_diki
        (convert_scheduled_compliance_scan_spec_to_v1alpha1 x)
      ≡ x
unfolding convert_scheduled_compliance_scan_spec_to_diki
    convert_scheduled_compliance_scan_spec_to_v1alpha1
convert_scheduled_compliance_scan_spec_to_diki-convert_scheduled_compliance_scan_spec_to_v1alpha1
      x =
    λ i. record {
      schedule = x.schedule;
      successful_scans_history_limit = x.successful_scans_history_limit;
      failed_scans_history_limit = x.failed_scans_history_limit;
      scan_template =
          convert_scheduled_compliance_scan_template_to_diki-convert_scheduled_compliance_scan_template_to_v1alpha1
            x.scan_template i;
    }

pub convert_scheduled_compliance_scan_status_to_diki-convert_scheduled_compliance_scan_status_to_v1alpha1 :
    (x : DikiScheduledComplianceScanStatus)
    → convert_scheduled_compliance_scan_status_to_diki
        (convert_scheduled_compliance_scan_status_to_v1alpha1 x)
      ≡ x
unfolding convert_scheduled_compliance_scan_status_to_diki
    convert_scheduled_compliance_scan_status_to_v1alpha1
convert_scheduled_compliance_scan_status_to_diki-convert_scheduled_compliance_scan_status_to_v1alpha1
      x =
    refl

pub convert_scheduled_compliance_scan_to_diki-convert_scheduled_compliance_scan_to_v1alpha1 :
    (x : DikiScheduledComplianceScan)
    → convert_scheduled_compliance_scan_to_diki (convert_scheduled_compliance_scan_to_v1alpha1 x)
      ≡ x
unfolding convert_scheduled_compliance_scan_to_diki convert_scheduled_compliance_scan_to_v1alpha1
convert_scheduled_compliance_scan_to_diki-convert_scheduled_compliance_scan_to_v1alpha1 x = λ i.
    record {
      meta = x.meta;
      spec =
          convert_scheduled_compliance_scan_spec_to_diki-convert_scheduled_compliance_scan_spec_to_v1alpha1
            x.spec i;
      status =
          convert_scheduled_compliance_scan_status_to_diki-convert_scheduled_compliance_scan_status_to_v1alpha1
            x.status i;
    }
