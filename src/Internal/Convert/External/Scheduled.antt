-- ===== src/Internal/Convert/External/Scheduled.antt =====
-- A ScheduledComplianceScan of v1alpha1 comes back from the internal version as it was.
use diki_operator.Common.{◌≡◌, refl}
use diki_operator.Api.Scheduled.{
  ScheduledComplianceScanTemplate, ScheduledComplianceScanSpec, ScheduledComplianceScanStatus,
  ScheduledComplianceScan,
}
use diki_operator.Internal.Convert.ToDiki.{
  convert_scheduled_compliance_scan_template_to_diki,
  convert_scheduled_compliance_scan_spec_to_diki, convert_scheduled_compliance_scan_status_to_diki,
  convert_scheduled_compliance_scan_to_diki,
}
use diki_operator.Internal.Convert.ToV1alpha1.{
  convert_scheduled_compliance_scan_template_to_v1alpha1,
  convert_scheduled_compliance_scan_spec_to_v1alpha1,
  convert_scheduled_compliance_scan_status_to_v1alpha1,
  convert_scheduled_compliance_scan_to_v1alpha1,
}
use diki_operator.Internal.Convert.External.{
  convert_compliance_scan_spec_to_v1alpha1-convert_compliance_scan_spec_to_diki,
}

pub convert_scheduled_compliance_scan_template_to_v1alpha1-convert_scheduled_compliance_scan_template_to_diki :
    (x : ScheduledComplianceScanTemplate)
    → convert_scheduled_compliance_scan_template_to_v1alpha1
        (convert_scheduled_compliance_scan_template_to_diki x)
      ≡ x
unfolding convert_scheduled_compliance_scan_template_to_v1alpha1
    convert_scheduled_compliance_scan_template_to_diki
convert_scheduled_compliance_scan_template_to_v1alpha1-convert_scheduled_compliance_scan_template_to_diki
      x =
    λ i. record {
      spec = convert_compliance_scan_spec_to_v1alpha1-convert_compliance_scan_spec_to_diki x.spec i;
    }

pub convert_scheduled_compliance_scan_spec_to_v1alpha1-convert_scheduled_compliance_scan_spec_to_diki :
    (x : ScheduledComplianceScanSpec)
    → convert_scheduled_compliance_scan_spec_to_v1alpha1
        (convert_scheduled_compliance_scan_spec_to_diki x)
      ≡ x
unfolding convert_scheduled_compliance_scan_spec_to_v1alpha1
    convert_scheduled_compliance_scan_spec_to_diki
convert_scheduled_compliance_scan_spec_to_v1alpha1-convert_scheduled_compliance_scan_spec_to_diki
      x =
    λ i. record {
      schedule = x.schedule;
      successful_scans_history_limit = x.successful_scans_history_limit;
      failed_scans_history_limit = x.failed_scans_history_limit;
      scan_template =
          convert_scheduled_compliance_scan_template_to_v1alpha1-convert_scheduled_compliance_scan_template_to_diki
            x.scan_template i;
    }

pub convert_scheduled_compliance_scan_status_to_v1alpha1-convert_scheduled_compliance_scan_status_to_diki :
    (x : ScheduledComplianceScanStatus)
    → convert_scheduled_compliance_scan_status_to_v1alpha1
        (convert_scheduled_compliance_scan_status_to_diki x)
      ≡ x
unfolding convert_scheduled_compliance_scan_status_to_v1alpha1
    convert_scheduled_compliance_scan_status_to_diki
convert_scheduled_compliance_scan_status_to_v1alpha1-convert_scheduled_compliance_scan_status_to_diki
      x =
    refl

pub convert_scheduled_compliance_scan_to_v1alpha1-convert_scheduled_compliance_scan_to_diki :
    (x : ScheduledComplianceScan)
    → convert_scheduled_compliance_scan_to_v1alpha1 (convert_scheduled_compliance_scan_to_diki x)
      ≡ x
unfolding convert_scheduled_compliance_scan_to_v1alpha1 convert_scheduled_compliance_scan_to_diki
convert_scheduled_compliance_scan_to_v1alpha1-convert_scheduled_compliance_scan_to_diki x = λ i.
    record {
      meta = x.meta;
      spec =
          convert_scheduled_compliance_scan_spec_to_v1alpha1-convert_scheduled_compliance_scan_spec_to_diki
            x.spec i;
      status =
          convert_scheduled_compliance_scan_status_to_v1alpha1-convert_scheduled_compliance_scan_status_to_diki
            x.status i;
    }
