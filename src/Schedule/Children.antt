-- ===== src/Schedule/Children.antt =====
-- The children of a ScheduledComplianceScan: how `Reconcile` (reconciler.go) selects and sorts
-- them, and how `deployComplianceScan` and `setActiveScan` (utils.go) create one and refer to it.
pub mod Sorted
pub mod Selected
use diki_operator.Common.{String, true, Option, none, some, List, [], ◌∷◌, ◌++◌, ◌==◌}
use diki_operator.Common.{if◌then◌else◌}
use diki_operator.Common.Errors.{Result, wrap}
use diki_operator.Api.Meta.{Time, Labels, no_meta}
use diki_operator.Api.Scan.{ComplianceScan, compliance_scan_completed, compliance_scan_failed}
use diki_operator.Api.Scheduled.{ScheduledComplianceScan}
use diki_operator.Cluster.{Client, World, send_create_scan, send_patch_scheduled}
use diki_operator.Scan.Labels.{
  label_app_name, label_app_managed_by, label_value_diki, label_value_diki_operator,
}
use diki_operator.Schedule.ChildName.{child_scan_name}

abbrev pub label_scheduled_compliance_scan_name : String
label_scheduled_compliance_scan_name = "scheduledcompliancescan.diki.gardener.cloud/name"

abbrev pub label_scheduled_compliance_scan_uid : String
label_scheduled_compliance_scan_uid = "scheduledcompliancescan.diki.gardener.cloud/uid"

-- `v1alpha1.SchemeGroupVersion.String()`
abbrev pub scheme_group_version : String
scheme_group_version = "diki.gardener.cloud/v1alpha1"

-- The labels by which `Reconcile` lists the children.
abbrev pub child_selector : ScheduledComplianceScan → Labels
child_selector parent =
    (label_scheduled_compliance_scan_name, parent.meta.name)
    ∷ (label_scheduled_compliance_scan_uid, parent.meta.uid)
    ∷ []

pub record Children : Type 0 where
  pub active : Option ComplianceScan
  pub successful : List ComplianceScan
  pub failed : List ComplianceScan

abbrev pub no_children : Children
no_children = record { active = none; successful = []; failed = [] }

-- The body of the loop that sorts the children by their phase.
unfoldable pub categorize_scan : Children → ComplianceScan → Children
categorize_scan c scan =
    if scan.status.phase == compliance_scan_completed
    then record c { successful = c.successful ++ (scan ∷ []) }
    else if scan.status.phase == compliance_scan_failed
    then record c { failed = c.failed ++ (scan ∷ []) }
    else record c { active = some scan }

unfoldable pub categorize : List ComplianceScan → Children → Children
unfolding categorize_scan
categorize [] c = c
categorize (scan ∷ scans) c = categorize scans (categorize_scan c scan)

-- The object that `deployComplianceScan` sends, for the name that `childScanName` gave.
unfoldable pub child_scan : ScheduledComplianceScan → String → ComplianceScan
child_scan parent name = record {
  meta = record no_meta {
    name = name;
    labels =
        (label_scheduled_compliance_scan_name, parent.meta.name)
        ∷ (label_scheduled_compliance_scan_uid, parent.meta.uid)
        ∷ (label_app_name, label_value_diki)
        ∷ (label_app_managed_by, label_value_diki_operator)
        ∷ [];
    owner_references =
        record {
          api_version = scheme_group_version;
          kind = "ScheduledComplianceScan";
          name = parent.meta.name;
          uid = parent.meta.uid;
          controller = some true;
          block_owner_deletion = some true;
        }
        ∷ [];
  };
  spec = parent.spec.scan_template.spec;
  status = record { conditions = []; phase = ""; rulesets = []; outputs = [] };
}

-- The status that `setActiveScan` sends.
unfoldable pub with_active :
    ComplianceScan → Time → ScheduledComplianceScan → ScheduledComplianceScan
with_active scan schedule_time parent = record parent {
  status = record (parent.status) {
    active = some (record {
      api_version = scheme_group_version;
      kind = "ComplianceScan";
      name = scan.meta.name;
      uid = scan.meta.uid;
    });
    last_schedule_time = some schedule_time;
  };
}

module _ (C : Client) where
  unfoldable pub set_active_scan :
      ScheduledComplianceScan
      → ComplianceScan
      → Time
      → World C
      → Result ScheduledComplianceScan × World C
  set_active_scan parent scan schedule_time w =
      let (r, w') = send_patch_scheduled C parent (with_active scan schedule_time parent) w in
      (wrap "failed to update ScheduledComplianceScan status" r, w')

  -- `none` is the panic of `childScanName`.
  unfoldable pub deploy_compliance_scan :
      ScheduledComplianceScan → Time → World C → Option (Result ComplianceScan × World C)
  deploy_compliance_scan parent now w = elim (child_scan_name parent.meta.name now) [
    | none ↦ none
    | some name ↦
        let (r, w') = send_create_scan C (child_scan parent name) w in
        some (wrap "failed to create ComplianceScan" r, w')
  ]
