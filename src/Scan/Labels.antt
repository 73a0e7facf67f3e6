-- ===== src/Scan/Labels.antt =====
-- `getLabels` (utils.go), with the label names of internal/constants and of the reconciler.
use diki_operator.Common.{String, ◌≡◌, none, some, [], ◌∷◌}
use diki_operator.Common.{◌==◌, if◌then◌else◌}
use diki_operator.Common.Maps.{lookup, insert, copy, lookup-insert, lookup-copy, lookup_last}
use diki_operator.Api.Meta
use diki_operator.Api.Scan.{ComplianceScan}
use diki_operator.Api.Config.{ComplianceScanConfig}

abbrev pub label_app_name : String
label_app_name = "app.kubernetes.io/name"

abbrev pub label_app_managed_by : String
label_app_managed_by = "app.kubernetes.io/managed-by"

abbrev pub label_value_diki : String
label_value_diki = "diki"

abbrev pub label_value_diki_operator : String
label_value_diki_operator = "diki-operator"

abbrev pub compliance_scan_label : String
compliance_scan_label = "diki.gardener.cloud/compliancescan"

unfoldable pub get_labels : ComplianceScanConfig → ComplianceScan → Meta.Labels
get_labels config scan = insert compliance_scan_label scan.meta.uid (
    copy
      ((label_app_name, label_value_diki) ∷ (label_app_managed_by, label_value_diki_operator) ∷ [])
      config.diki_runner.labels)

-- The labels of a diki ConfigMap: the scan's UID under the operator's own label whatever the
-- configuration says; under any other key the configured label if there is one, and otherwise the
-- base labels alone.
pub lookup-get_labels :
    (config : ComplianceScanConfig) (scan : ComplianceScan) (k : String)
    → lookup k (get_labels config scan) ≡ (
        if compliance_scan_label == k
        then some scan.meta.uid
        else elim (lookup_last k config.diki_runner.labels) [
          | some v ↦ some v
          | none ↦
              if label_app_name == k
              then some label_value_diki
              else if label_app_managed_by == k
              then some label_value_diki_operator
              else none
        ])
unfolding get_labels lookup
lookup-get_labels config scan k = rw (lookup-insert, lookup-copy)
