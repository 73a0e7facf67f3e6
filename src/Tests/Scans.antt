-- ===== src/Tests/Scans.antt =====
-- ComplianceScans: the reconciler, its labels and its configuration, and the webhook.
use diki_operator.Common.{String, ◌≡◌, ◌≢◌, ◌↔◌, refl, [], ◌==◌}
use diki_operator.Common.{if◌then◌else◌, eq_iff, arith, All}
use diki_operator.Common.Maps.{lookup}
use diki_operator.Common.Errors.{plain, ok, err}
use diki_operator.Api.Scan.{ComplianceScan}
use diki_operator.Cluster.Memory.{memory}
use diki_operator.Scan.DikiConfig.{collect_rulesets}
use diki_operator.Scan.DikiConfig.Selection.{Selected, collect_rulesets_iff}
use diki_operator.Scan.Reconcile.{ClockReadings, reconcile}
use diki_operator.Scan.History.{Follows, start}
use diki_operator.Scan.History.Run.{reconcile-Follows, reconcile_quiet}
use diki_operator.Scan.Events.{deliver, deliver-new}
use diki_operator.Command.Registration.{create_event, predicate}
use diki_operator.Webhook.{
  Library, Request, allowed, denied, handle, answer, operation_create, operation_update,
  validate_config_map_reference, validate_optional, validate_ruleset, validate_rulesets,
}
use diki_operator.Webhook.Admission.{RulesetResolves, handle_create_iff, handle_update_iff}
use diki_operator.Webhook.Lookup.{OnlyYaml, handle-collect_rulesets}
use diki_operator.Tests.Equality.{equal_test, equal_test-exact, spec-discrete}
use diki_operator.Tests.Data.{new_scan, objects, world, diki, scan_config}

abbrev times : ClockReadings
times = record { running = 100; completed = 200; failed = 300 }

reconcile-Follows_example :
    Follows memory start world (reconcile memory diki scan_config times "scan" world)
reconcile-Follows_example =
    reconcile-Follows memory diki scan_config times "scan" new_scan world refl refl

reconcile_quiet_example : ((reconcile memory diki scan_config times "scan" world).1.writes ≡ []) ↔ (
    (scan : ComplianceScan) → memory.get_scan world.state "scan" ≡ ok scan → scan.status.phase ≢ "")
reconcile_quiet_example = reconcile_quiet memory diki scan_config times "scan" world

writes_new : (deliver memory diki scan_config times (create_event "scan") world).1.writes ≢ []
unfolding deliver predicate
writes_new same =
    (reconcile_quiet memory diki scan_config times "scan" world).0 same new_scan refl refl

deliver-new_example :
    (name : String) × (scan : ComplianceScan) × (create_event "scan" ≡ create_event name)
    × (memory.get_scan world.state name ≡ ok scan)
    × (scan.status.phase ≡ "")
deliver-new_example =
    deliver-new memory diki scan_config times (create_event "scan") world writes_new

distinct : diki.disa_id ≢ diki.hardened_id
distinct p = ground (arith, eq_iff "disa-kubernetes-stig" "security-hardened-k8s")

collect_rulesets_iff_example :
    (collect_rulesets memory diki objects new_scan.spec.rulesets [] ≡ ok [])
    ↔ Selected memory diki objects new_scan.spec.rulesets []
collect_rulesets_iff_example =
    collect_rulesets_iff memory diki objects distinct new_scan.spec.rulesets []

-- A request's text names the scan.
abbrev library : Library
library = record {
  decode_raw = λ text. if text == "scan" then ok new_scan else err (plain "not a scan");
  deep_equal = equal_test spec-discrete;
  aggregate = λ errors. "invalid";
}

abbrev create_request : Request
create_request = record { operation = operation_create; object = "scan"; old_object = "" }

abbrev update_request : Request
update_request = record { operation = operation_update; object = "scan"; old_object = "scan" }

admitted : handle memory objects library create_request ≡ allowed ""
unfolding handle answer validate_rulesets validate_ruleset validate_optional
    validate_config_map_reference lookup
admitted = refl

handle_create_iff_example :
    (handle memory objects library create_request ≡ allowed "")
    ↔ All (RulesetResolves memory objects) new_scan.spec.rulesets
handle_create_iff_example =
    handle_create_iff memory objects library create_request new_scan refl refl

handle-collect_rulesets_example :
    OnlyYaml memory diki objects (collect_rulesets memory diki objects new_scan.spec.rulesets [])
handle-collect_rulesets_example =
    handle-collect_rulesets memory diki objects library create_request new_scan refl refl admitted

handle_update_iff_example :
    (handle memory objects library update_request ≡ allowed "") ↔ (new_scan.spec ≡ new_scan.spec)
handle_update_iff_example =
    handle_update_iff memory objects library update_request new_scan new_scan
      (equal_test-exact spec-discrete) refl refl refl

-- A scan whose options are in no ConfigMap is denied.
denied_unresolved :
    handle memory (record objects { config_maps = [] }) library create_request ≡ denied "invalid"
unfolding handle answer validate_rulesets validate_ruleset validate_optional
    validate_config_map_reference lookup
denied_unresolved = refl
