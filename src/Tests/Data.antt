-- ===== src/Tests/Data.antt =====
-- The objects of the tests.
use diki_operator.Common.{String, false, Option, none, some, [], ◌∷◌, ◌==◌, if◌then◌else◌}
use diki_operator.Common.{ℕ, ◌+◌}
use diki_operator.Common.Int.{pos}
use diki_operator.Common.Errors.{ok}
use diki_operator.Api.Meta.{no_meta, ConfigMap, Time}
use diki_operator.Api.Scan.{ComplianceScan, ComplianceScanPhase, RulesetConfig}
use diki_operator.Api.Scheduled.{ScheduledComplianceScan}
use diki_operator.Api.Config.{ComplianceScanConfig, default_pod_completion_timeout}
use diki_operator.Cluster.{World}
use diki_operator.Cluster.Memory.{Objects, memory}
use diki_operator.Scan.DikiConfig.{Diki}
use diki_operator.Schedule.Reconcile.{Cron, returns, panics}

abbrev pub rules_of_disa : RulesetConfig
rules_of_disa = record {
  id = "disa-kubernetes-stig";
  version = "v2r1";
  options = some (record {
    ruleset_options = none;
    rules = some (record {
      config_map_ref = some (record { name = "options"; namespace = "garden"; key = none });
    });
  });
}

abbrev pub plain_hardened : RulesetConfig
plain_hardened = record { id = "security-hardened-k8s"; version = "v0.1.0"; options = none }

abbrev pub unknown_ruleset : RulesetConfig
unknown_ruleset = record { id = "other"; version = "v1"; options = none }

abbrev pub scan_in : String → Time → ComplianceScanPhase → ComplianceScan
scan_in name created phase = record {
  meta = record no_meta { name = name; uid = "1234"; creation_timestamp = created };
  spec = record { rulesets = rules_of_disa ∷ plain_hardened ∷ unknown_ruleset ∷ []; outputs = [] };
  status = record { conditions = []; phase = phase; rulesets = []; outputs = [] };
}

abbrev pub new_scan : ComplianceScan
new_scan = scan_in "scan" 5 ""

abbrev pub options_map : ConfigMap
options_map = record {
  meta = record no_meta { name = "options"; namespace = "garden" };
  values = ("disa-kubernetes-stig-rules", "ruleID: 1") ∷ [];
  binary_data = [];
}

abbrev pub parent : ScheduledComplianceScan
parent = record {
  meta = record no_meta { name = "nightly"; uid = "77" };
  spec = record {
    schedule = "0 0 * * *";
    successful_scans_history_limit = some (pos 1);
    failed_scans_history_limit = none;
    scan_template = record { spec = new_scan.spec };
  };
  status = record { active = none; last_schedule_time = some 10; last_completion_time = none };
}

abbrev pub objects : Objects
objects = record {
  scan = new_scan;
  parent = parent;
  config_maps = ("garden/options", options_map) ∷ [];
  children = [];
  read_only = false;
}

abbrev pub world : World memory
world = record { state = objects; writes = [] }

abbrev pub diki : Diki
diki = record {
  RuleOptions = String;
  Yaml = String;
  provider_id = "managedk8s";
  provider_name = "Managed Kubernetes";
  disa_id = "disa-kubernetes-stig";
  disa_name = "DISA Kubernetes STIG";
  hardened_id = "security-hardened-k8s";
  hardened_name = "Security Hardened Kubernetes Cluster";
  unmarshal_rule_options = λ text. ok (text ∷ []);
  unmarshal_ruleset_options = λ text. ok (some text);
  encode = λ config. ok "providers: []";
}

abbrev pub scan_config : ComplianceScanConfig
scan_config = record {
  sync_period = none;
  diki_runner = record {
    namespace = "kube-system";
    labels = ("app.kubernetes.io/name", "runner") ∷ [];
    pod_completion_timeout = some default_pod_completion_timeout;
  };
}

-- A schedule is the delay between two runs; the text "never" has none, and "bad" panics.
abbrev pub every_hundred : Cron
every_hundred = record {
  Schedule = Option ℕ;
  parse_standard = λ text.
      if text == "never"
      then returns (ok none)
      else if text == "bad"
      then panics "bad"
      else returns (ok (some 100));
  next = λ schedule t. elim schedule [ none ↦ 0 | some delay ↦ t + delay ];
}
