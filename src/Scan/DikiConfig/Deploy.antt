-- ===== src/Scan/DikiConfig/Deploy.antt =====
-- `deployDikiConfigMap` (dikiconfig.go).
use diki_operator.Common.{String, List, [], ◌∷◌}
use diki_operator.Common.Errors.{Result, ok, err, wrap, wrapped}
use diki_operator.Api.Meta.{ConfigMap, no_meta}
use diki_operator.Api.Scan.{ComplianceScan}
use diki_operator.Api.Config.{ComplianceScanConfig}
use diki_operator.Cluster.{Client, World, send_create_config_map}
use diki_operator.Scan.DikiConfig.{Diki, DikiConfig, DikiRuleset, collect_rulesets}
use diki_operator.Scan.Labels.{get_labels}

abbrev pub config_map_generate_name_prefix : String
config_map_generate_name_prefix = "diki-config-"

abbrev pub diki_config_key : String
diki_config_key = "config.yaml"

module _ (C : Client) (D : Diki) (config : ComplianceScanConfig) where
  unfoldable pub diki_config :
      List (DikiRuleset D.RuleOptions D.Yaml) → DikiConfig D.RuleOptions D.Yaml
  diki_config rulesets = record {
    providers = record { id = D.provider_id; name = D.provider_name; rulesets = rulesets } ∷ [];
  }

  unfoldable pub diki_config_map : ComplianceScan → String → ConfigMap
  diki_config_map scan yaml = record {
    meta = record no_meta {
      generate_name = config_map_generate_name_prefix;
      namespace = config.diki_runner.namespace;
      labels = get_labels config scan;
    };
    values = (diki_config_key, yaml) ∷ [];
    binary_data = [];
  }

  unfoldable pub deploy_diki_config_map : ComplianceScan → World C → Result ConfigMap × World C
  deploy_diki_config_map scan w = elim (collect_rulesets C D w.state scan.spec.rulesets []) [
    | err e ↦ (err e, w)
    | ok rulesets ↦ elim (D.encode (diki_config rulesets)) [
      | err e ↦ (err (wrapped "failed to marshal diki config" e), w)
      | ok yaml ↦
          let (r, w') = send_create_config_map C (diki_config_map scan yaml) w in
          (wrap "failed to create diki config configMap" r, w')
    ]
  ]
