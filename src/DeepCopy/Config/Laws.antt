-- ===== src/DeepCopy/Config/Laws.antt =====
-- What a configuration reads as in a memory, and that its copy is a deep copy.
use diki_operator.Common.{String, ◌≡◌, ◌∙◌, List, [], Option}
use diki_operator.Common.Maps.{lookup, copy}
use diki_operator.Common.Keys.{UniqueKeys, copy-UniqueKeys, lookup-copy_unique}
use diki_operator.Api.Meta.{Labels}
use diki_operator.Api.Config.{
  Duration, Server, LeaderElectionConfiguration, DikiRunnerConfig, ComplianceScanConfig,
  ControllerConfiguration, ServerConfiguration, DikiOperatorConfiguration,
}
use diki_operator.DeepCopy.Memory.{Pointer, copy_pointer, assign}
use diki_operator.DeepCopy.Fresh.{Reading, pure-IsFresh, IsDeepCopy}
use diki_operator.DeepCopy.Pointers.{
  Itself, Through, PointsTo, assign-IsDeepCopy, through-IsDeepCopy, copy_pointer-IsDeepCopy, one,
  two, three,
}
use diki_operator.DeepCopy.Isolation.{IsIsolated, copies-IsIsolated}
use diki_operator.DeepCopy.Config.{
  ConfigForeign, StoredDikiRunnerConfig, StoredComplianceScanConfig, StoredControllerConfiguration,
  StoredServerConfiguration, StoredDikiOperatorConfiguration,
}
use diki_operator.DeepCopy.Config.Cells.{
  ConfigCell, at_duration, at_labels, at_election, at_server, at_configuration,
}
use diki_operator.DeepCopy.Config.Copies.{
  ConfigMachinery, copy_entries, deep_copy_into_diki_runner, deep_copy_into_compliance_scan_config,
  deep_copy_into_controllers, deep_copy_into_server_configuration, deep_copy_into_configuration,
  deep_copy_configuration,
}

-- The libraries' deep copies are deep copies, and `range` visits every entry of a map once.
pub record IsConfigMachinery {F : ConfigForeign} (K : ConfigMachinery F) : Type 1 where
  pub ElectionReads : Reading (ConfigCell F) F.Election LeaderElectionConfiguration
  pub election-IsDeepCopy : IsDeepCopy ElectionReads K.deep_copy_election
  pub range-UniqueKeys : (m : Labels) → UniqueKeys m → UniqueKeys (K.range m)
  pub lookup-range : (k : String) (m : Labels) → UniqueKeys m → lookup k (K.range m) ≡ lookup k m

-- The entries of a map give what the value gives, for every key, and each key stands once.
abbrev pub MapReads : {C : Type 0} → Reading C Labels Labels
MapReads m entries v = UniqueKeys entries × ((k : String) → lookup k entries ≡ lookup k v)

module _ {F : ConfigForeign} {K : ConfigMachinery F} (L : IsConfigMachinery K) where
  copy_entries-IsDeepCopy : IsDeepCopy MapReads (copy_entries K)
  unfolding copy_entries
  copy_entries-IsDeepCopy = record {
    stable = λ m later entries v keeps r. r;
    copies = λ m entries v r. pure-IsFresh (copy [] (K.range entries)) (λ later. (
      copy-UniqueKeys [] (K.range entries) tt,
      λ k.
          lookup-copy_unique k (K.range entries) (L.range-UniqueKeys entries r.0)
          ∙ (L.lookup-range k entries r.0 ∙ r.1 k),
    ));
  }

  abbrev pub DikiRunnerReads : Reading (ConfigCell F) StoredDikiRunnerConfig DikiRunnerConfig
  DikiRunnerReads m a v =
      (a.namespace ≡ v.namespace)
      × Through at_labels MapReads [] m a.labels v.labels
      × PointsTo at_duration Itself m a.pod_completion_timeout v.pod_completion_timeout

  deep_copy_into_diki_runner-IsDeepCopy : IsDeepCopy DikiRunnerReads (deep_copy_into_diki_runner K)
  unfolding deep_copy_into_diki_runner
  deep_copy_into_diki_runner-IsDeepCopy = record {
    stable = λ m later a v keeps r. (
      r.0,
      labels.stable m later a.labels v.labels keeps r.1,
      timeout.stable m later a.pod_completion_timeout v.pod_completion_timeout keeps r.2,
    );
    copies = λ m a v r. two labels timeout _ r.1 r.2 (λ later b0 b1 e0 e1. (r.0, e0, e1));
  }
    where
      labels :
          IsDeepCopy
            (Through at_labels (MapReads {C = ConfigCell F}) [])
            (copy_pointer at_labels (copy_entries K))
      labels = through-IsDeepCopy at_labels [] copy_entries-IsDeepCopy

      timeout :
          IsDeepCopy
            (PointsTo at_duration (Itself {C = ConfigCell F} {A = Duration}))
            (copy_pointer at_duration assign)
      timeout = copy_pointer-IsDeepCopy assign-IsDeepCopy at_duration

  abbrev pub ComplianceScanConfigReads :
      Reading (ConfigCell F) StoredComplianceScanConfig ComplianceScanConfig
  ComplianceScanConfigReads m a v =
      PointsTo at_duration Itself m a.sync_period v.sync_period
      × DikiRunnerReads m a.diki_runner v.diki_runner

  deep_copy_into_compliance_scan_config-IsDeepCopy :
      IsDeepCopy ComplianceScanConfigReads (deep_copy_into_compliance_scan_config K)
  unfolding deep_copy_into_compliance_scan_config
  deep_copy_into_compliance_scan_config-IsDeepCopy = record {
    stable = λ m later a v keeps r. (
      (copy_pointer-IsDeepCopy assign-IsDeepCopy at_duration).stable m later a.sync_period
          v.sync_period keeps r.0,
      deep_copy_into_diki_runner-IsDeepCopy.stable m later a.diki_runner v.diki_runner keeps r.1,
    );
    copies = λ m a v r.
        two (copy_pointer-IsDeepCopy assign-IsDeepCopy at_duration)
          deep_copy_into_diki_runner-IsDeepCopy _ r.0 r.1 (λ later b0 b1 e0 e1. (e0, e1));
  }

  abbrev pub ControllersReads :
      Reading (ConfigCell F) StoredControllerConfiguration ControllerConfiguration
  ControllersReads m a v = ComplianceScanConfigReads m a.compliance_scan v.compliance_scan

  deep_copy_into_controllers-IsDeepCopy : IsDeepCopy ControllersReads (deep_copy_into_controllers K)
  unfolding deep_copy_into_controllers
  deep_copy_into_controllers-IsDeepCopy = record {
    stable = λ m later a v keeps r.
        deep_copy_into_compliance_scan_config-IsDeepCopy.stable m later a.compliance_scan
          v.compliance_scan keeps r;
    copies = λ m a v r. one deep_copy_into_compliance_scan_config-IsDeepCopy _ r (λ later b e. e);
  }

  abbrev pub ServerConfigurationReads :
      Reading (ConfigCell F) StoredServerConfiguration ServerConfiguration
  ServerConfigurationReads m a v =
      (a.webhooks ≡ v.webhooks)
      × PointsTo at_server Itself m a.health_probes v.health_probes
      × PointsTo at_server Itself m a.metrics v.metrics

  deep_copy_into_server_configuration-IsDeepCopy :
      IsDeepCopy ServerConfigurationReads (deep_copy_into_server_configuration K)
  unfolding deep_copy_into_server_configuration
  deep_copy_into_server_configuration-IsDeepCopy = record {
    stable = λ m later a v keeps r. (
      r.0,
      server.stable m later a.health_probes v.health_probes keeps r.1,
      server.stable m later a.metrics v.metrics keeps r.2,
    );
    copies = λ m a v r. two server server _ r.1 r.2 (λ later b0 b1 e0 e1. (r.0, e0, e1));
  }
    where
      server :
          IsDeepCopy
            (PointsTo at_server (Itself {C = ConfigCell F} {A = Server}))
            (copy_pointer at_server assign)
      server = copy_pointer-IsDeepCopy assign-IsDeepCopy at_server

  abbrev pub ConfigurationReads :
      Reading (ConfigCell F) StoredDikiOperatorConfiguration DikiOperatorConfiguration
  ConfigurationReads m a v =
      (a.log ≡ v.log)
      × PointsTo at_election L.ElectionReads m a.leader_election v.leader_election
      × ControllersReads m a.controllers v.controllers
      × ServerConfigurationReads m a.server v.server

  deep_copy_into_configuration-IsDeepCopy :
      IsDeepCopy ConfigurationReads (deep_copy_into_configuration K)
  unfolding deep_copy_into_configuration
  deep_copy_into_configuration-IsDeepCopy = record {
    stable = λ m later a v keeps r. (
      r.0,
      (copy_pointer-IsDeepCopy L.election-IsDeepCopy at_election).stable m later a.leader_election
          v.leader_election keeps r.1,
      deep_copy_into_controllers-IsDeepCopy.stable m later a.controllers v.controllers keeps r.2,
      deep_copy_into_server_configuration-IsDeepCopy.stable m later a.server v.server keeps r.3,
    );
    copies = λ m a v r.
        three (copy_pointer-IsDeepCopy L.election-IsDeepCopy at_election)
          deep_copy_into_controllers-IsDeepCopy deep_copy_into_server_configuration-IsDeepCopy _ r.1
          r.2 r.3 (λ later b0 b1 b2 e0 e1 e2. (r.0, e0, e1, e2));
  }

  -- If a pointer reads as the operator's configuration (or is nil), then `DeepCopy` returns, the
  -- pointer reads as before, and however the memory changes afterwards without a write to a cell that
  -- the copy made, the copy reads as that configuration, the labels key by key.
  pub deep_copy_configuration-IsIsolated :
      (m : List (ConfigCell F)) (p : Pointer) (config : Option DikiOperatorConfiguration)
      → PointsTo at_configuration ConfigurationReads m p config
      → IsIsolated
          (PointsTo at_configuration ConfigurationReads)
          (deep_copy_configuration K)
          m
          p
          config
  unfolding deep_copy_configuration
  deep_copy_configuration-IsIsolated =
      copies-IsIsolated
        (copy_pointer-IsDeepCopy deep_copy_into_configuration-IsDeepCopy at_configuration)
