-- ===== src/DeepCopy/Config/Copies.antt =====
-- `DeepCopyInto` and `DeepCopy` of the configuration and its parts.
use diki_operator.Common.{[]}
use diki_operator.Common.Maps.{copy}
use diki_operator.Api.Meta.{Labels}
use diki_operator.Api.Config.{Log, Server, Tls, HttpsServer}
use diki_operator.DeepCopy.Memory.{Pointer, Run, pure, ◌>>=◌, copy_pointer, assign}
use diki_operator.DeepCopy.Config.{
  ConfigForeign, StoredDikiRunnerConfig, StoredComplianceScanConfig, StoredControllerConfiguration,
  StoredServerConfiguration, StoredDikiOperatorConfiguration,
}
use diki_operator.DeepCopy.Config.Cells.{
  ConfigCell, at_duration, at_labels, at_election, at_log, at_server, at_tls, at_https_server,
  at_diki_runner, at_compliance_scan_config, at_controllers, at_server_configuration,
  at_configuration,
}

pub record ConfigMachinery (F : ConfigForeign) : Type 0 where
  pub deep_copy_election : F.Election → Run (ConfigCell F) F.Election
  -- The order in which `range` visits the entries of a map.
  pub range : Labels → Labels

module _ {F : ConfigForeign} (K : ConfigMachinery F) where
  -- `for key, val := range *in { (*out)[key] = val }`, from an empty map
  unfoldable pub copy_entries : Labels → Run (ConfigCell F) Labels
  copy_entries from = pure (copy [] (K.range from))

  -- `*out = new(v1.Duration); **out = **in`, and so for a server
  unfoldable pub deep_copy_into_diki_runner :
      StoredDikiRunnerConfig → Run (ConfigCell F) StoredDikiRunnerConfig
  deep_copy_into_diki_runner from = do
    labels ← copy_pointer at_labels copy_entries from.labels
    pod_completion_timeout ← copy_pointer at_duration assign from.pod_completion_timeout
    pure (record from { labels = labels; pod_completion_timeout = pod_completion_timeout })

  unfoldable pub deep_copy_into_compliance_scan_config :
      StoredComplianceScanConfig → Run (ConfigCell F) StoredComplianceScanConfig
  deep_copy_into_compliance_scan_config from = do
    sync_period ← copy_pointer at_duration assign from.sync_period
    diki_runner ← deep_copy_into_diki_runner from.diki_runner
    pure (record from { sync_period = sync_period; diki_runner = diki_runner })

  unfoldable pub deep_copy_into_controllers :
      StoredControllerConfiguration → Run (ConfigCell F) StoredControllerConfiguration
  deep_copy_into_controllers from = do
    compliance_scan ← deep_copy_into_compliance_scan_config from.compliance_scan
    pure (record from { compliance_scan = compliance_scan })

  unfoldable pub deep_copy_into_server_configuration :
      StoredServerConfiguration → Run (ConfigCell F) StoredServerConfiguration
  deep_copy_into_server_configuration from = do
    health_probes ← copy_pointer at_server assign from.health_probes
    metrics ← copy_pointer at_server assign from.metrics
    pure (record from { health_probes = health_probes; metrics = metrics })

  unfoldable pub deep_copy_into_configuration :
      StoredDikiOperatorConfiguration → Run (ConfigCell F) StoredDikiOperatorConfiguration
  deep_copy_into_configuration from = do
    leader_election ← copy_pointer at_election K.deep_copy_election from.leader_election
    controllers ← deep_copy_into_controllers from.controllers
    server ← deep_copy_into_server_configuration from.server
    pure (record from {
      leader_election = leader_election;
      controllers = controllers;
      server = server;
    })

  unfoldable pub deep_copy_into_log : Log → Run (ConfigCell F) Log
  deep_copy_into_log from = assign from

  unfoldable pub deep_copy_into_server : Server → Run (ConfigCell F) Server
  deep_copy_into_server from = assign from

  unfoldable pub deep_copy_into_tls : Tls → Run (ConfigCell F) Tls
  deep_copy_into_tls from = assign from

  unfoldable pub deep_copy_into_https_server : HttpsServer → Run (ConfigCell F) HttpsServer
  deep_copy_into_https_server from = assign from

  unfoldable pub deep_copy_log : Pointer → Run (ConfigCell F) Pointer
  deep_copy_log = copy_pointer at_log deep_copy_into_log

  unfoldable pub deep_copy_server : Pointer → Run (ConfigCell F) Pointer
  deep_copy_server = copy_pointer at_server deep_copy_into_server

  unfoldable pub deep_copy_tls : Pointer → Run (ConfigCell F) Pointer
  deep_copy_tls = copy_pointer at_tls deep_copy_into_tls

  unfoldable pub deep_copy_https_server : Pointer → Run (ConfigCell F) Pointer
  deep_copy_https_server = copy_pointer at_https_server deep_copy_into_https_server

  unfoldable pub deep_copy_diki_runner : Pointer → Run (ConfigCell F) Pointer
  deep_copy_diki_runner = copy_pointer at_diki_runner deep_copy_into_diki_runner

  unfoldable pub deep_copy_compliance_scan_config : Pointer → Run (ConfigCell F) Pointer
  deep_copy_compliance_scan_config =
      copy_pointer at_compliance_scan_config deep_copy_into_compliance_scan_config

  unfoldable pub deep_copy_controllers : Pointer → Run (ConfigCell F) Pointer
  deep_copy_controllers = copy_pointer at_controllers deep_copy_into_controllers

  unfoldable pub deep_copy_server_configuration : Pointer → Run (ConfigCell F) Pointer
  deep_copy_server_configuration =
      copy_pointer at_server_configuration deep_copy_into_server_configuration

  unfoldable pub deep_copy_configuration : Pointer → Run (ConfigCell F) Pointer
  deep_copy_configuration = copy_pointer at_configuration deep_copy_into_configuration
