-- ===== src/DeepCopy/Config/Cells.antt =====
-- The cells of a memory that holds configurations.
use diki_operator.Common.{none, some, refl}
use diki_operator.Api.Meta.{Labels}
use diki_operator.Api.Config.{Duration, Log, Server, Tls, HttpsServer}
use diki_operator.DeepCopy.Memory.{Store}
use diki_operator.DeepCopy.Config.{
  ConfigForeign, StoredDikiRunnerConfig, StoredComplianceScanConfig, StoredControllerConfiguration,
  StoredServerConfiguration, StoredDikiOperatorConfiguration,
}

pub data ConfigCell (F : ConfigForeign) : Type 0 where
  config_block : F.ConfigBlock → ConfigCell F
  duration_cell : Duration → ConfigCell F
  labels_cell : Labels → ConfigCell F
  election_cell : F.Election → ConfigCell F
  log_cell : Log → ConfigCell F
  server_cell : Server → ConfigCell F
  tls_cell : Tls → ConfigCell F
  https_server_cell : HttpsServer → ConfigCell F
  diki_runner_cell : StoredDikiRunnerConfig → ConfigCell F
  compliance_scan_config_cell : StoredComplianceScanConfig → ConfigCell F
  controllers_cell : StoredControllerConfiguration → ConfigCell F
  server_configuration_cell : StoredServerConfiguration → ConfigCell F
  configuration_cell : StoredDikiOperatorConfiguration → ConfigCell F

module _ {F : ConfigForeign} where
  abbrev pub at_duration : Store (ConfigCell F) Duration
  at_duration = record {
    put = duration_cell;
    get = λ c. elim c [ duration_cell x ↦ some x | _ ↦ none ];
    get-put = λ x. refl;
  }

  abbrev pub at_labels : Store (ConfigCell F) Labels
  at_labels = record {
    put = labels_cell;
    get = λ c. elim c [ labels_cell x ↦ some x | _ ↦ none ];
    get-put = λ x. refl;
  }

  abbrev pub at_election : Store (ConfigCell F) F.Election
  at_election = record {
    put = election_cell;
    get = λ c. elim c [ election_cell x ↦ some x | _ ↦ none ];
    get-put = λ x. refl;
  }

  abbrev pub at_log : Store (ConfigCell F) Log
  at_log = record {
    put = log_cell;
    get = λ c. elim c [ log_cell x ↦ some x | _ ↦ none ];
    get-put = λ x. refl;
  }

  abbrev pub at_server : Store (ConfigCell F) Server
  at_server = record {
    put = server_cell;
    get = λ c. elim c [ server_cell x ↦ some x | _ ↦ none ];
    get-put = λ x. refl;
  }

  abbrev pub at_tls : Store (ConfigCell F) Tls
  at_tls = record {
    put = tls_cell;
    get = λ c. elim c [ tls_cell x ↦ some x | _ ↦ none ];
    get-put = λ x. refl;
  }

  abbrev pub at_https_server : Store (ConfigCell F) HttpsServer
  at_https_server = record {
    put = https_server_cell;
    get = λ c. elim c [ https_server_cell x ↦ some x | _ ↦ none ];
    get-put = λ x. refl;
  }

  abbrev pub at_diki_runner : Store (ConfigCell F) StoredDikiRunnerConfig
  at_diki_runner = record {
    put = diki_runner_cell;
    get = λ c. elim c [ diki_runner_cell x ↦ some x | _ ↦ none ];
    get-put = λ x. refl;
  }

  abbrev pub at_compliance_scan_config : Store (ConfigCell F) StoredComplianceScanConfig
  at_compliance_scan_config = record {
    put = compliance_scan_config_cell;
    get = λ c. elim c [ compliance_scan_config_cell x ↦ some x | _ ↦ none ];
    get-put = λ x. refl;
  }

  abbrev pub at_controllers : Store (ConfigCell F) StoredControllerConfiguration
  at_controllers = record {
    put = controllers_cell;
    get = λ c. elim c [ controllers_cell x ↦ some x | _ ↦ none ];
    get-put = λ x. refl;
  }

  abbrev pub at_server_configuration : Store (ConfigCell F) StoredServerConfiguration
  at_server_configuration = record {
    put = server_configuration_cell;
    get = λ c. elim c [ server_configuration_cell x ↦ some x | _ ↦ none ];
    get-put = λ x. refl;
  }

  abbrev pub at_configuration : Store (ConfigCell F) StoredDikiOperatorConfiguration
  at_configuration = record {
    put = configuration_cell;
    get = λ c. elim c [ configuration_cell x ↦ some x | _ ↦ none ];
    get-put = λ x. refl;
  }
