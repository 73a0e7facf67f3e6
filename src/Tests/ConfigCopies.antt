-- ===== src/Tests/ConfigCopies.antt =====
-- The deep copy of a configuration at a concrete memory.
use diki_operator.Common.{String, refl, List, [], ◌∷◌, none, some, true}
use diki_operator.Common.Int.{pos}
use diki_operator.Common.Maps.{lookup}
use diki_operator.Api.Config.{
  LeaderElectionConfiguration, DikiOperatorConfiguration, HttpsServer, Log, Server,
}
use diki_operator.DeepCopy.Memory.{load, assign}
use diki_operator.DeepCopy.Pointers.{Itself, PointsTo, assign-IsDeepCopy}
use diki_operator.DeepCopy.Isolation.{IsIsolated}
use diki_operator.DeepCopy.Config.{ConfigForeign}
use diki_operator.DeepCopy.Config.Cells.{
  ConfigCell, duration_cell, labels_cell, election_cell, server_cell, configuration_cell,
  at_configuration,
}
use diki_operator.DeepCopy.Config.Copies.{ConfigMachinery, deep_copy_configuration}
use diki_operator.DeepCopy.Config.Laws.{
  IsConfigMachinery, ConfigurationReads, deep_copy_configuration-IsIsolated,
}

abbrev foreign : ConfigForeign
foreign = record { ConfigBlock = String; Election = LeaderElectionConfiguration }

abbrev machinery : ConfigMachinery foreign
machinery = record { deep_copy_election = assign; range = λ m. m }

abbrev lawful : IsConfigMachinery machinery
lawful = record {
  ElectionReads = Itself;
  election-IsDeepCopy = assign-IsDeepCopy;
  range-UniqueKeys = λ m h. h;
  lookup-range = λ k m h. refl;
}

abbrev election : LeaderElectionConfiguration
election = record {
  leader_elect = some true;
  lease_duration = pos 15;
  renew_deadline = pos 10;
  retry_period = pos 2;
  resource_lock = "leases";
  resource_name = "diki";
  resource_namespace = "kube-system";
}

abbrev log : Log
log = record { level = "info"; format = "json" }

abbrev webhooks : HttpsServer
webhooks = record {
  server = record { port = pos 10443; bind_address = "" };
  tls = record { server_cert_dir = "/certs" };
}

abbrev metrics : Server
metrics = record { port = pos 8080; bind_address = "" }

abbrev memory : List (ConfigCell foreign)
memory =
    duration_cell (pos 60)
    ∷ labels_cell (("app", "runner") ∷ ("team", "diki") ∷ [])
    ∷ election_cell election
    ∷ server_cell metrics
    ∷ configuration_cell (record {
      log = log;
      leader_election = some 2;
      controllers = record {
        compliance_scan = record {
          sync_period = some 0;
          diki_runner = record {
            namespace = "kube-system";
            labels = some 1;
            pod_completion_timeout = none;
          };
        };
      };
      server = record { webhooks = webhooks; health_probes = none; metrics = some 3 };
    })
    ∷ []

abbrev configuration : DikiOperatorConfiguration
configuration = record {
  log = log;
  leader_election = some election;
  controllers = record {
    compliance_scan = record {
      sync_period = some (pos 60);
      diki_runner = record {
        namespace = "kube-system";
        labels = ("app", "runner") ∷ ("team", "diki") ∷ [];
        pod_completion_timeout = none;
      };
    };
  };
  server = record { webhooks = webhooks; health_probes = none; metrics = some metrics };
}

deep_copy_configuration-IsIsolated_example :
    IsIsolated
      (PointsTo at_configuration (ConfigurationReads lawful))
      (deep_copy_configuration machinery)
      memory
      (some 4)
      (some configuration)
unfolding load lookup
deep_copy_configuration-IsIsolated_example =
    deep_copy_configuration-IsIsolated lawful memory (some 4) (some configuration) (
      _,
      refl,
      (
        refl,
        (_, refl, refl),
        ((_, refl, refl), (refl, (_, refl, ((refl, (refl, tt)), λ k. refl)), refl)),
        (refl, refl, (_, refl, refl)),
      ),
    )
