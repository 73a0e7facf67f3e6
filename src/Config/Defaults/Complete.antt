-- ===== src/Config/Defaults/Complete.antt =====
-- A configuration with its defaults is complete, and a complete one is left as it is.
use diki_operator.Common.{String, ◌≡◌, ◌≢◌, refl, sym, ap, ◌∙◌, Option, none, some}
use diki_operator.Common.{false}
use diki_operator.Common.Int.{pos, is_zero}
use diki_operator.Api.Config.{
  LeaderElectionConfiguration, DikiOperatorConfiguration, default_lock_object_name,
}
use diki_operator.Config.Defaults.{
  Library, or_default, default_leader_election, set_defaults_compliance_scan_config,
  set_defaults_server_configuration, set_defaults_log, set_defaults_leader_election,
  set_object_defaults,
}
use diki_operator.Config.Defaults.Parts.{
  IsServing, or_default_set, or_default_kept, default_server-IsServing, default_server_kept,
  https_server_set, https_server_kept, lock_set, namespace_set, name_set, period_kept, period_set,
  runner_kept, runner_set, timeout_set,
}

-- The documented behaviour of the library's defaults: they fill in what is not set, so that a
-- second call changes nothing, and they neither read nor write the names of the lock.
pub record IsRecommending (L : Library) : Type 0 where
  pub again : (l : LeaderElectionConfiguration) → L.recommended (L.recommended l) ≡ L.recommended l
  pub lock_kept :
      (l : LeaderElectionConfiguration)
      → l.resource_lock ≢ ""
      → (L.recommended l).resource_lock ≡ l.resource_lock
  pub names_kept :
      (l : LeaderElectionConfiguration) (namespace name : String)
      → L.recommended (record l { resource_namespace = namespace; resource_name = name })
        ≡ record (L.recommended l) { resource_namespace = namespace; resource_name = name }
  pub level_named : L.info_level ≢ ""
  pub format_named : L.format_json ≢ ""

pub record IsSettled (L : Library) (l : LeaderElectionConfiguration) : Type 0 where
  pub recommended : L.recommended l ≡ l
  pub lock_set : l.resource_lock ≢ ""
  pub namespace_set : l.resource_namespace ≢ ""
  pub name_set : l.resource_name ≢ ""

abbrev pub IsElecting : Library → Option LeaderElectionConfiguration → Type 0
IsElecting L none = ⊥
IsElecting L (some l) = IsSettled L l

-- Nothing that has a default is left out.
pub record IsComplete (L : Library) (c : DikiOperatorConfiguration) : Type 0 where
  pub level_set : c.log.level ≢ ""
  pub format_set : c.log.format ≢ ""
  pub electing : IsElecting L c.leader_election
  pub period_set : c.controllers.compliance_scan.sync_period ≢ none
  pub namespace_set : c.controllers.compliance_scan.diki_runner.namespace ≢ ""
  pub timeout_set : c.controllers.compliance_scan.diki_runner.pod_completion_timeout ≢ none
  pub probes : IsServing c.server.health_probes
  pub metrics : IsServing c.server.metrics
  pub webhooks_port_set : is_zero c.server.webhooks.port ≡ false

module _ (L : Library) (R : IsRecommending L) where
  leader_election-IsSettled :
      (l : LeaderElectionConfiguration) → IsSettled L (set_defaults_leader_election L l)
  unfolding set_defaults_leader_election
  leader_election-IsSettled l =
      let named : LeaderElectionConfiguration = record l {
        resource_lock = or_default l.resource_lock "leases";
      } in
      let r : LeaderElectionConfiguration = L.recommended named in
      record {
        recommended =
            R.names_kept r _ _
            ∙ ap {A = LeaderElectionConfiguration} {B = LeaderElectionConfiguration}
                (λ r'. record r' {
                  resource_namespace = or_default r.resource_namespace "kube-system";
                  resource_name = or_default r.resource_name default_lock_object_name;
                })
                (R.again named);
        lock_set =
            λ p. lock_set l.resource_lock (sym (R.lock_kept named (lock_set l.resource_lock)) ∙ p);
        namespace_set = namespace_set r.resource_namespace;
        name_set = name_set r.resource_name;
      }

  leader_election_kept :
      (l : LeaderElectionConfiguration) → IsSettled L l → set_defaults_leader_election L l ≡ l
  unfolding set_defaults_leader_election
  leader_election_kept l e =
      rw
        (
          or_default_kept l.resource_lock "leases" e.lock_set,
          e.recommended,
          or_default_kept l.resource_namespace "kube-system" e.namespace_set,
          or_default_kept l.resource_name default_lock_object_name e.name_set,
        )
        refl

  election_set :
      (l : Option LeaderElectionConfiguration)
      → IsElecting L (elim (default_leader_election l) [
        | none ↦ none
        | some l ↦ some (set_defaults_leader_election L l)
      ])
  unfolding default_leader_election
  election_set none = leader_election-IsSettled _
  election_set (some l) = leader_election-IsSettled l

  election_kept :
      (l : Option LeaderElectionConfiguration)
      → IsElecting L l
      → (elim (default_leader_election l) [
        | none ↦ none
        | some l ↦ some (set_defaults_leader_election L l)
      ])
        ≡ l
  unfolding default_leader_election
  election_kept none e = elim e [ ]
  election_kept (some l) e = ap some (leader_election_kept l e)

  -- If the library's defaults do what is documented of them, a configuration with its defaults is
  -- complete: no name, port, period or timeout that has a default is left out, and both the servers
  -- and the leader election are there.
  pub set_object_defaults-IsComplete :
      (c : DikiOperatorConfiguration) → IsComplete L (set_object_defaults L c)
  unfolding set_object_defaults set_defaults_log set_defaults_server_configuration
      set_defaults_compliance_scan_config
  set_object_defaults-IsComplete c = record {
    level_set = or_default_set c.log.level L.info_level R.level_named;
    format_set = or_default_set c.log.format L.format_json R.format_named;
    electing = election_set c.leader_election;
    period_set = period_set c.controllers.compliance_scan;
    namespace_set = runner_set c.controllers.compliance_scan.diki_runner;
    timeout_set = timeout_set _;
    probes = default_server-IsServing c.server.health_probes (pos 8081) refl;
    metrics = default_server-IsServing c.server.metrics (pos 8080) refl;
    webhooks_port_set = https_server_set c.server.webhooks;
  }

  -- If the library's defaults do what is documented of them, the defaults leave a complete
  -- configuration as it is.
  pub set_object_defaults_kept :
      (c : DikiOperatorConfiguration) → IsComplete L c → set_object_defaults L c ≡ c
  unfolding set_object_defaults set_defaults_log set_defaults_server_configuration
  set_object_defaults_kept c h =
      rw
        (
          or_default_kept c.log.level L.info_level h.level_set,
          or_default_kept c.log.format L.format_json h.format_set,
          period_kept c.controllers.compliance_scan h.period_set,
          runner_kept c.controllers.compliance_scan.diki_runner h.namespace_set h.timeout_set,
          default_server_kept c.server.health_probes (pos 8081) h.probes,
          default_server_kept c.server.metrics (pos 8080) h.metrics,
          https_server_kept c.server.webhooks h.webhooks_port_set,
        )
        (ap (λ l. record c { leader_election = l }) (election_kept c.leader_election h.electing))

  -- A second call of the defaults changes nothing.
  pub set_object_defaults_again :
      (c : DikiOperatorConfiguration)
      → set_object_defaults L (set_object_defaults L c) ≡ set_object_defaults L c
  set_object_defaults_again c =
      set_object_defaults_kept (set_object_defaults L c) (set_object_defaults-IsComplete c)
