-- ===== src/Config/Validation/Valid.antt =====
-- When a configuration is accepted.
use diki_operator.Common.{
  String, ◌≡◌, ◌≢◌, ◌↔◌, ◌≤◌, ◌*◌, refl, Option, none, some, ◌==◌, eq_iff, arith,
}
use diki_operator.Common.{true, false, List, [], ◌∷◌, ◌++◌, if◌then◌else◌, ◌⊎◌}
use diki_operator.Common.{◌<◌}
use diki_operator.Common.Int.{ℤ, pos, negsuc, is_negative}
use diki_operator.Api.Meta.{Labels}
use diki_operator.Api.Config.{
  Duration, minute, Log, DikiRunnerConfig, ControllerConfiguration, Server, ServerConfiguration,
  LeaderElectionConfiguration, DikiOperatorConfiguration,
}
use diki_operator.Config.Validation.{
  FieldPath, FieldError, Library, has_name, validate_name, is_timeout, validate_timeout,
  validate_log, validate_diki_runner, validate_controllers, validate_server,
  validate_server_configuration, validate,
}

-- Empty, or one of the names.
abbrev pub IsNameOf : List String → String → Type 0
IsNameOf names name = (name ≡ "") ⊎ (has_name names name ≡ true)

-- Not set, or more than zero and one hour at most.
abbrev pub IsTimeout : Option Duration → Type 0
IsTimeout none = Unit
IsTimeout (some (pos n)) = (0 < n) × (n ≤ 60 * minute)
IsTimeout (some (negsuc n)) = ⊥

-- Not set, or with a port that is not negative.
abbrev pub HasPort : Option Server → Type 0
HasPort none = Unit
HasPort (some s) = is_negative s.port ≡ false

-- What the operator asks of its configuration, with what the libraries ask of their parts.
pub record IsValid (L : Library) (c : DikiOperatorConfiguration) : Type 0 where
  pub level : IsNameOf L.all_log_levels c.log.level
  pub format : IsNameOf L.all_log_formats c.log.format
  pub labels :
      (path : FieldPath)
      → L.validate_labels c.controllers.compliance_scan.diki_runner.labels path ≡ []
  pub timeout : IsTimeout c.controllers.compliance_scan.diki_runner.pod_completion_timeout
  pub election : (path : FieldPath) → L.validate_leader_election c.leader_election path ≡ []
  pub webhooks_port : is_negative c.server.webhooks.port ≡ false
  pub probes_port : HasPort c.server.health_probes
  pub metrics_port : HasPort c.server.metrics
  pub certificates : c.server.webhooks.tls.server_cert_dir ≢ ""

-- The documented behaviour of the libraries' checks: a number passes if it is not negative, and
-- whether labels or leader election settings pass does not depend on where they stand.
pub record IsChecking (L : Library) : Type 0 where
  pub number :
      (n : ℤ) (path : FieldPath)
      → (L.validate_nonnegative_field n path ≡ []) ↔ (is_negative n ≡ false)
  pub labels_anywhere :
      (labels : Labels) (p q : FieldPath)
      → L.validate_labels labels p ≡ []
      → L.validate_labels labels q ≡ []
  pub election_anywhere :
      (l : Option LeaderElectionConfiguration) (p q : FieldPath)
      → L.validate_leader_election l p ≡ []
      → L.validate_leader_election l q ≡ []

append-eq-nil {ℓ} : {A : Type ℓ} (xs ys : List A) → (xs ++ ys ≡ []) ↔ ((xs ≡ []) × (ys ≡ []))
append-eq-nil [] ys = (λ h. (refl, h), λ h. h.1)
append-eq-nil (x ∷ xs) ys = ground arith

validate_name_iff :
    (name : String) (names : List String) (path : FieldPath)
    → (validate_name name names path ≡ []) ↔ IsNameOf names name
unfolding validate_name
validate_name_iff name names path = ground (arith, eq_iff name "")

validate_timeout_iff :
    (d : Option Duration) (path : FieldPath) → (validate_timeout d path ≡ []) ↔ IsTimeout d
unfolding validate_timeout is_timeout
validate_timeout_iff none path = (λ h. tt, λ h. refl)
validate_timeout_iff (some (pos n)) path = ground arith
validate_timeout_iff (some (negsuc n)) path = ground arith

module _ (L : Library) (K : IsChecking L) where
  validate_server_iff :
      (s : Option Server) (path : FieldPath) → (validate_server L s path ≡ []) ↔ HasPort s
  unfolding validate_server
  validate_server_iff none path = (λ h. tt, λ h. refl)
  validate_server_iff (some s) path = K.number s.port _

  validate_log_iff :
      (log : Log) (path : FieldPath)
      → (validate_log L log path ≡ [])
        ↔ (IsNameOf L.all_log_levels log.level × IsNameOf L.all_log_formats log.format)
  unfolding validate_log
  validate_log_iff log path =
      let both =
        append-eq-nil (validate_name log.level L.all_log_levels (path ++ ("level" ∷ [])))
          (validate_name log.format L.all_log_formats (path ++ ("format" ∷ []))) in
      let level = validate_name_iff log.level L.all_log_levels (path ++ ("level" ∷ [])) in
      let format = validate_name_iff log.format L.all_log_formats (path ++ ("format" ∷ [])) in
      (λ h. (level.0 (both.0 h).0, format.0 (both.0 h).1), λ h. both.1 (level.1 h.0, format.1 h.1))

  validate_controllers_iff :
      (c : ControllerConfiguration) (path : FieldPath)
      → (validate_controllers L c path ≡ []) ↔ (
          ((q : FieldPath) → L.validate_labels c.compliance_scan.diki_runner.labels q ≡ [])
          × IsTimeout c.compliance_scan.diki_runner.pod_completion_timeout)
  unfolding validate_controllers validate_diki_runner
  validate_controllers_iff c path =
      let runner : DikiRunnerConfig = c.compliance_scan.diki_runner in
      let p : FieldPath = path ++ ("complianceScan" ∷ "dikiRunner" ∷ []) in
      let both =
        append-eq-nil (L.validate_labels runner.labels (p ++ ("labels" ∷ [])))
          (validate_timeout runner.pod_completion_timeout (p ++ ("podCompletionTimeout" ∷ []))) in
      let timeout =
        validate_timeout_iff runner.pod_completion_timeout (p ++ ("podCompletionTimeout" ∷ [])) in
      (
        λ h. (λ q. K.labels_anywhere runner.labels _ q (both.0 h).0, timeout.0 (both.0 h).1),
        λ h. both.1 (h.0 _, timeout.1 h.1),
      )

  certificates_iff :
      (dir : String) (e : FieldError) → ((if dir == "" then e ∷ [] else []) ≡ []) ↔ (dir ≢ "")
  certificates_iff dir e = ground (arith, eq_iff dir "")

  validate_server_configuration_iff :
      (c : ServerConfiguration) (path : FieldPath)
      → (validate_server_configuration L c path ≡ []) ↔ (
          (is_negative c.webhooks.port ≡ false)
          × HasPort c.health_probes
          × HasPort c.metrics
          × (c.webhooks.tls.server_cert_dir ≢ ""))
  unfolding validate_server_configuration
  validate_server_configuration_iff c path =
      let webhooks = K.number c.webhooks.port (path ++ ("webhooks" ∷ "port" ∷ [])) in
      let probes = validate_server_iff c.health_probes (path ++ ("healthProbes" ∷ [])) in
      let metrics = validate_server_iff c.metrics (path ++ ("metrics" ∷ [])) in
      let dir = certificates_iff c.webhooks.tls.server_cert_dir _ in
      (
        λ h.
            let (w, h1) = (append-eq-nil _ _).0 h in
            let (p, h2) = (append-eq-nil _ _).0 h1 in
            let (m, d) = (append-eq-nil _ _).0 h2 in
            (webhooks.0 w, probes.0 p, metrics.0 m, dir.0 d),
        λ h. (append-eq-nil _ _).1 (
          webhooks.1 h.0,
          (append-eq-nil _ _).1 (probes.1 h.1, (append-eq-nil _ _).1 (metrics.1 h.2, dir.1 h.3)),
        ),
      )

  -- If the libraries' checks do what is documented of them, a configuration has no errors exactly if
  -- it is valid: the level and the format are empty or known, the timeout is not set or more than
  -- zero and one hour at most, no port is negative, there is a directory of certificates, and the
  -- libraries accept the labels and the leader election.
  pub validate_iff : (c : DikiOperatorConfiguration) → (validate L c ≡ []) ↔ IsValid L c
  unfolding validate
  validate_iff c =
      let log = validate_log_iff c.log ("log" ∷ []) in
      let controllers = validate_controllers_iff c.controllers ("controllers" ∷ []) in
      let server = validate_server_configuration_iff c.server ("server" ∷ []) in
      (
        λ h.
            let (l, h1) = (append-eq-nil _ _).0 h in
            let (k, h2) = (append-eq-nil _ _).0 h1 in
            let (e, s) = (append-eq-nil _ _).0 h2 in
            let (level, format) = log.0 l in
            let (labels, timeout) = controllers.0 k in
            let (webhooks, probes, metrics, dir) = server.0 s in
            record {
              level = level;
              format = format;
              labels = labels;
              timeout = timeout;
              election = λ q. K.election_anywhere c.leader_election _ q e;
              webhooks_port = webhooks;
              probes_port = probes;
              metrics_port = metrics;
              certificates = dir;
            },
        λ v. (append-eq-nil _ _).1 (
          log.1 (v.level, v.format),
          (append-eq-nil _ _).1 (
            controllers.1 (v.labels, v.timeout),
            (append-eq-nil _ _).1 (
              v.election _,
              server.1 (v.webhooks_port, v.probes_port, v.metrics_port, v.certificates),
            ),
          ),
        ),
      )
