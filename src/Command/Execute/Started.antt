-- ===== src/Command/Execute/Started.antt =====
-- When the operator's command starts the manager, and that it never dereferences a nil pointer.
use mathlib.Core.Path.{subst}
use diki_operator.Common.{
  String, ◌≡◌, ◌≢◌, refl, ◌∙◌, List, [], map, Option, none, arith, ◌==◌, inl, inr, Bool-cases,
  Option-cases,
}
use diki_operator.Common.Errors.{Error, ok, Result-cases, ok-injective}
use diki_operator.Api.Config.{DikiOperatorConfiguration}
use diki_operator.Config.Defaults
use diki_operator.Config.Defaults.{set_object_defaults}
use diki_operator.Config.Defaults.Complete.{
  IsRecommending, IsComplete, set_object_defaults-IsComplete,
}
use diki_operator.Config.Validation
use diki_operator.Config.Validation.{validate}
use diki_operator.Config.Validation.Valid.{IsValid}
use diki_operator.Command.Options.{System, decode_into, complete, validate_options, log_config}
use diki_operator.Command.Manager.{
  Setup, Runtime, ManagerOptions, manager_options, setups, started, panicked, set_up, run,
}
use diki_operator.Command.Execute.{execute}
use diki_operator.Command.Manager.SetUp.{
  Elects, manager_options-ne-none, set_up-ne-panicked, set_up_succeeds,
}

module _ (D : Defaults.Library) (V : Validation.Library) (S : System) (R : Runtime)
    (new_zap_logger : String → String → Option Error) (recommending : IsRecommending D)
    (elects : Elects D) where
  complete-IsComplete :
      (file : String) (c : DikiOperatorConfiguration) → complete D V S file ≡ ok c → IsComplete D c
  unfolding complete decode_into
  complete-IsComplete file c h = elim (Bool-cases (file == "")) [
    | inl e ↦ absurd (ground (arith, h, e))
    | inr e ↦ elim (Result-cases (S.read_file file)) [
      | inr (failure, e1) ↦ absurd (ground (arith, h, e, e1))
      | inl (text, e1) ↦ elim (Result-cases (S.decode text)) [
        | inr (failure, e2) ↦ absurd (ground (arith, h, e, e1, e2))
        | inl (raw, e2) ↦
            let same : set_object_defaults D raw ≡ c =
              ok-injective (ground (arith, h, e, e1, e2)) in
            subst (λ k. IsComplete D k) same (set_object_defaults-IsComplete D recommending raw)
      ]
    ]
  ]

  run-ne-panicked : (c : DikiOperatorConfiguration) → IsComplete D c → (run R c).1 ≢ panicked
  unfolding run
  run-ne-panicked c h p = elim (Result-cases R.get_config) [
    | inr (failure, e) ↦ ground (arith, p, e)
    | inl (rest, e) ↦ elim (Option-cases (manager_options c)) [
      | inl e1 ↦ manager_options-ne-none D c elects h e1
      | inr (options, e1) ↦ elim (Result-cases (R.new_manager (R.limited 100 130 rest) options)) [
        | inr (failure, e2) ↦ ground (arith, p, e, e1, e2)
        | inl (m, e2) ↦ set_up-ne-panicked R setups m (ground (arith, p, e, e1, e2))
      ]
    ]
  ]

  -- If the library's defaults do what is documented of them, the command dereferences no nil pointer,
  -- whatever the file holds and whichever calls fail.
  pub execute-ne-panicked : (file : String) → (execute D V S R new_zap_logger file).1 ≢ panicked
  unfolding execute
  execute-ne-panicked file p = elim (Result-cases (complete D V S file)) [
    | inr (failure, e) ↦ ground (arith, p, e)
    | inl (c, e) ↦ elim (Option-cases (validate_options D V S c)) [
      | inr (failure, e1) ↦ ground (arith, p, e, e1)
      | inl e1 ↦ elim (Option-cases (new_zap_logger c.log.level c.log.format)) [
        | inr (failure, e2) ↦ unfold log_config in ground (arith, p, e, e1, e2)
        | inl e2 ↦
            run-ne-panicked c (complete-IsComplete file c e)
              (unfold log_config in ground (arith, p, e, e1, e2))
      ]
    ]
  ]

  -- What the command has come through when the manager starts.
  pub record HasStarted (file : String) (calls : List Setup) : Type 0 where
    pub config : DikiOperatorConfiguration
    pub read : complete D V S file ≡ ok config
    pub filled : IsComplete D config
    pub valid : IsValid V config
    pub made : calls ≡ map (λ call. call.0) setups

  -- If the library's defaults do what is documented of them, the file decodes to a configuration
  -- that is valid with its defaults, and the logger, the cluster's configuration and every call at
  -- the manager succeed, then the command starts the manager, after each of these calls.
  pub execute_starts :
      (file : String) (c : DikiOperatorConfiguration) (rest : R.Rest)
      → complete D V S file ≡ ok c
      → validate V c ≡ []
      → new_zap_logger c.log.level c.log.format ≡ none
      → R.get_config ≡ ok rest
      → ((options : ManagerOptions) (k : R.Rest)
          → (m : R.Manager) × (R.new_manager k options ≡ ok m))
      → ((call : Setup) (m : R.Manager) → (R.perform call m).0 ≡ none)
      → (r : Option Error) × (execute D V S R new_zap_logger file
          ≡ (map (λ call. call.0) setups, started r))
  unfolding execute run validate_options log_config set_up
  execute_starts file c rest read valid logs configured makes performs =
      elim (Option-cases (manager_options c)) [
        | inl e ↦ absurd (manager_options-ne-none D c elects (complete-IsComplete file c read) e)
        | inr (options, e) ↦
            let (m, made) = makes options (R.limited 100 130 rest) in
            let (r, done) = set_up_succeeds R setups m performs in
            let through : execute D V S R new_zap_logger file ≡ set_up R setups m =
              rw (execute, run, read, valid, logs, configured, e, made) refl in
            (r, through ∙ done)
      ]
