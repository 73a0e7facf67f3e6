-- ===== src/Command/Manager/SetUp.antt =====
-- The manager's options are made of a complete configuration, and its set-up is the given calls.
use mathlib.Core.Path.{subst}
use diki_operator.Common.{
  ◌≡◌, ◌≢◌, refl, ap, List, [], ◌∷◌, map, Option, none, arith, inl, inr, Option-cases,
}
use diki_operator.Common.Errors.{Error}
use diki_operator.Api.Config.{LeaderElectionConfiguration, DikiOperatorConfiguration}
use diki_operator.Config.Defaults
use diki_operator.Config.Defaults.{set_object_defaults}
use diki_operator.Config.Defaults.Parts.{IsServing}
use diki_operator.Config.Defaults.Complete.{IsComplete, IsElecting}
use diki_operator.Command.Manager.{
  Setup, Runtime, manager_options, started, panicked, start_manager, set_up,
}

-- The library's defaults say whether to take part in the election.
abbrev pub Elects : Defaults.Library → Type 0
Elects D = (l : LeaderElectionConfiguration) → (D.recommended l).leader_elect ≢ none

elects_set :
    (D : Defaults.Library) (l : LeaderElectionConfiguration)
    → Elects D
    → D.recommended l ≡ l
    → l.leader_elect ≢ none
elects_set D l elects same = subst (λ k. k.leader_elect ≢ none) same (elects l)

-- A complete configuration has every pointer that the manager's options read.
pub manager_options-ne-none :
    (D : Defaults.Library) (c : DikiOperatorConfiguration)
    → Elects D
    → IsComplete D c
    → manager_options c ≢ none
unfolding manager_options
manager_options-ne-none D c elects h p = elim (Option-cases c.leader_election) [
  | inl e ↦ absurd (subst (λ l. IsElecting D l) e h.electing)
  | inr (l, e) ↦
      let settled = subst (λ l. IsElecting D l) e h.electing in
      elim (Option-cases l.leader_elect) [
        | inl e1 ↦ absurd (elects_set D l elects settled.recommended e1)
        | inr (elect, e1) ↦ elim (Option-cases c.server.metrics) [
          | inl e2 ↦ absurd (subst (λ s. IsServing s) e2 h.metrics)
          | inr (metrics, e2) ↦ elim (Option-cases c.server.health_probes) [
            | inl e3 ↦ absurd (subst (λ s. IsServing s) e3 h.probes)
            | inr (probes, e3) ↦ ground (arith, p, e, e1, e2, e3)
          ]
        ]
      ]
]

module _ (R : Runtime) where
  pub set_up-ne-panicked :
      (calls : List (Setup × (Error → Error))) (m : R.Manager) → (set_up R calls m).1 ≢ panicked
  unfolding set_up start_manager
  set_up-ne-panicked [] m p = ground arith
  set_up-ne-panicked ((call, failure) ∷ calls) m p =
      let rest = set_up-ne-panicked calls (R.perform call m).1 in
      elim (Option-cases (R.perform call m).0) [
        | inl e ↦ rest (ground (arith, p, e))
        | inr (failed, e) ↦ ground (arith, p, e)
      ]

  pub set_up_started :
      (calls : List (Setup × (Error → Error))) (m : R.Manager) (e : Option Error)
      → (set_up R calls m).1 ≡ started e
      → (set_up R calls m).0 ≡ map (λ c. c.0) calls
  unfolding set_up start_manager
  set_up_started [] m e h = refl
  set_up_started ((call, failure) ∷ calls) m e h =
      let rest = set_up_started calls (R.perform call m).1 e in
      elim (Option-cases (R.perform call m).0) [
        | inl ok_call ↦ rw (set_up, ok_call) (ap (◌∷◌ call) (rest (ground (arith, h, ok_call))))
        | inr (failed, bad_call) ↦ absurd (ground (arith, h, bad_call))
      ]

  pub set_up_succeeds :
      (calls : List (Setup × (Error → Error))) (m : R.Manager)
      → ((call : Setup) (k : R.Manager) → (R.perform call k).0 ≡ none)
      → (r : Option Error) × (set_up R calls m ≡ (map (λ c. c.0) calls, started r))
  unfolding set_up start_manager
  set_up_succeeds [] m h = (_, refl)
  set_up_succeeds ((call, failure) ∷ calls) m h =
      let (r, e) = set_up_succeeds calls (R.perform call m).1 h in
      (r, rw (set_up, h call m, e) refl)
