-- ===== src/Tests/Equality.antt =====
-- Exact equality tests, for the parameters that compare two objects.
use diki_operator.Common.{
  String, ◌≡◌, ◌↔◌, refl, Bool, true, false, arith, ◌==◌, eq_iff, Bool-cases, inl, inr,
}
use native.Mathlib.Decide.{ℕ_discrete}
use diki_operator.Api.Scan.{ComplianceScanSpec, Condition}

string-discrete : Discrete String
string-discrete a b = elim (Bool-cases (a == b)) [
  | inl same ↦ yes ((eq_iff a b).0 same)
  | inr differs ↦ no (λ p. ground (arith, eq_iff a b))
]

pub spec-discrete : Discrete ComplianceScanSpec
spec-discrete = hlevel (string-discrete)

pub condition-discrete : Discrete Condition
condition-discrete = hlevel (string-discrete, ℕ_discrete)

abbrev answers {ℓ} : {A : Type ℓ} → Dec A → Bool
answers (yes p) = true
answers (no n) = false

answers_iff {ℓ} : {A : Type ℓ} (d : Dec A) → (answers d ≡ true) ↔ A
answers_iff (yes p) = (λ h. p, λ h. refl)
answers_iff (no n) = (λ h. absurd (ground arith), λ h. absurd (n h))

abbrev pub equal_test {ℓ} : {A : Type ℓ} → Discrete A → A → A → Bool
equal_test d a b = answers (d a b)

pub equal_test-exact {ℓ} :
    {A : Type ℓ} (d : Discrete A) (a b : A) → (equal_test d a b ≡ true) ↔ (a ≡ b)
equal_test-exact d a b = answers_iff (d a b)
