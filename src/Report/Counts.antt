-- ===== src/Report/Counts.antt =====
-- What the summaries count: the rules with a status, the same ones that the findings list.
use mathlib.Core.List.{Memᴰ, append_assoc, append-nil}
use diki_operator.Common.{
  ℕ, ◌+◌, ◌%◌, ◌^◌, ◌<◌, ◌≤◌, String, ◌≡◌, refl, sym, ◌∙◌, ap, ◌≢◌, Bool, true, ◌↔◌,
}
use diki_operator.Common.{
  List, [], ◌∷◌, ◌++◌, map, ◌==◌, eq_iff, arith, keep, length, if◌then◌else◌,
}
use diki_operator.Common.{contains_func, Bool-cases, inl, inr, length-map, All}
use diki_operator.Common.Int.{ℤ, pos, increment32, int32_of_small}
use diki_operator.Api.Scan.{RulesSummary, Rule}
use diki_operator.Report.Summary.{
  Check, count_checks, ReportRule, ReportRuleset, Statuses, has_status, num_from,
  num_of_rules_with_status, findings_from, get_ruleset_findings_by_status, assign, count_statuses,
  no_rules, ruleset_summary_count,
}

length-keep_le :
    (p : ReportRule → Bool) (rules : List ReportRule) → length (keep p rules) ≤ length rules
length-keep_le p [] = omega arith
length-keep_le p (x ∷ rules) = ground (arith, length-keep_le p rules)

count_checks-has_status :
    (status : String) (num : ℕ) (checks : List Check)
    → count_checks status num checks
      ≡ (if contains_func checks (λ check. check.status == status) then increment32 num else num)
unfolding count_checks
count_checks-has_status status num [] = refl
count_checks-has_status status num (check ∷ checks) = elim (Bool-cases (check.status == status)) [
  | inl found ↦ rw (found, count_checks) refl
  | inr other ↦ rw (other, count_checks) (count_checks-has_status status num checks)
]

num_from-keep :
    (status : String) (num : ℕ) (rules : List ReportRule)
    → num + length rules < 2 ^ 31
    → num_from status num rules ≡ num + length (keep (has_status status) rules)
unfolding num_from increment32
num_from-keep status num [] h = omega arith
num_from-keep status num (rule ∷ rules) h = elim (Bool-cases (has_status status rule)) [
  | inl found ↦
      let small : (num + 1) % 2 ^ 32 ≡ num + 1 = omega arith in
      rw (count_checks-has_status status num rule.checks, found, small)
        (num_from-keep status (num + 1) rules (omega arith) ∙ omega arith)
  | inr none_found ↦
      rw (count_checks-has_status status num rule.checks, none_found)
        (num_from-keep status num rules (omega arith))
]

abbrev pub to_finding : ReportRule → Rule
to_finding rule = record { id = rule.id; name = rule.name }

-- The rules with the status, as findings.
abbrev pub findings : String → List ReportRule → List Rule
findings status rules = map to_finding (keep (has_status status) rules)

findings_from-keep :
    (status : String) (acc : List Rule) (rules : List ReportRule)
    → findings_from status acc rules ≡ acc ++ findings status rules
unfolding findings_from
findings_from-keep status acc [] = sym (append-nil acc)
findings_from-keep status acc (rule ∷ rules) = elim (Bool-cases (has_status status rule)) [
  | inl found ↦ rw found (findings_from-keep status _ rules ∙ append_assoc acc _ _)
  | inr none_found ↦ rw none_found (findings_from-keep status acc rules)
]

-- With fewer than 2^31 rules, the list of findings of a status has, in order, the rules with a
-- check of that status and no others, and the count of the status is the length of that list.
pub findings_lem :
    (r : ReportRuleset) (status : String)
    → length r.rules < 2 ^ 31
    → (get_ruleset_findings_by_status r status ≡ findings status r.rules)
      × (num_of_rules_with_status r status ≡ pos (length (get_ruleset_findings_by_status r status)))
findings_lem r status h = (listed, counted)
  where
    listed : get_ruleset_findings_by_status r status ≡ findings status r.rules
    listed = unfold get_ruleset_findings_by_status in findings_from-keep status [] r.rules

    counted :
        num_of_rules_with_status r status ≡ pos (length (get_ruleset_findings_by_status r status))
    counted =
        let num = num_from-keep status 0 r.rules (omega arith) in
        let few = length-keep_le (has_status status) r.rules in
        unfold num_of_rules_with_status in
        int32_of_small (num_from status 0 r.rules) (omega (arith, num, few))
        ∙ ap pos (
            num
            ∙ omega (
              arith,
              length-map to_finding (keep (has_status status) r.rules),
              ap (λ (l : List Rule). length l) listed,
            ))

-- The texts of a list differ from one another.
abbrev pub AllDistinct : List String → Type 0
AllDistinct [] = Unit {0}
AllDistinct (x ∷ xs) = All (λ y. x ≢ y) xs × AllDistinct xs

module _ (T : Statuses) (r : ReportRuleset) where
  -- A field of the summary is written by one status alone.
  abbrev IsField : (RulesSummary → ℤ) → String → Type 0
  IsField g status =
      (acc : RulesSummary) (other : String) (num : ℤ)
      → g (assign T acc other num) ≡ (if other == status then num else g acc)

  module _ (g : RulesSummary → ℤ) (status : String) (field : IsField g status) where
    count_statuses_stays :
        (acc : RulesSummary) (statuses : List String)
        → g acc ≡ num_of_rules_with_status r status
        → g (count_statuses T r acc statuses) ≡ num_of_rules_with_status r status
    unfolding count_statuses
    count_statuses_stays acc [] h = h
    count_statuses_stays acc (other ∷ statuses) h =
        count_statuses_stays (assign T acc other (num_of_rules_with_status r other)) statuses (
          field acc other (num_of_rules_with_status r other)
          ∙ ground (arith, eq_iff other status, h))

    count_statuses_reaches :
        (acc : RulesSummary) (statuses : List String)
        → Memᴰ status statuses
        → g (count_statuses T r acc statuses) ≡ num_of_rules_with_status r status
    unfolding count_statuses
    count_statuses_reaches acc [] m = elim m [ ]
    count_statuses_reaches acc (other ∷ statuses) (Memᴰ.head e) =
        count_statuses_stays (assign T acc other (num_of_rules_with_status r other)) statuses (
          field acc other (num_of_rules_with_status r other)
          ∙ ground (arith, eq_iff other status, e))
    count_statuses_reaches acc (other ∷ statuses) (Memᴰ.tail m) =
        count_statuses_reaches (assign T acc other (num_of_rules_with_status r other)) statuses m

  -- The summary that the counts make.
  abbrev pub counted : RulesSummary
  counted = record {
    passed = num_of_rules_with_status r T.passed;
    skipped = num_of_rules_with_status r T.skipped;
    accepted = num_of_rules_with_status r T.accepted;
    warning = num_of_rules_with_status r T.warning;
    failed = num_of_rules_with_status r T.failed;
    errored = num_of_rules_with_status r T.errored;
  }

  abbrev pub named : List String
  named = T.passed ∷ T.skipped ∷ T.accepted ∷ T.warning ∷ T.failed ∷ T.errored ∷ []

  -- What the tests of the `switch` say of a status.
  switch_tests :
      (o : String)
      → (((o == T.passed) ≡ true) ↔ (o ≡ T.passed))
        × (((o == T.skipped) ≡ true) ↔ (o ≡ T.skipped))
        × (((o == T.accepted) ≡ true) ↔ (o ≡ T.accepted))
        × (((o == T.warning) ≡ true) ↔ (o ≡ T.warning))
        × (((o == T.failed) ≡ true) ↔ (o ≡ T.failed))
        × (((o == T.errored) ≡ true) ↔ (o ≡ T.errored))
  switch_tests o = (
    eq_iff o T.passed,
    eq_iff o T.skipped,
    eq_iff o T.accepted,
    eq_iff o T.warning,
    eq_iff o T.failed,
    eq_iff o T.errored,
  )

  module _ (distinct : AllDistinct named) where
    assign-passed : IsField (λ s. s.passed) T.passed
    unfolding assign
    assign-passed acc o num = ground (arith, switch_tests o)

    assign-skipped : IsField (λ s. s.skipped) T.skipped
    unfolding assign
    assign-skipped acc o num = ground (arith, switch_tests o)

    assign-accepted : IsField (λ s. s.accepted) T.accepted
    unfolding assign
    assign-accepted acc o num = ground (arith, switch_tests o)

    assign-warning : IsField (λ s. s.warning) T.warning
    unfolding assign
    assign-warning acc o num = ground (arith, switch_tests o)

    assign-failed : IsField (λ s. s.failed) T.failed
    unfolding assign
    assign-failed acc o num = ground (arith, switch_tests o)

    assign-errored : IsField (λ s. s.errored) T.errored
    unfolding assign
    assign-errored acc o num = ground (arith, switch_tests o)

  -- Where the six statuses of the `switch` differ and are all among `rule.Statuses()`, in whatever
  -- order and with whatever others, every field of the summary is the number of rules with a check
  -- of its own status.
  pub ruleset_summary_count_lem :
      AllDistinct named
      → ((status : String) → Memᴰ status named → Memᴰ status T.statuses)
      → ruleset_summary_count T r ≡ counted
  unfolding ruleset_summary_count
  ruleset_summary_count_lem distinct complete = λ i. record {
    passed =
        count_statuses_reaches (λ s. s.passed) T.passed (assign-passed distinct) (no_rules T)
          T.statuses (complete T.passed (Memᴰ.head refl)) i;
    skipped =
        count_statuses_reaches (λ s. s.skipped) T.skipped (assign-skipped distinct) (no_rules T)
          T.statuses (complete T.skipped (Memᴰ.tail (Memᴰ.head refl))) i;
    accepted =
        count_statuses_reaches (λ s. s.accepted) T.accepted (assign-accepted distinct) (no_rules T)
          T.statuses (complete T.accepted (Memᴰ.tail (Memᴰ.tail (Memᴰ.head refl)))) i;
    warning =
        count_statuses_reaches (λ s. s.warning) T.warning (assign-warning distinct) (no_rules T)
          T.statuses (complete T.warning (Memᴰ.tail (Memᴰ.tail (Memᴰ.tail (Memᴰ.head refl))))) i;
    failed =
        count_statuses_reaches (λ s. s.failed) T.failed (assign-failed distinct) (no_rules T)
          T.statuses
          (complete T.failed (Memᴰ.tail (Memᴰ.tail (Memᴰ.tail (Memᴰ.tail (Memᴰ.head refl)))))) i;
    errored =
        count_statuses_reaches (λ s. s.errored) T.errored (assign-errored distinct) (no_rules T)
          T.statuses
          (complete T.errored
            (Memᴰ.tail (Memᴰ.tail (Memᴰ.tail (Memᴰ.tail (Memᴰ.tail (Memᴰ.head refl)))))))
          i;
  }
