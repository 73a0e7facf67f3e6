-- ===== src/Report/Summary.antt =====
-- The summaries of a report's rulesets (utils.go). The report's types and the rule statuses are
-- code of github.com/gardener/diki: of a report the fields that are read, and the statuses as a
-- parameter. A counter is the bit pattern of an int32.
use diki_operator.Common.{ℕ, String, Bool, some, List, [], ◌∷◌, ◌++◌, ◌==◌, contains_func}
use diki_operator.Common.{if◌then◌else◌}
use diki_operator.Common.Int.{ℤ, pos, int32_of, increment32}
use diki_operator.Api.Scan.{RulesSummary, Rule, RulesetSummary}

pub record Check : Type 0 where
  pub status : String

pub record ReportRule : Type 0 where
  pub id : String
  pub name : String
  pub checks : List Check

pub record ReportRuleset : Type 0 where
  pub id : String
  pub version : String
  pub rules : List ReportRule

pub record ReportProvider : Type 0 where
  pub rulesets : List ReportRuleset

pub record DikiReport : Type 0 where
  pub providers : List ReportProvider

-- The constants of `rule.Status` that the code names, and `rule.Statuses()`.
pub record Statuses : Type 0 where
  pub passed : String
  pub skipped : String
  pub accepted : String
  pub warning : String
  pub failed : String
  pub errored : String
  pub statuses : List String

-- Whether a check of the rule has the status.
abbrev pub has_status : String → ReportRule → Bool
has_status status rule = contains_func rule.checks (λ check. check.status == status)

-- The inner loop of `numOfRulesWithStatus`, which breaks at the first such check.
unfoldable pub count_checks : String → ℕ → List Check → ℕ
count_checks status num [] = num
count_checks status num (check ∷ checks) =
    if check.status == status then increment32 num else count_checks status num checks

-- Its outer loop, with the number so far.
unfoldable pub num_from : String → ℕ → List ReportRule → ℕ
unfolding count_checks
num_from status num [] = num
num_from status num (rule ∷ rules) = num_from status (count_checks status num rule.checks) rules

unfoldable pub num_of_rules_with_status : ReportRuleset → String → ℤ
unfolding num_from
num_of_rules_with_status r status = int32_of (num_from status 0 r.rules)

-- The loop of `getRulesetFindingsByStatus`, with the findings so far.
unfoldable pub findings_from : String → List Rule → List ReportRule → List Rule
findings_from status acc [] = acc
findings_from status acc (rule ∷ rules) =
    findings_from status
      (if has_status status rule
        then acc ++ (record { id = rule.id; name = rule.name } ∷ [])
        else acc)
      rules

unfoldable pub get_ruleset_findings_by_status : ReportRuleset → String → List Rule
unfolding findings_from
get_ruleset_findings_by_status r status = findings_from status [] r.rules

module _ (T : Statuses) where
  -- The `switch`; a status of no case changes nothing.
  unfoldable pub assign : RulesSummary → String → ℤ → RulesSummary
  assign s status num =
      if status == T.passed
      then record s { passed = num }
      else if status == T.skipped
      then record s { skipped = num }
      else if status == T.accepted
      then record s { accepted = num }
      else if status == T.warning
      then record s { warning = num }
      else if status == T.failed
      then record s { failed = num }
      else if status == T.errored
      then record s { errored = num }
      else s

  unfoldable pub count_statuses : ReportRuleset → RulesSummary → List String → RulesSummary
  count_statuses r s [] = s
  count_statuses r s (status ∷ statuses) =
      count_statuses r (assign s status (num_of_rules_with_status r status)) statuses

  abbrev pub no_rules : RulesSummary
  no_rules = record {
    passed = pos 0;
    skipped = pos 0;
    accepted = pos 0;
    warning = pos 0;
    failed = pos 0;
    errored = pos 0;
  }

  unfoldable pub ruleset_summary_count : ReportRuleset → RulesSummary
  ruleset_summary_count r = count_statuses r no_rules T.statuses

  unfoldable pub ruleset_summary : ReportRuleset → RulesetSummary
  ruleset_summary r = record {
    id = r.id;
    version = r.version;
    results = record {
      summary = ruleset_summary_count r;
      rules = some (record {
        failed = get_ruleset_findings_by_status r T.failed;
        errored = get_ruleset_findings_by_status r T.errored;
        warning = get_ruleset_findings_by_status r T.warning;
      });
    };
  }

  -- The two loops of `createRulesetSummaries`, with the summaries so far.
  unfoldable pub summarize_rulesets : List RulesetSummary → List ReportRuleset → List RulesetSummary
  summarize_rulesets acc [] = acc
  summarize_rulesets acc (r ∷ rs) = summarize_rulesets (acc ++ (ruleset_summary r ∷ [])) rs

  unfoldable pub summarize_providers :
      List RulesetSummary → List ReportProvider → List RulesetSummary
  unfolding summarize_rulesets
  summarize_providers acc [] = acc
  summarize_providers acc (p ∷ ps) = summarize_providers (summarize_rulesets acc p.rulesets) ps

  unfoldable pub create_ruleset_summaries : DikiReport → List RulesetSummary
  unfolding summarize_providers
  create_ruleset_summaries report = summarize_providers [] report.providers
