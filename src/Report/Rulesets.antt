-- ===== src/Report/Rulesets.antt =====
-- Which rulesets of a report are summarized.
use mathlib.Core.List.{append_assoc, append-nil, map-append}
use diki_operator.Common.{some, ◌≡◌, sym, ◌∙◌}
use diki_operator.Common.{List, [], ◌∷◌, ◌++◌, map}
use diki_operator.Api.Scan.{RulesetSummary}
use diki_operator.Report.Summary.{
  ReportRuleset, ReportProvider, DikiReport, Statuses, ruleset_summary, summarize_rulesets,
  summarize_providers, create_ruleset_summaries, ruleset_summary_count,
  get_ruleset_findings_by_status,
}

-- The rulesets of a report's providers, in order.
abbrev pub all_rulesets : List ReportProvider → List ReportRuleset
all_rulesets [] = []
all_rulesets (p ∷ ps) = p.rulesets ++ all_rulesets ps

-- The summaries are those of all rulesets of all providers, in the report's order.
summarize_rulesets_lem :
    (T : Statuses) (acc : List RulesetSummary) (rs : List ReportRuleset)
    → summarize_rulesets T acc rs ≡ acc ++ map (ruleset_summary T) rs
unfolding summarize_rulesets
summarize_rulesets_lem T acc [] = sym (append-nil acc)
summarize_rulesets_lem T acc (r ∷ rs) =
    summarize_rulesets_lem T (acc ++ (ruleset_summary T r ∷ [])) rs ∙ append_assoc acc _ _

summarize_providers_lem :
    (T : Statuses) (acc : List RulesetSummary) (ps : List ReportProvider)
    → summarize_providers T acc ps ≡ acc ++ map (ruleset_summary T) (all_rulesets ps)
unfolding summarize_providers
summarize_providers_lem T acc [] = sym (append-nil acc)
summarize_providers_lem T acc (p ∷ ps) =
    summarize_providers_lem T (summarize_rulesets T acc p.rulesets) ps
    ∙ simp (summarize_rulesets_lem T acc p.rulesets, append_assoc, map-append)

-- The summary of a ruleset, field by field: the counts are those of the rules by status, and each
-- list of findings is that of its own status.
abbrev pub summary_of : Statuses → ReportRuleset → RulesetSummary
summary_of T r = record {
  id = r.id;
  version = r.version;
  results = record {
    summary = ruleset_summary_count T r;
    rules = some (record {
      failed = get_ruleset_findings_by_status r T.failed;
      errored = get_ruleset_findings_by_status r T.errored;
      warning = get_ruleset_findings_by_status r T.warning;
    });
  };
}

-- The summaries of a report are those of the rulesets of all its providers, one for each and in the
-- report's order.
pub create_ruleset_summaries_lem :
    (T : Statuses) (report : DikiReport)
    → create_ruleset_summaries T report ≡ map (summary_of T) (all_rulesets report.providers)
unfolding create_ruleset_summaries ruleset_summary
create_ruleset_summaries_lem T report = summarize_providers_lem T [] report.providers
