-- ===== src/Tests/Reports.antt =====
-- The exporter: a report with one ruleset, and one output.
use diki_operator.Command.Exporter.{
  ExporterSystem, Runs, start_exporter, complete_exporter, open_client,
}
use diki_operator.Command.Exporter.Ends.{Runs-ends}
use diki_operator.Common.{
  ℕ, if◌then◌else◌, String, ◌*◌, ◌≡◌, ◌≢◌, ◌⊎◌, refl, Bool, true, none, arith,
}
use diki_operator.Common.{List, [], ◌∷◌, eq_iff, ◌==◌, length, not, ◌&&◌, All, ◌++◌}
use mathlib.Core.List.{Memᴰ, Perm}
use diki_operator.Common.Maps.{insert}
use diki_operator.Common.Int.{pos}
use diki_operator.Common.Errors.{plain, ok, err}
use diki_operator.Api.Scan.{OutputStatus}
use diki_operator.Api.Report.{ReportExporterConfiguration, exporter_type_config_map}
use diki_operator.Cluster.Memory.{memory}
use diki_operator.Report.Summary.{
  ReportRule, ReportRuleset, DikiReport, Statuses, num_of_rules_with_status,
  get_ruleset_findings_by_status, ruleset_summary_count,
}
use diki_operator.Report.Counts.{
  findings_lem, AllDistinct, named, counted, ruleset_summary_count_lem,
}
use diki_operator.Report.Outputs.{
  Library, ConfigMapExporter, read_diki_report, create_output, create_outputs, create_outputs_from,
  compressed, compress_report, export_config_map,
}
use diki_operator.Report.Workers.{
  Pool, start_workers, IsFinished, WorkerStep, WorkerRun, export, send, rest, next, export_output,
  send_status, output_status,
}
use diki_operator.Report.Workers.Completions.{completions, acknowledgements, workers-completions}
use diki_operator.Common.{◌+◌}
use diki_operator.Report.Workers.Order.{status_names, workers-Perm, workers_progress}
use diki_operator.Report.Export.{prepare, refuse_completed, publish, Exports, exported}
use diki_operator.Report.Export.Published.{Published, Exports-Published}
use diki_operator.Tests.Data.{new_scan, world}

abbrev rule_with : String → String → ReportRule
rule_with id status = record { id = id; name = "rule "; checks = record { status = status } ∷ [] }

abbrev disa_ruleset : ReportRuleset
disa_ruleset = record {
  id = "disa";
  version = "v2r1";
  rules = rule_with "1" "Passed" ∷ rule_with "2" "Failed" ∷ rule_with "3" "Failed" ∷ [];
}

abbrev report : DikiReport
report = record { providers = record { rulesets = disa_ruleset ∷ [] } ∷ [] }

abbrev statuses : Statuses
statuses = record {
  passed = "Passed";
  skipped = "Skipped";
  accepted = "Accepted";
  warning = "Warning";
  failed = "Failed";
  errored = "Errored";
  statuses =
      "Passed" ∷ "Skipped" ∷ "Accepted" ∷ "Warning" ∷ "Failed" ∷ "Errored" ∷ "Not Implemented" ∷ [];
}

findings_lem_example :
    (get_ruleset_findings_by_status disa_ruleset "Failed"
      ≡ record { id = "2"; name = "rule " } ∷ record { id = "3"; name = "rule " } ∷ [])
    × (num_of_rules_with_status disa_ruleset "Failed"
        ≡ pos (length (get_ruleset_findings_by_status disa_ruleset "Failed")))
findings_lem_example = findings_lem disa_ruleset "Failed" (omega arith)

differs : String → List String → Bool
differs x [] = true
differs x (y ∷ ys) = not (x == y) && differs x ys

all_differ : List String → Bool
all_differ [] = true
all_differ (x ∷ xs) = differs x xs && all_differ xs

differs-All : (x : String) (ys : List String) → differs x ys ≡ true → All (λ y. x ≢ y) ys
unfolding differs
differs-All x [] h = tt
differs-All x (y ∷ ys) h =
    (λ p. ground (arith, h, eq_iff x y), differs-All x ys (ground (arith, h)))

all_differ-AllDistinct : (xs : List String) → all_differ xs ≡ true → AllDistinct xs
unfolding all_differ
all_differ-AllDistinct [] h = tt
all_differ-AllDistinct (x ∷ xs) h =
    (differs-All x xs (ground (arith, h)), all_differ-AllDistinct xs (ground (arith, h)))

named-differ : all_differ (named statuses disa_ruleset) ≡ true
unfolding all_differ differs
named-differ = refl

mem-append : {a : String} (xs ys : List String) → Memᴰ a xs → Memᴰ a (xs ++ ys)
mem-append [] ys m = elim m [ ]
mem-append (x ∷ xs) ys (Memᴰ.head e) = Memᴰ.head e
mem-append (x ∷ xs) ys (Memᴰ.tail m) = Memᴰ.tail (mem-append xs ys m)

ruleset_summary_count_lem_example :
    ruleset_summary_count statuses disa_ruleset ≡ counted statuses disa_ruleset
ruleset_summary_count_lem_example =
    ruleset_summary_count_lem statuses disa_ruleset
      (all_differ-AllDistinct (named statuses disa_ruleset) named-differ)
      (λ status. mem-append (named statuses disa_ruleset) ("Not Implemented" ∷ []))

abbrev library : Library
library = record {
  read_file = λ path. ok "{}";
  unmarshal_report = λ text. ok report;
  unmarshal_output = λ raw. ok (record { namespace = "garden"; name_prefix = "report-" });
  marshal_report = λ r. ok "{}";
  marshal_details = λ details. ok "{}";
  marshal_error = λ text. text;
  gzip = λ text. compressed text;
}

abbrev exporter : ConfigMapExporter
exporter = record { config = record { namespace = "garden"; name_prefix = "report-" } }

abbrev outputs : List (String × ConfigMapExporter)
outputs = ("reports", exporter) ∷ []

abbrev config : ReportExporterConfiguration
config = record {
  report_path = "/report.json";
  compliance_scan_name = "scan";
  outputs =
      record { type = exporter_type_config_map; name = "reports"; config = record { raw = none } }
      ∷ [];
}

abbrev sent_status : OutputStatus
sent_status =
    output_status library "reports" (export_config_map library memory exporter report world).0

abbrev exported_pool : Pool memory
exported_pool =
    export_output memory library report (start_workers memory outputs world) []
      ("reports", exporter) []

abbrev finished_pool : Pool memory
finished_pool = send_status memory exported_pool [] sent_status []

run : WorkerRun memory library report 1 2 (start_workers memory outputs world) finished_pool
unfolding start_workers export_output send_status
run =
    next (export [] [] ("reports", exporter) refl)
      (next (send [] [] sent_status refl (omega arith)) rest)

finished : IsFinished memory finished_pool
unfolding IsFinished export_output send_status start_workers
finished = (refl, refl)

workers-Perm_example : Perm (status_names finished_pool.channel) ("reports" ∷ []) × (2 ≡ 2 * 1)
workers-Perm_example = workers-Perm memory library report outputs world run finished

workers-completions_example :
    completions finished_pool.channel + acknowledgements []
    ≡ acknowledgements finished_pool.world.writes
workers-completions_example = workers-completions memory library report outputs world run finished

workers_progress_example :
    IsFinished memory finished_pool
    ⊎ ((r : Pool memory) × WorkerStep memory library report 1 finished_pool r)
workers_progress_example = workers_progress memory library report outputs world run

prepared :
    prepare statuses library memory config world
    ≡ ok (record { scan = new_scan; report = report; outputs = outputs })
unfolding prepare refuse_completed read_diki_report create_outputs create_outputs_from create_output
    insert
prepared = refl

exports : Exports statuses library memory config world (
    publish statuses library memory config
      (record { scan = new_scan; report = report; outputs = outputs })
      finished_pool)
exports = exported prepared run finished

succeeds :
    (publish statuses library memory config
      (record { scan = new_scan; report = report; outputs = outputs })
      finished_pool).0
    ≡ none
unfolding publish export_config_map export_output send_status start_workers compress_report
succeeds = refl

Exports-Published_example :
    Published statuses library memory config world
      (publish statuses library memory config
        (record { scan = new_scan; report = report; outputs = outputs })
        finished_pool).1
Exports-Published_example = Exports-Published statuses library memory config world exports succeeds

abbrev exporter_system : ExporterSystem
exporter_system = record {
  Rest = ℕ;
  read_file = λ name. if name == "config.yaml" then ok "{}" else err (plain "no such file");
  decode = λ text. ok config;
  new_zap_logger = ok tt;
  get_config = ok 1;
  add_diki_scheme = ok tt;
  add_client_go_scheme = ok tt;
  new_client = λ rest. ok tt;
}

starts : start_exporter exporter_system "config.yaml" ≡ ok config
unfolding start_exporter complete_exporter open_client
starts = refl

-- The export of the only output is done, and its status is still to be sent.
first_step : WorkerRun memory library report 1 1 (start_workers memory outputs world) exported_pool
unfolding start_workers export_output
first_step = next (export [] [] ("reports", exporter) refl) rest

Runs-ends_example :
    (m : ℕ) × (r : Pool memory) × (1 + m ≡ 2)
    × WorkerRun memory library report 1 m exported_pool r
    × IsFinished memory r
    × Runs statuses library memory exporter_system "config.yaml" world (
        publish statuses library memory config
          (record { scan = new_scan; report = report; outputs = outputs })
          r)
Runs-ends_example =
    Runs-ends statuses library memory exporter_system "config.yaml" world starts prepared first_step
