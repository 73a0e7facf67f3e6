-- ===== src/Command/Exporter.antt =====
-- The report exporter's command: cmd/report-exporter/app/options.go and app.go. Its libraries are
-- parameters, and `Export` is a relation, so that the command is one.
pub mod Ends
use diki_operator.Common.{String, Option, none, some, ◌≡◌, ◌==◌, if◌then◌else◌}
use diki_operator.Common.Errors.{Error, plain, Result, ok, err, wrap, ◌>>=◌}
use diki_operator.Api.Report.{ReportExporterConfiguration}
use diki_operator.Cluster.{Client, World}
use diki_operator.Report.Summary.{Statuses}
use diki_operator.Report.Outputs.{Library}
use diki_operator.Report.Export.{Exports}

pub record ExporterSystem : Type 1 where
  pub Rest : Type 0
  -- `os.ReadFile`
  pub read_file : String → Result String
  -- `runtime.DecodeInto`
  pub decode : String → Result ReportExporterConfiguration
  pub new_zap_logger : Result (Unit {0})
  pub get_config : Result Rest
  pub add_diki_scheme : Result (Unit {0})
  pub add_client_go_scheme : Result (Unit {0})
  -- `client.New`, which gives the client that the exporter uses.
  pub new_client : Rest → Result (Unit {0})

module _ (S : ExporterSystem) where
  -- `Complete`, which gives the options their configuration.
  unfoldable pub complete_exporter : String → Result ReportExporterConfiguration
  complete_exporter config_file =
      if config_file == "" then err (plain "missing config file") else (do
        text ← wrap "error reading config file" (S.read_file config_file)
        wrap "error decoding config" (S.decode text))

  -- `run` up to the client
  unfoldable pub open_client : Result (Unit {0})
  open_client = do
    rest ← S.get_config
    _ ← wrap "could not update scheme" S.add_diki_scheme
    _ ← wrap "could not update scheme" S.add_client_go_scheme
    S.new_client rest

  -- `RunE` up to the export
  unfoldable pub start_exporter : String → Result ReportExporterConfiguration
  start_exporter config_file = do
    config ← complete_exporter config_file
    _ ← wrap "error instantiating zap logger" S.new_zap_logger
    _ ← open_client
    ok config

module _ (T : Statuses) (L : Library) (C : Client) (S : ExporterSystem) (config_file : String)
    (w : World C) where
  -- From this world, the command may end with this error, or none, and leave that world.
  pub data Runs : Option Error × World C → Type 0 where
    not_started : {e : Error} → start_exporter S config_file ≡ err e → Runs (some e, w)
    exported :
        {config : ReportExporterConfiguration} {outcome : Option Error × World C}
        → start_exporter S config_file ≡ ok config
        → Exports T L C config w outcome
        → Runs outcome
