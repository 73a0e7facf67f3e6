-- ===== src/Report/Outputs.antt =====
-- The outputs of the exporter (outputs/output.go, outputs/configmap.go), and how they are set up
-- and described (report_exporter.go, errored_export.go). JSON and gzip are parameters.
use diki_operator.Common.{String, ◌<>◌, Option, some, List, [], ◌∷◌, ◌==◌, if◌then◌else◌}
use diki_operator.Common.Maps.{insert}
use diki_operator.Common.Errors.{Error, plain, wrapped, error_text, Result, ok, err}
use diki_operator.Api.Meta.{ConfigMap, RawExtension, no_meta}
use diki_operator.Api.Report.{
  Output, OutputType, OutputConfigMap, exporter_type_config_map, ReportExporterConfiguration,
}
use diki_operator.Cluster.{Client, World, send_create_config_map}
use diki_operator.Report.Summary.{DikiReport}

pub record ConfigMapRef : Type 0 where
  pub name : String
  pub namespace : String

pub record ConfigMapDetails : Type 0 where
  pub config_map_ref : ConfigMapRef

pub record ExportError : Type 0 where
  pub error : String

unfoldable pub new_export_error : Error → ExportError
new_export_error e = record { error = error_text e }

-- What is marshalled as the details of an output.
pub data Details : Type 0 where
  config_map : ConfigMapDetails → Details
  export_error : ExportError → Details

-- What a gzip writer does with a text: `Write` fails, `Close` fails, or the bytes are there.
pub data Gzip : Type 0 where
  not_written : Error → Gzip
  not_closed : Error → Gzip
  compressed : String → Gzip

-- What the exporter uses of encoding/json, compress/gzip and os.
pub record Library : Type 0 where
  pub read_file : String → Result String
  pub unmarshal_report : String → Result DikiReport
  pub unmarshal_output : Option String → Result OutputConfigMap
  pub marshal_report : DikiReport → Result String
  pub marshal_details : Details → Result String
  -- The JSON object with the one key "error".
  pub marshal_error : String → String
  pub gzip : String → Gzip

-- `ConfigMapExporter`, the one implementation of the interface `Output`.
pub record ConfigMapExporter : Type 0 where
  pub config : OutputConfigMap

unfoldable pub output_type : ConfigMapExporter → OutputType
output_type c = exporter_type_config_map

abbrev pub report_key : String
report_key = "report.json.gz"

unfoldable pub report_config_map : OutputConfigMap → String → ConfigMap
report_config_map config bytes = record {
  meta = record no_meta { generate_name = config.name_prefix; namespace = config.namespace };
  values = [];
  binary_data = (report_key, bytes) ∷ [];
}

-- What was created, as the details of the output.
unfoldable pub details_of : Result ConfigMap → Result Details
details_of (err e) = err (wrapped "failed to create ConfigMap" e)
details_of (ok m) = ok (
    config_map
      (record { config_map_ref = record { name = m.meta.name; namespace = m.meta.namespace } }))

module _ (L : Library) where
  -- `toRawExtension` of a value that is not nil.
  unfoldable pub to_raw_extension : Details → RawExtension
  to_raw_extension v = elim (L.marshal_details v) [
    | ok text ↦ record { raw = some text }
    | err e ↦ record {
      raw = some (L.marshal_error ("failed to marshal details: " <> error_text e));
    }
  ]

  unfoldable pub read_diki_report : ReportExporterConfiguration → Result DikiReport
  read_diki_report config = elim (L.read_file config.report_path) [
    | err e ↦ err (wrapped "error reading report file" e)
    | ok text ↦ elim (L.unmarshal_report text) [
      | err e ↦ err (wrapped "error unmarshaling report" e)
      | ok report ↦ ok report
    ]
  ]

  -- The `switch` of the loop over the configured outputs.
  unfoldable pub create_output : Output → Result ConfigMapExporter
  create_output output =
      if output.type == exporter_type_config_map
      then elim (L.unmarshal_output output.config.raw) [
        | err e ↦ err (wrapped "failed to unmarshal ConfigMapOutput" e)
        | ok config ↦ ok (record { config = config })
      ]
      else err (plain ("unsupported output type: " <> output.type))

  -- The loop, with the map so far: an output of a name that is there replaces it.
  unfoldable pub create_outputs_from :
      List (String × ConfigMapExporter) → List Output → Result (List (String × ConfigMapExporter))
  create_outputs_from outputs [] = ok outputs
  create_outputs_from outputs (output ∷ rest) = elim (create_output output) [
    | err e ↦ err e
    | ok exporter ↦ create_outputs_from (insert output.name exporter outputs) rest
  ]

  unfoldable pub create_outputs :
      ReportExporterConfiguration → Result (List (String × ConfigMapExporter))
  create_outputs config = create_outputs_from [] config.outputs

  -- `ConfigMapExporter.Export` up to the call of the API server.
  unfoldable pub compress_report : DikiReport → Result String
  compress_report report = elim (L.marshal_report report) [
    | err e ↦ err (wrapped "failed to marshal report to JSON" e)
    | ok text ↦ elim (L.gzip text) [
      | not_written e ↦ err (wrapped "failed to compress report with gzip" e)
      | not_closed e ↦ err (wrapped "failed to close gzip writer" e)
      | compressed bytes ↦ ok bytes
    ]
  ]

  module _ (C : Client) where
    -- `ConfigMapExporter.Export`
    unfoldable pub export_config_map :
        ConfigMapExporter → DikiReport → World C → Result Details × World C
    export_config_map c report w = elim (compress_report report) [
      | err e ↦ (err e, w)
      | ok bytes ↦
          let (r, w') = send_create_config_map C (report_config_map c.config bytes) w in
          (details_of r, w')
    ]
