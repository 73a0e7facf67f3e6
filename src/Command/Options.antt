-- ===== src/Command/Options.antt =====
-- cmd/diki-operator/app/options.go: the configuration file and its checks. Reading a file and
-- decoding it are code of the standard library and of apimachinery, where the decoder calls the
-- defaults that the configuration's scheme registers.
use diki_operator.Common.{String, List, [], ◌∷◌, Option, none, some, ◌==◌, if◌then◌else◌}
use diki_operator.Common.Errors.{Error, plain, Result, ok, err, wrap, ◌>>=◌}
use diki_operator.Api.Config.{DikiOperatorConfiguration}
use diki_operator.Config.Defaults
use diki_operator.Config.Defaults.{set_object_defaults}
use diki_operator.Config.Validation
use diki_operator.Config.Validation.{FieldError, validate}

pub record System : Type 0 where
  -- `os.ReadFile`
  pub read_file : String → Result String
  -- `runtime.DecodeInto`, before the defaults
  pub decode : String → Result DikiOperatorConfiguration
  -- `errs.ToAggregate()` of a list that is not empty
  pub to_aggregate : FieldError → List FieldError → Error

module _ (D : Defaults.Library) (V : Validation.Library) (S : System) where
  unfoldable pub decode_into : String → Result DikiOperatorConfiguration
  decode_into text = do config ← S.decode text; ok (set_object_defaults D config)

  -- `Complete`, which gives the options their configuration.
  unfoldable pub complete : String → Result DikiOperatorConfiguration
  complete config_file = if config_file == "" then err (plain "missing config file") else (do
    text ← wrap "error reading config file" (S.read_file config_file)
    wrap "error decoding config" (decode_into text))

  abbrev pub aggregate : List FieldError → Option Error
  aggregate [] = none
  aggregate (e ∷ errors) = some (S.to_aggregate e errors)

  -- `Validate`
  unfoldable pub validate_options : DikiOperatorConfiguration → Option Error
  validate_options config = aggregate (validate V config)

  -- `LogConfig`
  unfoldable pub log_config : DikiOperatorConfiguration → String × String
  log_config config = (config.log.level, config.log.format)
