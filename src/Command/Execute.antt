-- ===== src/Command/Execute.antt =====
-- `RunE` of the operator's command (cmd/diki-operator/app/app.go). The logger is a parameter.
pub mod Started
use diki_operator.Common.{String, List, [], Option, none, some}
use diki_operator.Common.Errors.{Error, wrapped, ok, err}
use diki_operator.Config.Defaults
use diki_operator.Config.Validation
use diki_operator.Command.Options.{System, complete, validate_options, log_config}
use diki_operator.Command.Manager.{Setup, Runtime, Ending, stopped, run}

module _ (D : Defaults.Library) (V : Validation.Library) (S : System) (R : Runtime)
    (new_zap_logger : String → String → Option Error) where
  unfoldable pub execute : String → List Setup × Ending
  execute config_file = elim (complete D V S config_file) [
    | err e ↦ ([], stopped e)
    | ok config ↦ elim (validate_options D V S config) [
      | some e ↦ ([], stopped (wrapped "cannot validate options" e))
      | none ↦
          let (level, format) = log_config D V S config in
          elim (new_zap_logger level format) [
            | some e ↦ ([], stopped (wrapped "error instantiating zap logger" e))
            | none ↦ run R config
          ]
    ]
  ]
