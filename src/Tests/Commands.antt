-- ===== src/Tests/Commands.antt =====
-- The operator's command with a file that holds an empty configuration.
use diki_operator.Common.{
  ℕ, String, ◌≢◌, List, [], ◌∷◌, ◌++◌, Option, none, arith, ◌==◌, if◌then◌else◌,
}
use diki_operator.Common.Errors.{Error, plain, ok, err}
use diki_operator.Command.Options.{System}
use diki_operator.Command.Manager.{Setup, Runtime, panicked}
use diki_operator.Command.Execute.{execute}
use diki_operator.Command.Manager.SetUp.{Elects}
use diki_operator.Command.Execute.Started.{execute-ne-panicked}
use diki_operator.Tests.Configs.{electing, electing-IsRecommending, checking, empty_config}

abbrev files : System
files = record {
  read_file = λ name. if name == "config.yaml" then ok "{}" else err (plain "no such file");
  decode = λ text. ok empty_config;
  to_aggregate = λ e errors. plain "invalid";
}

-- A manager that keeps the calls.
abbrev runtime : Runtime
runtime = record {
  Rest = ℕ;
  Manager = List Setup;
  get_config = ok 1;
  limited = λ qps burst rest. rest;
  new_manager = λ rest options. ok [];
  perform = λ call calls. (none, calls ++ (call ∷ []));
  register = λ path calls. calls;
  start = λ calls. none;
}

abbrev logs : String → String → Option Error
logs level format = none

elects : Elects electing
elects l p = ground arith

execute-ne-panicked_example :
    (execute electing checking files runtime logs "config.yaml").1 ≢ panicked
execute-ne-panicked_example =
    execute-ne-panicked electing checking files runtime logs electing-IsRecommending elects
      "config.yaml"
