-- ===== src/Scan/DikiConfig.antt =====
-- dikiconfig.go: the options of the rulesets are read from ConfigMaps, and the diki configuration
-- is written into a new one. The packages of github.com/gardener/diki and the YAML library are
-- parameters.
pub mod Deploy
pub mod Selection
use diki_operator.Common.{String, ◌<>◌, Option, none, some, List, [], ◌∷◌, ◌++◌, ◌==◌}
use diki_operator.Common.{if◌then◌else◌}
use diki_operator.Common.Maps.{lookup}
use diki_operator.Common.Errors.{plain, wrapped, Result, ok, err, wrap, ◌>>=◌}
use diki_operator.Api.Scan.{Options, OptionsConfigMapRef, RulesetOptions, RulesetConfig}
use diki_operator.Cluster.{Client}

-- `dikiconfig.RulesetConfig`: `R` is its type of rule options and `Y` that of a YAML value.
pub record DikiRuleset (R Y : Type 0) : Type 0 where
  pub id : String
  pub name : String
  pub version : String
  pub args : Option Y
  pub rule_options : List R

-- `dikiconfig.ProviderConfig`
pub record ProviderConfig (R Y : Type 0) : Type 0 where
  pub id : String
  pub name : String
  pub rulesets : List (DikiRuleset R Y)

-- `dikiconfig.DikiConfig`
pub record DikiConfig (R Y : Type 0) : Type 0 where
  pub providers : List (ProviderConfig R Y)

-- What the reconciler uses of the diki packages and of the YAML library.
pub record Diki : Type 1 where
  pub RuleOptions : Type 0
  pub Yaml : Type 0
  pub provider_id : String
  pub provider_name : String
  pub disa_id : String
  pub disa_name : String
  pub hardened_id : String
  pub hardened_name : String
  pub unmarshal_rule_options : String → Result (List RuleOptions)
  pub unmarshal_ruleset_options : String → Result (Option Yaml)
  pub encode : DikiConfig RuleOptions Yaml → Result String

abbrev pub rule_options_suffix : String
rule_options_suffix = "-rules"

-- `client.ObjectKey.String()`
abbrev pub object_key : String → String → String
object_key namespace name = namespace <> ("/" <> name)

abbrev pub ref_of : Option Options → Option OptionsConfigMapRef
ref_of none = none
ref_of (some o) = o.config_map_ref

-- The reference behind the nil tests of `getRuleOptions` and of `getRulesetOptions`.
abbrev pub rules_ref : Option RulesetOptions → Option OptionsConfigMapRef
rules_ref none = none
rules_ref (some o) = ref_of o.rules

abbrev pub ruleset_ref : Option RulesetOptions → Option OptionsConfigMapRef
ruleset_ref none = none
ruleset_ref (some o) = ref_of o.ruleset_options

abbrev pub key_or : Option String → String → String
key_or none default = default
key_or (some key) default = key

module _ (C : Client) where
  unfoldable pub get_config_map_key_value : C.State → OptionsConfigMapRef → String → Result String
  get_config_map_key_value s ref default_key =
      let key : String = key_or ref.key default_key in
      elim (C.get_config_map s ref.namespace ref.name) [
        | err e ↦ err (wrapped ("failed to get configMap " <> object_key ref.namespace ref.name) e)
        | ok m ↦ elim (lookup key m.values) [
          | none ↦ err (
              plain (
                "key '"
                <> (key
                    <> ("' does not exist in configMap " <> object_key ref.namespace ref.name))))
          | some value ↦ ok value
        ]
      ]

module _ (C : Client) (D : Diki) (s : C.State) where
  unfoldable pub get_rule_options : Option RulesetOptions → String → Result (List D.RuleOptions)
  get_rule_options options ruleset_id = elim (rules_ref options) [
    | none ↦ ok []
    | some ref ↦ do
      yaml ←
          wrap "failed to get rule options from configMap"
            (get_config_map_key_value C s ref (ruleset_id <> rule_options_suffix))
      wrap ("failed to unmarshal rule options from configMap " <> object_key ref.namespace ref.name)
          (D.unmarshal_rule_options yaml)
  ]

  unfoldable pub get_ruleset_options : Option RulesetOptions → String → Result (Option D.Yaml)
  get_ruleset_options options ruleset_id = elim (ruleset_ref options) [
    | none ↦ ok none
    | some ref ↦ do
      yaml ←
          wrap "failed to get ruleset options from configMap"
            (get_config_map_key_value C s ref ruleset_id)
      wrap
          ("failed to unmarshal ruleset options from configMap "
            <> object_key ref.namespace ref.name)
          (D.unmarshal_ruleset_options yaml)
  ]

  -- The body of a case of the `switch`, which the two cases share up to the ids.
  unfoldable pub configured :
      String → String → RulesetConfig → Result (DikiRuleset D.RuleOptions D.Yaml)
  configured id name r = do
    rule_options ← wrap "failed to get rule options" (get_rule_options r.options id)
    args ← wrap "failed to get ruleset options" (get_ruleset_options r.options id)
    ok (record {
      id = id;
      name = name;
      version = r.version;
      args = args;
      rule_options = rule_options;
    })

  -- The `switch`: a ruleset of another id is skipped.
  unfoldable pub ruleset_entry : RulesetConfig → Result (List (DikiRuleset D.RuleOptions D.Yaml))
  ruleset_entry r =
      if r.id == D.disa_id
      then (configured D.disa_id D.disa_name r >>= λ x. ok (x ∷ []))
      else if r.id == D.hardened_id
      then (configured D.hardened_id D.hardened_name r >>= λ x. ok (x ∷ []))
      else ok []

  -- The loop over `Spec.Rulesets`, with the provider's rulesets so far.
  unfoldable pub collect_rulesets :
      List RulesetConfig
      → List (DikiRuleset D.RuleOptions D.Yaml)
      → Result (List (DikiRuleset D.RuleOptions D.Yaml))
  collect_rulesets [] acc = ok acc
  collect_rulesets (r ∷ rs) acc = do entry ← ruleset_entry r; collect_rulesets rs (acc ++ entry)
