-- ===== src/Webhook/Lookup.antt =====
-- What admission promises the reconciler: the option lookups of an admitted scan succeed.
use diki_operator.Common.{String, ◌<>◌, ◌≡◌, refl, inl, inr}
use diki_operator.Common.{Option, none, some, List, [], ◌∷◌, ◌++◌, ◌==◌, eq_iff, All, Bool-cases}
use diki_operator.Common.Errors.{Error, wrapped, Result, ok, err, wrap, ◌>>=◌, Result-cases}
use diki_operator.Api.Scan.{OptionsConfigMapRef, RulesetConfig, ComplianceScan}
use diki_operator.Cluster.{Client}
use diki_operator.Scan.DikiConfig.{
  Diki, DikiRuleset, rules_ref, ruleset_ref, rule_options_suffix, get_config_map_key_value,
  get_rule_options, get_ruleset_options, configured, ruleset_entry, collect_rulesets,
}
use diki_operator.Webhook.{Library, Request, allowed, handle, operation_create}
use diki_operator.Webhook.Admission.{Resolves, RulesetResolves, handle_create_iff}

module _ (C : Client) (D : Diki) (s : C.State) where
  -- An error of the YAML library about a text, behind whatever was put in front of it.
  pub data FromYaml : Error → Type 0 where
    rule_options : (text : String) {e : Error} → D.unmarshal_rule_options text ≡ err e → FromYaml e
    ruleset_options :
        (text : String) {e : Error} → D.unmarshal_ruleset_options text ≡ err e → FromYaml e
    behind : (t : String) {e : Error} → FromYaml e → FromYaml (wrapped t e)

  -- A result, or an error of the YAML library.
  pub data OnlyYaml {A : Type 0} : Result A → Type 0 where
    succeeds : (a : A) → OnlyYaml (ok a)
    fails : {e : Error} → FromYaml e → OnlyYaml (err e)

  OnlyYaml-wrap : {A : Type 0} (t : String) {r : Result A} → OnlyYaml r → OnlyYaml (wrap t r)
  OnlyYaml-wrap t (succeeds a) = succeeds a
  OnlyYaml-wrap t (fails e) = fails (behind t e)

  OnlyYaml-bind :
      {A B : Type 0} (f : A → Result B) {r : Result A}
      → OnlyYaml r
      → ((a : A) → OnlyYaml (f a))
      → OnlyYaml (r >>= f)
  OnlyYaml-bind f (succeeds a) h = h a
  OnlyYaml-bind f (fails e) h = fails e

  OnlyYaml-rule_options : (text : String) → OnlyYaml (D.unmarshal_rule_options text)
  OnlyYaml-rule_options text = elim (Result-cases (D.unmarshal_rule_options text)) [
    | inl (a, eq) ↦ rw eq (succeeds a)
    | inr (e, eq) ↦ rw eq (fails (rule_options text eq))
  ]

  OnlyYaml-ruleset_options : (text : String) → OnlyYaml (D.unmarshal_ruleset_options text)
  OnlyYaml-ruleset_options text = elim (Result-cases (D.unmarshal_ruleset_options text)) [
    | inl (a, eq) ↦ rw eq (succeeds a)
    | inr (e, eq) ↦ rw eq (fails (ruleset_options text eq))
  ]

  -- A reference that resolves gives the text under its key.
  get_config_map_key_value_resolved :
      (ref : OptionsConfigMapRef) (default_key : String)
      → Resolves C s (some ref) default_key
      → (value : String) × (get_config_map_key_value C s ref default_key ≡ ok value)
  unfolding get_config_map_key_value
  get_config_map_key_value_resolved ref default_key (m, value, read, found) =
      (value, rw (read, get_config_map_key_value, found))

  get_rule_options-OnlyYaml :
      (r : RulesetConfig)
      → Resolves C s (rules_ref r.options) (r.id <> rule_options_suffix)
      → OnlyYaml (get_rule_options C D s r.options r.id)
  unfolding get_rule_options
  get_rule_options-OnlyYaml r h = go (rules_ref r.options) refl h
    where
      go :
          (o : Option OptionsConfigMapRef)
          → rules_ref r.options ≡ o
          → Resolves C s o (r.id <> rule_options_suffix)
          → OnlyYaml (get_rule_options C D s r.options r.id)
      go none e res = rw (e, get_rule_options) (succeeds [])
      go (some ref) e res =
          let (value, found) = get_config_map_key_value_resolved ref _ res in
          rw (e, get_rule_options, found) (OnlyYaml-wrap _ (OnlyYaml-rule_options value))

  get_ruleset_options-OnlyYaml :
      (r : RulesetConfig)
      → Resolves C s (ruleset_ref r.options) r.id
      → OnlyYaml (get_ruleset_options C D s r.options r.id)
  unfolding get_ruleset_options
  get_ruleset_options-OnlyYaml r h = go (ruleset_ref r.options) refl h
    where
      go :
          (o : Option OptionsConfigMapRef)
          → ruleset_ref r.options ≡ o
          → Resolves C s o r.id
          → OnlyYaml (get_ruleset_options C D s r.options r.id)
      go none e res = rw (e, get_ruleset_options) (succeeds none)
      go (some ref) e res =
          let (value, found) = get_config_map_key_value_resolved ref _ res in
          rw (e, get_ruleset_options, found) (OnlyYaml-wrap _ (OnlyYaml-ruleset_options value))

  configured-OnlyYaml :
      (id name : String) (r : RulesetConfig)
      → r.id ≡ id
      → RulesetResolves C s r
      → OnlyYaml (configured C D s id name r)
  unfolding configured
  configured-OnlyYaml id name r same h = rw (← same) (
      OnlyYaml-bind _ (OnlyYaml-wrap _ (get_rule_options-OnlyYaml r h.rules)) λ rule_options.
        OnlyYaml-bind _ (OnlyYaml-wrap _ (get_ruleset_options-OnlyYaml r h.options))
          λ args. succeeds _)

  ruleset_entry-OnlyYaml :
      (r : RulesetConfig) → RulesetResolves C s r → OnlyYaml (ruleset_entry C D s r)
  unfolding ruleset_entry
  ruleset_entry-OnlyYaml r h = elim (Bool-cases (r.id == D.disa_id)) [
    | inl is_disa ↦ rw is_disa (
        OnlyYaml-bind _ (configured-OnlyYaml _ D.disa_name r ((eq_iff _ _).0 is_disa) h)
          (λ x. succeeds _))
    | inr not_disa ↦ elim (Bool-cases (r.id == D.hardened_id)) [
      | inl is_hardened ↦
          rw (not_disa, is_hardened)
            (OnlyYaml-bind _
              (configured-OnlyYaml _ D.hardened_name r ((eq_iff _ _).0 is_hardened) h)
              (λ x. succeeds _))
      | inr not_hardened ↦ rw (not_disa, not_hardened) (succeeds [])
    ]
  ]

  collect_rulesets-OnlyYaml :
      (rs : List RulesetConfig) (acc : List (DikiRuleset D.RuleOptions D.Yaml))
      → All (RulesetResolves C s) rs
      → OnlyYaml (collect_rulesets C D s rs acc)
  unfolding collect_rulesets
  collect_rulesets-OnlyYaml [] acc h = succeeds acc
  collect_rulesets-OnlyYaml (r ∷ rs) acc h =
      OnlyYaml-bind _ (ruleset_entry-OnlyYaml r h.0)
        (λ entry. collect_rulesets-OnlyYaml rs (acc ++ entry) h.1)

  -- If the webhook allows the creation of a scan, then, over the same ConfigMaps, the reconciler's
  -- reading of the options of its rulesets either succeeds or fails with an error of the YAML
  -- library: no ConfigMap and no key is missing.
  pub handle-collect_rulesets :
      (L : Library) (req : Request) (scan : ComplianceScan)
      → L.decode_raw req.object ≡ ok scan
      → req.operation ≡ operation_create
      → handle C s L req ≡ allowed ""
      → OnlyYaml (collect_rulesets C D s scan.spec.rulesets [])
  handle-collect_rulesets L req scan decoded create admitted =
      collect_rulesets-OnlyYaml scan.spec.rulesets []
        ((handle_create_iff C s L req scan decoded create).0 admitted)
