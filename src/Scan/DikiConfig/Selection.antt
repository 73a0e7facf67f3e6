-- ===== src/Scan/DikiConfig/Selection.antt =====
-- What the loop of `deployDikiConfigMap` collects: an entry for each known ruleset of the scan, in
-- order, with the options that its ConfigMaps hold.
use diki_operator.Common.{String, ◌≡◌, sym, ◌∙◌, ◌≢◌, ◌↔◌, false}
use diki_operator.Common.{List, [], ◌∷◌, ◌++◌, ◌==◌, eq_iff, arith, ap}
use diki_operator.Common.{Bool-cases, inl, inr}
use mathlib.Core.Path.{subst}
use mathlib.Core.List.{append-nil, append_assoc}
use diki_operator.Common.Errors.{ok, wrap, >>=-eq-ok, wrap-eq-ok, ok-injective}
use diki_operator.Api.Scan.{RulesetConfig}
use diki_operator.Cluster.{Client}
use diki_operator.Scan.DikiConfig.{
  Diki, DikiRuleset, get_rule_options, get_ruleset_options, configured, ruleset_entry,
  collect_rulesets,
}

module _ (C : Client) (D : Diki) (s : C.State) where
  -- A ruleset of the scan and its entry in the diki configuration.
  pub record IsEntry (id name : String) (r : RulesetConfig) (x : DikiRuleset D.RuleOptions D.Yaml)
      : Type 0 where
    pub selected : r.id ≡ id
    pub has_id : x.id ≡ id
    pub has_name : x.name ≡ name
    pub has_version : x.version ≡ r.version
    pub has_rule_options : get_rule_options C D s r.options id ≡ ok x.rule_options
    pub has_args : get_ruleset_options C D s r.options id ≡ ok x.args

  -- The entries of a list of rulesets, an entry for each known ruleset and none for another.
  pub data Selected : List RulesetConfig → List (DikiRuleset D.RuleOptions D.Yaml) → Type 0 where
    nothing : Selected [] []
    disa :
        {r : RulesetConfig} {rs : List RulesetConfig} {x : DikiRuleset D.RuleOptions D.Yaml}
        {xs : List (DikiRuleset D.RuleOptions D.Yaml)}
        → IsEntry D.disa_id D.disa_name r x
        → Selected rs xs
        → Selected (r ∷ rs) (x ∷ xs)
    hardened :
        {r : RulesetConfig} {rs : List RulesetConfig} {x : DikiRuleset D.RuleOptions D.Yaml}
        {xs : List (DikiRuleset D.RuleOptions D.Yaml)}
        → IsEntry D.hardened_id D.hardened_name r x
        → Selected rs xs
        → Selected (r ∷ rs) (x ∷ xs)
    unknown :
        {r : RulesetConfig} {rs : List RulesetConfig} {xs : List (DikiRuleset D.RuleOptions D.Yaml)}
        → r.id ≢ D.disa_id
        → r.id ≢ D.hardened_id
        → Selected rs xs
        → Selected (r ∷ rs) xs

  configured-IsEntry :
      (id name : String) (r : RulesetConfig) (x : DikiRuleset D.RuleOptions D.Yaml)
      → r.id ≡ id
      → configured C D s id name r ≡ ok x
      → IsEntry id name r x
  unfolding configured
  configured-IsEntry id name r x same h =
      let (rule_options, got, h') =
        >>=-eq-ok (wrap "failed to get rule options" (get_rule_options C D s r.options id)) _ h in
      let (args, got', h'') =
        >>=-eq-ok (wrap "failed to get ruleset options" (get_ruleset_options C D s r.options id)) _
          h' in
      record {
        selected = same;
        has_id = ground (arith, h'');
        has_name = ground (arith, h'');
        has_version = ground (arith, h'');
        has_rule_options = wrap-eq-ok _ _ got ∙ ground (arith, h'');
        has_args = wrap-eq-ok _ _ got' ∙ ground (arith, h'');
      }

  IsEntry-configured :
      (id name : String) (r : RulesetConfig) (x : DikiRuleset D.RuleOptions D.Yaml)
      → IsEntry id name r x
      → configured C D s id name r ≡ ok x
  unfolding configured
  IsEntry-configured id name r x entry =
      rw (entry.has_rule_options, configured, entry.has_args)
        (ground (arith, entry.has_id, entry.has_name, entry.has_version))

  entry_disa :
      (r : RulesetConfig) (x : DikiRuleset D.RuleOptions D.Yaml)
      → IsEntry D.disa_id D.disa_name r x
      → ruleset_entry C D s r ≡ ok (x ∷ [])
  unfolding ruleset_entry
  entry_disa r x entry =
      rw ((eq_iff r.id D.disa_id).1 entry.selected, IsEntry-configured _ _ r x entry)

  entry_hardened :
      (r : RulesetConfig) (x : DikiRuleset D.RuleOptions D.Yaml)
      → r.id ≢ D.disa_id
      → IsEntry D.hardened_id D.hardened_name r x
      → ruleset_entry C D s r ≡ ok (x ∷ [])
  unfolding ruleset_entry
  entry_hardened r x other entry =
      let differs : (r.id == D.disa_id) ≡ false = ground (arith, eq_iff r.id D.disa_id) in
      rw (differs, (eq_iff r.id D.hardened_id).1 entry.selected, IsEntry-configured _ _ r x entry)

  entry_unknown :
      (r : RulesetConfig) → r.id ≢ D.disa_id → r.id ≢ D.hardened_id → ruleset_entry C D s r ≡ ok []
  unfolding ruleset_entry
  entry_unknown r h k = ground (arith, eq_iff r.id D.disa_id, eq_iff r.id D.hardened_id)

  -- What an answer of `ruleset_entry` says of the list with the entry in front.
  Selected-entry :
      (r : RulesetConfig) {rs : List RulesetConfig}
      (entry xs : List (DikiRuleset D.RuleOptions D.Yaml))
      → ruleset_entry C D s r ≡ ok entry
      → Selected rs xs
      → Selected (r ∷ rs) (entry ++ xs)
  unfolding ruleset_entry
  Selected-entry r {rs} entry xs h rest = elim (Bool-cases (r.id == D.disa_id)) [
    | inl is_disa ↦
        let (x, built, e) =
          >>=-eq-ok (configured C D s D.disa_id D.disa_name r) _
            (rw (is_disa, ruleset_entry) at h) in
        subst (λ l. Selected (r ∷ rs) (l ++ xs)) (ok-injective e)
          (disa (configured-IsEntry _ _ r x ((eq_iff _ _).0 is_disa) built) rest)
    | inr not_disa ↦ elim (Bool-cases (r.id == D.hardened_id)) [
      | inl is_hardened ↦
          let (x, built, e) =
            >>=-eq-ok (configured C D s D.hardened_id D.hardened_name r) _
              (rw (not_disa, ruleset_entry, is_hardened) at h) in
          subst (λ l. Selected (r ∷ rs) (l ++ xs)) (ok-injective e)
            (hardened (configured-IsEntry _ _ r x ((eq_iff _ _).0 is_hardened) built) rest)
      | inr not_hardened ↦
          subst (λ l. Selected (r ∷ rs) (l ++ xs))
            (ok-injective (rw (not_disa, ruleset_entry, not_hardened) at h))
            (unknown (ground (arith, eq_iff r.id D.disa_id))
              (ground (arith, eq_iff r.id D.hardened_id)) rest)
    ]
  ]

  collect_rulesets-Selected :
      (rs : List RulesetConfig) (acc : List (DikiRuleset D.RuleOptions D.Yaml))
      {ys : List (DikiRuleset D.RuleOptions D.Yaml)}
      → collect_rulesets C D s rs acc ≡ ok ys
      → (xs : List (DikiRuleset D.RuleOptions D.Yaml)) × (ys ≡ acc ++ xs) × Selected rs xs
  unfolding collect_rulesets
  collect_rulesets-Selected [] acc h = ([], sym (ok-injective h) ∙ rw append-nil, nothing)
  collect_rulesets-Selected (r ∷ rs) acc h =
      let (entry, got, rest) = >>=-eq-ok (ruleset_entry C D s r) _ h in
      let (xs, eq, selected) = collect_rulesets-Selected rs (acc ++ entry) rest in
      (entry ++ xs, eq ∙ append_assoc acc entry xs, Selected-entry r entry xs got selected)

  module _ (distinct : D.disa_id ≢ D.hardened_id) where
    Selected-collect_rulesets :
        {rs : List RulesetConfig} {xs : List (DikiRuleset D.RuleOptions D.Yaml)}
        (acc : List (DikiRuleset D.RuleOptions D.Yaml))
        → Selected rs xs
        → collect_rulesets C D s rs acc ≡ ok (acc ++ xs)
    unfolding collect_rulesets
    Selected-collect_rulesets acc nothing = rw append-nil
    Selected-collect_rulesets acc (disa {r = r} {x = x} {xs = xs} entry rest) =
        rw (entry_disa r x entry)
          (Selected-collect_rulesets (acc ++ (x ∷ [])) rest ∙ ap ok (append_assoc acc (x ∷ []) xs))
    Selected-collect_rulesets acc (hardened {r = r} {x = x} {xs = xs} entry rest) =
        rw (entry_hardened r x (λ e. distinct (sym e ∙ entry.selected)) entry)
          (Selected-collect_rulesets (acc ++ (x ∷ [])) rest ∙ ap ok (append_assoc acc (x ∷ []) xs))
    Selected-collect_rulesets acc (unknown {r = r} not_disa not_hardened rest) =
        rw (entry_unknown r not_disa not_hardened, append-nil) (Selected-collect_rulesets acc rest)

  -- Where the two ruleset ids differ, the loop succeeds with a list of entries exactly when that
  -- list has, in order, one entry for each ruleset of a known id, with its version and with the
  -- options that were read for it, and none for a ruleset of another id.
  pub collect_rulesets_iff :
      D.disa_id ≢ D.hardened_id
      → (rs : List RulesetConfig) (xs : List (DikiRuleset D.RuleOptions D.Yaml))
      → (collect_rulesets C D s rs [] ≡ ok xs) ↔ Selected rs xs
  collect_rulesets_iff distinct rs xs = (sound, Selected-collect_rulesets distinct [])
    where
      sound : collect_rulesets C D s rs [] ≡ ok xs → Selected rs xs
      sound h =
          let (ys, eq, selected) = collect_rulesets-Selected rs [] h in
          subst (λ l. Selected rs l) (sym eq) selected
