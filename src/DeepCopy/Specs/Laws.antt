-- ===== src/DeepCopy/Specs/Laws.antt =====
-- What a ComplianceScan's spec and its parts reads as in a memory, and that its copies are deep copies.
use diki_operator.Api.Scan.{
  OptionsConfigMapRef, Options, RulesetOptions, RulesetConfig, ComplianceScanSpec,
}
use diki_operator.Common.{◌≡◌}
use diki_operator.DeepCopy.Fresh.{Reading, IsDeepCopy}
use diki_operator.DeepCopy.Pointers.{
  Itself, PointsTo, Elements, assign-IsDeepCopy, copy_pointer-IsDeepCopy, copy_slice-IsDeepCopy,
  one, two,
}
use diki_operator.DeepCopy.Layout.{
  Foreign, StoredOptionsConfigMapRef, StoredOptions, StoredRulesetOptions, StoredRulesetConfig,
  StoredComplianceScanSpec,
}
use diki_operator.DeepCopy.Cells.{Cell}
use diki_operator.DeepCopy.Cells.Structs.{
  at_string, at_options_config_map_ref, at_options, at_ruleset_options,
}
use diki_operator.DeepCopy.Cells.Slices.{at_ruleset_configs, at_report_output_refs}
use diki_operator.DeepCopy.Machinery.{Machinery, IsMachinery}
use diki_operator.DeepCopy.Specs.{
  deep_copy_into_options_config_map_ref, deep_copy_into_options, deep_copy_into_ruleset_options,
  deep_copy_into_ruleset_config, deep_copy_into_compliance_scan_spec,
}

module _ {F : Foreign} {K : Machinery F} (L : IsMachinery K) where
  abbrev pub OptionsConfigMapRefReads :
      Reading (Cell F) (StoredOptionsConfigMapRef F) OptionsConfigMapRef
  OptionsConfigMapRefReads m a v =
      (a.name ≡ v.name) × (a.namespace ≡ v.namespace) × PointsTo at_string Itself m a.key v.key

  pub deep_copy_into_options_config_map_ref-IsDeepCopy :
      IsDeepCopy OptionsConfigMapRefReads (deep_copy_into_options_config_map_ref K)
  unfolding deep_copy_into_options_config_map_ref
  deep_copy_into_options_config_map_ref-IsDeepCopy = record {
    stable = λ m later a v keeps r. (
      r.0,
      r.1,
      (copy_pointer-IsDeepCopy assign-IsDeepCopy at_string).stable m later a.key v.key keeps r.2,
    );
    copies = λ m a v r.
        one (copy_pointer-IsDeepCopy assign-IsDeepCopy at_string) _ r.2
          (λ later b0 e0. (r.0, r.1, e0));
  }

  abbrev pub OptionsReads : Reading (Cell F) (StoredOptions F) Options
  OptionsReads m a v =
      PointsTo at_options_config_map_ref OptionsConfigMapRefReads m a.config_map_ref
        v.config_map_ref

  pub deep_copy_into_options-IsDeepCopy : IsDeepCopy OptionsReads (deep_copy_into_options K)
  unfolding deep_copy_into_options
  deep_copy_into_options-IsDeepCopy = record {
    stable = λ m later a v keeps r.
        (copy_pointer-IsDeepCopy deep_copy_into_options_config_map_ref-IsDeepCopy
            at_options_config_map_ref).stable
          m later a.config_map_ref v.config_map_ref keeps r;
    copies = λ m a v r.
        one
          (copy_pointer-IsDeepCopy deep_copy_into_options_config_map_ref-IsDeepCopy
            at_options_config_map_ref)
          _ r (λ later b0 e0. e0);
  }

  abbrev pub RulesetOptionsReads : Reading (Cell F) (StoredRulesetOptions F) RulesetOptions
  RulesetOptionsReads m a v =
      PointsTo at_options OptionsReads m a.ruleset_options v.ruleset_options
      × PointsTo at_options OptionsReads m a.rules v.rules

  pub deep_copy_into_ruleset_options-IsDeepCopy :
      IsDeepCopy RulesetOptionsReads (deep_copy_into_ruleset_options K)
  unfolding deep_copy_into_ruleset_options
  deep_copy_into_ruleset_options-IsDeepCopy = record {
    stable = λ m later a v keeps r. (
      (copy_pointer-IsDeepCopy deep_copy_into_options-IsDeepCopy at_options).stable m later
          a.ruleset_options v.ruleset_options keeps r.0,
      (copy_pointer-IsDeepCopy deep_copy_into_options-IsDeepCopy at_options).stable m later a.rules
          v.rules keeps r.1,
    );
    copies = λ m a v r.
        two (copy_pointer-IsDeepCopy deep_copy_into_options-IsDeepCopy at_options)
          (copy_pointer-IsDeepCopy deep_copy_into_options-IsDeepCopy at_options) _ r.0 r.1
          (λ later b0 b1 e0 e1. (e0, e1));
  }

  abbrev pub RulesetConfigReads : Reading (Cell F) (StoredRulesetConfig F) RulesetConfig
  RulesetConfigReads m a v =
      (a.id ≡ v.id)
      × (a.version ≡ v.version)
      × PointsTo at_ruleset_options RulesetOptionsReads m a.options v.options

  pub deep_copy_into_ruleset_config-IsDeepCopy :
      IsDeepCopy RulesetConfigReads (deep_copy_into_ruleset_config K)
  unfolding deep_copy_into_ruleset_config
  deep_copy_into_ruleset_config-IsDeepCopy = record {
    stable = λ m later a v keeps r. (
      r.0,
      r.1,
      (copy_pointer-IsDeepCopy deep_copy_into_ruleset_options-IsDeepCopy at_ruleset_options).stable
          m later a.options v.options keeps r.2,
    );
    copies = λ m a v r.
        one (copy_pointer-IsDeepCopy deep_copy_into_ruleset_options-IsDeepCopy at_ruleset_options) _
          r.2 (λ later b0 e0. (r.0, r.1, e0));
  }

  abbrev pub ComplianceScanSpecReads :
      Reading (Cell F) (StoredComplianceScanSpec F) ComplianceScanSpec
  ComplianceScanSpecReads m a v =
      Elements at_ruleset_configs RulesetConfigReads m a.rulesets v.rulesets
      × Elements at_report_output_refs Itself m a.outputs v.outputs

  pub deep_copy_into_compliance_scan_spec-IsDeepCopy :
      IsDeepCopy ComplianceScanSpecReads (deep_copy_into_compliance_scan_spec K)
  unfolding deep_copy_into_compliance_scan_spec
  deep_copy_into_compliance_scan_spec-IsDeepCopy = record {
    stable = λ m later a v keeps r. (
      (copy_slice-IsDeepCopy deep_copy_into_ruleset_config-IsDeepCopy at_ruleset_configs).stable m
          later a.rulesets v.rulesets keeps r.0,
      (copy_slice-IsDeepCopy assign-IsDeepCopy at_report_output_refs).stable m later a.outputs
          v.outputs keeps r.1,
    );
    copies = λ m a v r.
        two (copy_slice-IsDeepCopy deep_copy_into_ruleset_config-IsDeepCopy at_ruleset_configs)
          (copy_slice-IsDeepCopy assign-IsDeepCopy at_report_output_refs) _ r.0 r.1
          (λ later b0 b1 e0 e1. (e0, e1));
  }
