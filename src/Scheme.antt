-- ===== src/Scheme.antt =====
-- The registration of the program's types at a scheme: pkg/apis/diki/register.go,
-- pkg/apis/diki/v1alpha1/register.go and `RegisterConversions` of zz_generated.conversion.go there,
-- pkg/apis/diki/install/install.go,
-- pkg/apis/config/v1alpha1/register.go and pkg/apis/reportexporter/v1alpha1/register.go. The scheme
-- is code of apimachinery, a parameter.
pub mod Known
pub mod Installed
use diki_operator.Common.{String, Bool, List, [], ◌∷◌}
use diki_operator.Common.Errors.{Result, ok, ◌>>=◌}

pub record GroupVersion : Type 0 where
  pub group : String
  pub version : String

-- `SchemeGroupVersion` of each package; the internal version is `runtime.APIVersionInternal`.
abbrev pub diki_internal : GroupVersion
diki_internal = record { group = "diki.gardener.cloud"; version = "__internal" }

abbrev pub diki_v1alpha1 : GroupVersion
diki_v1alpha1 = record { group = "diki.gardener.cloud"; version = "v1alpha1" }

abbrev pub config_v1alpha1 : GroupVersion
config_v1alpha1 = record { group = "config.diki.gardener.cloud"; version = "v1alpha1" }

abbrev pub exporter_v1alpha1 : GroupVersion
exporter_v1alpha1 = record { group = "exporter.diki.gardener.cloud"; version = "v1alpha1" }

-- The kinds of both versions of the diki group.
abbrev pub diki_kinds : List String
diki_kinds =
    "ReportOutput" ∷ "ReportOutputList" ∷ "ComplianceScan" ∷ "ComplianceScanList"
    ∷ "ScheduledComplianceScan" ∷ "ScheduledComplianceScanList" ∷ []

-- The types that `RegisterConversions` names, in its order; each has one name in both versions.
abbrev pub convertible : List String
convertible =
    "ComplianceScan" ∷ "ComplianceScanList" ∷ "ComplianceScanSpec" ∷ "ComplianceScanStatus"
    ∷ "Condition" ∷ "Options" ∷ "OptionsConfigMapRef" ∷ "Output" ∷ "OutputConfigMap"
    ∷ "OutputStatus" ∷ "ReportOutput" ∷ "ReportOutputList" ∷ "ReportOutputRef" ∷ "ReportOutputSpec"
    ∷ "Rule" ∷ "RulesFindings" ∷ "RulesResults" ∷ "RulesSummary" ∷ "RulesetConfig"
    ∷ "RulesetOptions" ∷ "RulesetSummary" ∷ "ScheduledComplianceScan"
    ∷ "ScheduledComplianceScanList" ∷ "ScheduledComplianceScanSpec"
    ∷ "ScheduledComplianceScanStatus" ∷ "ScheduledComplianceScanTemplate" ∷ []

-- `runtime.Scheme`
pub record Registry : Type 1 where
  pub Scheme : Type 0
  pub recognizes : Scheme → GroupVersion → String → Bool
  pub add_known_type : GroupVersion → String → Scheme → Scheme
  -- `metav1.AddToGroupVersion`
  pub add_to_group_version : GroupVersion → Scheme → Scheme
  pub set_version_priority : GroupVersion → Scheme → Result Scheme
  pub add_type_defaulting : GroupVersion → String → Scheme → Scheme
  -- Whether a type of one version converts to that of another, and how this is registered.
  pub converts : Scheme → GroupVersion → GroupVersion → String → Bool
  pub add_generated_conversion : GroupVersion → GroupVersion → String → Scheme → Result Scheme

module _ (R : Registry) where
  -- `scheme.AddKnownTypes`
  unfoldable pub add_known_types : GroupVersion → List String → R.Scheme → R.Scheme
  add_known_types gv [] s = s
  add_known_types gv (kind ∷ kinds) s = add_known_types gv kinds (R.add_known_type gv kind s)

  -- `SchemeBuilder.AddToScheme`: the registered functions one after the other, up to an error.
  unfoldable pub add_to_scheme : List (R.Scheme → Result R.Scheme) → R.Scheme → Result R.Scheme
  add_to_scheme [] s = ok s
  add_to_scheme (register ∷ registers) s = do s' ← register s; add_to_scheme registers s'

  -- `RegisterConversions`: every type, to the internal version and from it.
  unfoldable pub register_all : List String → R.Scheme → Result R.Scheme
  register_all [] s = ok s
  register_all (type_name ∷ names) s = do
    s' ← R.add_generated_conversion diki_v1alpha1 diki_internal type_name s
    s'' ← R.add_generated_conversion diki_internal diki_v1alpha1 type_name s'
    register_all names s''

  unfoldable pub register_conversions : R.Scheme → Result R.Scheme
  register_conversions = register_all convertible

  -- `RegisterDefaults` of the packages without defaults
  unfoldable pub register_no_defaults : R.Scheme → Result R.Scheme
  register_no_defaults s = ok s

  -- `RegisterDefaults` of the operator's configuration
  unfoldable pub register_config_defaults : R.Scheme → Result R.Scheme
  register_config_defaults s =
      ok (R.add_type_defaulting config_v1alpha1 "DikiOperatorConfiguration" s)

  -- `addKnownTypes` of the internal version
  unfoldable pub add_internal_types : R.Scheme → Result R.Scheme
  add_internal_types s = ok (add_known_types diki_internal diki_kinds s)

  -- `addKnownTypes` of v1alpha1
  unfoldable pub add_v1alpha1_types : R.Scheme → Result R.Scheme
  add_v1alpha1_types s =
      ok (R.add_to_group_version diki_v1alpha1 (add_known_types diki_v1alpha1 diki_kinds s))

  unfoldable pub add_internal : R.Scheme → Result R.Scheme
  add_internal = add_to_scheme (add_internal_types ∷ [])

  -- The builder is made with the known types; `init` registers the defaults and the known types
  -- again, and the `init` of the generated conversions follows.
  unfoldable pub add_v1alpha1 : R.Scheme → Result R.Scheme
  add_v1alpha1 =
      add_to_scheme
        (add_v1alpha1_types ∷ register_no_defaults ∷ add_v1alpha1_types ∷ register_conversions ∷ [])

  -- `install.AddToScheme`
  unfoldable pub install : R.Scheme → Result R.Scheme
  install = add_to_scheme (add_v1alpha1 ∷ add_internal ∷ R.set_version_priority diki_v1alpha1 ∷ [])

  -- `AddToScheme` of the operator's configuration
  unfoldable pub add_config : R.Scheme → Result R.Scheme
  add_config = add_to_scheme (
      register_config_defaults
      ∷ (λ s. ok (add_known_types config_v1alpha1 ("DikiOperatorConfiguration" ∷ []) s))
      ∷ [])

  -- `AddToScheme` of the exporter's configuration
  unfoldable pub add_exporter : R.Scheme → Result R.Scheme
  add_exporter = add_to_scheme (
      register_no_defaults
      ∷ (λ s. ok (add_known_types exporter_v1alpha1 ("ReportExporterConfiguration" ∷ []) s))
      ∷ [])
