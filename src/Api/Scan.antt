-- ===== src/Api/Scan.antt =====
-- pkg/apis/diki/v1alpha1/types_compliancescan.go: the ComplianceScan resource.
use diki_operator.Common.{String, List, Option}
use diki_operator.Common.Int.{ℤ}
use diki_operator.Api.Meta.{Time, ListMeta, ObjectMeta, RawExtension}

pub record ReportOutputRef : Type 0 where
  pub name : String

pub record OptionsConfigMapRef : Type 0 where
  pub name : String
  pub namespace : String
  pub key : Option String

pub record Options : Type 0 where
  pub config_map_ref : Option OptionsConfigMapRef

-- The source's field `Ruleset` is `ruleset_options`.
pub record RulesetOptions : Type 0 where
  pub ruleset_options : Option Options
  pub rules : Option Options

pub record RulesetConfig : Type 0 where
  pub id : String
  pub version : String
  pub options : Option RulesetOptions

pub record ComplianceScanSpec : Type 0 where
  pub rulesets : List RulesetConfig
  pub outputs : List ReportOutputRef

-- `OutputStatusPhase`, `ComplianceScanPhase`, `ConditionStatus` and `ConditionType` are strings.
abbrev pub OutputStatusPhase : Type 0
OutputStatusPhase = String

abbrev pub output_status_completed : OutputStatusPhase
output_status_completed = "Completed"

abbrev pub output_status_failed : OutputStatusPhase
output_status_failed = "Failed"

pub record OutputStatus : Type 0 where
  pub output_name : String
  pub phase : OutputStatusPhase
  pub details : RawExtension

abbrev pub ComplianceScanPhase : Type 0
ComplianceScanPhase = String

abbrev pub compliance_scan_pending : ComplianceScanPhase
compliance_scan_pending = "Pending"

abbrev pub compliance_scan_running : ComplianceScanPhase
compliance_scan_running = "Running"

abbrev pub compliance_scan_completed : ComplianceScanPhase
compliance_scan_completed = "Completed"

abbrev pub compliance_scan_failed : ComplianceScanPhase
compliance_scan_failed = "Failed"

pub record RulesSummary : Type 0 where
  pub passed : ℤ
  pub skipped : ℤ
  pub accepted : ℤ
  pub warning : ℤ
  pub failed : ℤ
  pub errored : ℤ

pub record Rule : Type 0 where
  pub id : String
  pub name : String

pub record RulesFindings : Type 0 where
  pub failed : List Rule
  pub errored : List Rule
  pub warning : List Rule

pub record RulesResults : Type 0 where
  pub summary : RulesSummary
  pub rules : Option RulesFindings

pub record RulesetSummary : Type 0 where
  pub id : String
  pub version : String
  pub results : RulesResults

abbrev pub ConditionStatus : Type 0
ConditionStatus = String

abbrev pub ConditionType : Type 0
ConditionType = String

abbrev pub condition_true : ConditionStatus
condition_true = "True"

abbrev pub condition_false : ConditionStatus
condition_false = "False"

abbrev pub condition_unknown : ConditionStatus
condition_unknown = "Unknown"

abbrev pub condition_type_completed : ConditionType
condition_type_completed = "Completed"

abbrev pub condition_type_failed : ConditionType
condition_type_failed = "Failed"

pub record Condition : Type 0 where
  pub type : ConditionType
  pub status : ConditionStatus
  pub last_update_time : Time
  pub last_transition_time : Time
  pub reason : String
  pub message : String

pub record ComplianceScanStatus : Type 0 where
  pub conditions : List Condition
  pub phase : ComplianceScanPhase
  pub rulesets : List RulesetSummary
  pub outputs : List OutputStatus

pub record ComplianceScan : Type 0 where
  pub meta : ObjectMeta
  pub spec : ComplianceScanSpec
  pub status : ComplianceScanStatus

pub record ComplianceScanList : Type 0 where
  pub list_meta : ListMeta
  pub items : List ComplianceScan
