-- ===== src/Internal/Scan.antt =====
-- pkg/apis/diki/types_compliancescan.go and types_reportoutput.go: the internal ComplianceScan. Each type is named with its package,
-- and has the fields that the v1alpha1 type of the model has.
use diki_operator.Common.{String, List, Option}
use diki_operator.Common.Int.{ℤ}
use diki_operator.Api.Meta.{Time, ObjectMeta, RawExtension}

pub record DikiReportOutputRef : Type 0 where
  pub name : String

pub record DikiOptionsConfigMapRef : Type 0 where
  pub name : String
  pub namespace : String
  pub key : Option String

pub record DikiOptions : Type 0 where
  pub config_map_ref : Option DikiOptionsConfigMapRef

pub record DikiRulesetOptions : Type 0 where
  pub ruleset_options : Option DikiOptions
  pub rules : Option DikiOptions

pub record DikiRulesetConfig : Type 0 where
  pub id : String
  pub version : String
  pub options : Option DikiRulesetOptions

pub record DikiComplianceScanSpec : Type 0 where
  pub rulesets : List DikiRulesetConfig
  pub outputs : List DikiReportOutputRef

pub record DikiOutputStatus : Type 0 where
  pub output_name : String
  pub phase : String
  pub details : RawExtension

pub record DikiRulesSummary : Type 0 where
  pub passed : ℤ
  pub skipped : ℤ
  pub accepted : ℤ
  pub warning : ℤ
  pub failed : ℤ
  pub errored : ℤ

pub record DikiRule : Type 0 where
  pub id : String
  pub name : String

pub record DikiRulesFindings : Type 0 where
  pub failed : List DikiRule
  pub errored : List DikiRule
  pub warning : List DikiRule

pub record DikiRulesResults : Type 0 where
  pub summary : DikiRulesSummary
  pub rules : Option DikiRulesFindings

pub record DikiRulesetSummary : Type 0 where
  pub id : String
  pub version : String
  pub results : DikiRulesResults

pub record DikiCondition : Type 0 where
  pub type : String
  pub status : String
  pub last_update_time : Time
  pub last_transition_time : Time
  pub reason : String
  pub message : String

pub record DikiComplianceScanStatus : Type 0 where
  pub conditions : List DikiCondition
  pub phase : String
  pub rulesets : List DikiRulesetSummary
  pub outputs : List DikiOutputStatus

pub record DikiComplianceScan : Type 0 where
  pub meta : ObjectMeta
  pub spec : DikiComplianceScanSpec
  pub status : DikiComplianceScanStatus
