-- ===== src/DeepCopy/Layout.antt =====
-- The structs of pkg/apis/diki/v1alpha1 as they stand in memory. A struct without pointers is the
-- same as its value, which the Api modules have. The type metadata is left out, as there.
use diki_operator.Api.Scan.{RulesSummary, OutputStatusPhase, ComplianceScanPhase}
use diki_operator.Common.{String}
use diki_operator.DeepCopy.Memory.{Pointer}

-- The types of k8s.io/apimachinery in memory, and the cells that they point to.
pub record Foreign : Type 1 where
  pub Block : Type 0
  pub Meta : Type 0
  pub ListMetaAt : Type 0
  pub Raw : Type 0

module _ (F : Foreign) where
  pub record StoredOptionsConfigMapRef : Type 0 where
    pub name : String
    pub namespace : String
    pub key : Pointer

  pub record StoredOptions : Type 0 where
    pub config_map_ref : Pointer

  pub record StoredRulesetOptions : Type 0 where
    pub ruleset_options : Pointer
    pub rules : Pointer

  pub record StoredRulesetConfig : Type 0 where
    pub id : String
    pub version : String
    pub options : Pointer

  pub record StoredComplianceScanSpec : Type 0 where
    pub rulesets : Pointer
    pub outputs : Pointer

  pub record StoredOutputStatus : Type 0 where
    pub output_name : String
    pub phase : OutputStatusPhase
    pub details : F.Raw

  pub record StoredRulesFindings : Type 0 where
    pub failed : Pointer
    pub errored : Pointer
    pub warning : Pointer

  pub record StoredRulesResults : Type 0 where
    pub summary : RulesSummary
    pub rules : Pointer

  pub record StoredRulesetSummary : Type 0 where
    pub id : String
    pub version : String
    pub results : StoredRulesResults

  pub record StoredComplianceScanStatus : Type 0 where
    pub conditions : Pointer
    pub phase : ComplianceScanPhase
    pub rulesets : Pointer
    pub outputs : Pointer

  pub record StoredComplianceScan : Type 0 where
    pub meta : F.Meta
    pub spec : StoredComplianceScanSpec
    pub status : StoredComplianceScanStatus

  pub record StoredComplianceScanList : Type 0 where
    pub list_meta : F.ListMetaAt
    pub items : Pointer

  pub record StoredOutput : Type 0 where
    pub config_map : Pointer

  pub record StoredReportOutputSpec : Type 0 where
    pub output : StoredOutput

  pub record StoredReportOutput : Type 0 where
    pub meta : F.Meta
    pub spec : StoredReportOutputSpec

  pub record StoredReportOutputList : Type 0 where
    pub list_meta : F.ListMetaAt
    pub items : Pointer

  pub record StoredScheduledComplianceScanTemplate : Type 0 where
    pub spec : StoredComplianceScanSpec

  pub record StoredScheduledComplianceScanSpec : Type 0 where
    pub schedule : String
    pub successful_scans_history_limit : Pointer
    pub failed_scans_history_limit : Pointer
    pub scan_template : StoredScheduledComplianceScanTemplate

  pub record StoredScheduledComplianceScanStatus : Type 0 where
    pub active : Pointer
    pub last_schedule_time : Pointer
    pub last_completion_time : Pointer

  pub record StoredScheduledComplianceScan : Type 0 where
    pub meta : F.Meta
    pub spec : StoredScheduledComplianceScanSpec
    pub status : StoredScheduledComplianceScanStatus

  pub record StoredScheduledComplianceScanList : Type 0 where
    pub list_meta : F.ListMetaAt
    pub items : Pointer
