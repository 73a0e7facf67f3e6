-- ===== src/Scan/Statuses.antt =====
-- The statuses that the reconciler of ComplianceScans sends, read condition by condition.
use diki_operator.Common.{String, ◌<>◌, ◌≡◌, refl, ◌∙◌, ◌≢◌, Option, none}
use diki_operator.Common.{some, List, [], ◌∷◌, eq_iff, arith}
use text.Mathlib.TextLemmas.{append-eq-nil_iff}
use diki_operator.Common.Errors.{Error, error_text}
use diki_operator.Api.Meta.{Time}
use diki_operator.Api.Scan.{
  ComplianceScan, Condition, ConditionType, ConditionStatus, compliance_scan_running,
  compliance_scan_completed, compliance_scan_failed, condition_true, condition_false,
  condition_type_completed, condition_type_failed,
}
use diki_operator.Conditions.{build_condition, with_old_condition, update_conditions}
use diki_operator.Conditions.Update.{
  find_condition, updated, request, update_conditions_lem, others,
}
use diki_operator.Scan.Reconcile.{
  mark_running, mark_completed, mark_failed, condition_reason_running, condition_reason_completed,
  condition_reason_failed,
}

-- The first condition of type `t` has this status, reason and message.
pub record Says (t : ConditionType) (status : ConditionStatus) (reason message : String)
    (cs : List Condition) : Type 0 where
  pub condition : Condition
  pub found : find_condition t cs ≡ some condition
  pub has_status : condition.status ≡ status
  pub has_reason : condition.reason ≡ reason
  pub has_message : condition.message ≡ message

module _ (t : ConditionType) (status : ConditionStatus) (reason message : String) (now : Time)
    (cs : List Condition) where
  updated-fields :
      (o : Option Condition)
      → status ≢ ""
      → reason ≢ ""
      → message ≢ ""
      → ((updated (request cs t status reason message now) o).status ≡ status)
        × ((updated (request cs t status reason message now) o).reason ≡ reason)
        × ((updated (request cs t status reason message now) o).message ≡ message)
  unfolding build_condition with_old_condition
  updated-fields none h k l = ground (arith, eq_iff status "", eq_iff reason "", eq_iff message "")
  updated-fields (some c) h k l =
      ground (arith, eq_iff status "", eq_iff reason "", eq_iff message "")

  update_conditions-Says :
      status ≢ ""
      → reason ≢ ""
      → message ≢ ""
      → Says t status reason message (update_conditions cs t status reason message now)
  update_conditions-Says h k l =
      let fields = updated-fields (find_condition t cs) h k l in
      record {
        condition = updated (request cs t status reason message now) (find_condition t cs);
        found = (update_conditions_lem cs t status reason message now).0;
        has_status = fields.0;
        has_reason = fields.1;
        has_message = fields.2;
      }

find_condition-others :
    (t : ConditionType) (cs : List Condition) → find_condition t (others t cs) ≡ none
unfolding find_condition
find_condition-others t [] = refl
find_condition-others t (c ∷ cs) = ground (arith, find_condition-others t cs)

find_condition-others_ne :
    (t u : ConditionType) (cs : List Condition)
    → t ≢ u
    → find_condition t (others u cs) ≡ find_condition t cs
unfolding find_condition
find_condition-others_ne t u [] h = refl
find_condition-others_ne t u (c ∷ cs) h =
    ground (arith, eq_iff c.type t, eq_iff c.type u, find_condition-others_ne t u cs h)

failed_message-ne-empty : (e : Error) → "ComplianceScan failed with error: " <> error_text e ≢ ""
failed_message-ne-empty e h =
    let p : ◌≡◌ {A = String} "ComplianceScan failed with error: " "" =
      ((append-eq-nil_iff {p = "ComplianceScan failed with error: "} {q = error_text e}).0 h).0 in
    ground (arith, eq_iff "ComplianceScan failed with error: " "")

-- A status with phase Running and the condition Completed=False.
pub record IsRunning (s : ComplianceScan) : Type 0 where
  pub phase : s.status.phase ≡ compliance_scan_running
  pub says :
      Says condition_type_completed condition_false condition_reason_running
        "ComplianceScan is running" s.status.conditions

-- A status with phase Completed and the condition Completed=True.
pub record IsCompleted (s : ComplianceScan) : Type 0 where
  pub phase : s.status.phase ≡ compliance_scan_completed
  pub says :
      Says condition_type_completed condition_true condition_reason_completed
        "ComplianceScan has completed successfully" s.status.conditions

-- A status with phase Failed, the condition Failed=True with the text of the error, and no
-- condition Completed.
pub record IsFailed (e : Error) (s : ComplianceScan) : Type 0 where
  pub phase : s.status.phase ≡ compliance_scan_failed
  pub says :
      Says condition_type_failed condition_true condition_reason_failed
        ("ComplianceScan failed with error: " <> error_text e)
        s.status.conditions
  pub not_completed : find_condition condition_type_completed s.status.conditions ≡ none

module _ (now : Time) (scan : ComplianceScan) where
  pub mark_running-IsRunning : IsRunning (mark_running now scan)
  unfolding mark_running
  mark_running-IsRunning = record {
    phase = refl;
    says =
        update_conditions-Says _ _ _ _ now scan.status.conditions
          (ground (arith, eq_iff "False" "")) (ground (arith, eq_iff "ComplianceScanRunning" ""))
          (ground (arith, eq_iff "ComplianceScan is running" ""));
  }

  pub mark_completed-IsCompleted : IsCompleted (mark_completed now scan)
  unfolding mark_completed
  mark_completed-IsCompleted = record {
    phase = refl;
    says =
        update_conditions-Says _ _ _ _ now scan.status.conditions (ground (arith, eq_iff "True" ""))
          (ground (arith, eq_iff "ComplianceScanCompleted" ""))
          (ground (arith, eq_iff "ComplianceScan has completed successfully" ""));
  }

  pub mark_failed-IsFailed : (e : Error) → IsFailed e (mark_failed now e scan)
  unfolding mark_failed
  mark_failed-IsFailed e =
      let said =
        update_conditions-Says condition_type_failed condition_true condition_reason_failed
          ("ComplianceScan failed with error: " <> error_text e) now scan.status.conditions
          (ground (arith, eq_iff "True" "")) (ground (arith, eq_iff "ComplianceScanFailed" ""))
          (failed_message-ne-empty e) in
      record {
        phase = refl;
        says = record {
          condition = said.condition;
          found =
              find_condition-others_ne _ _ _ (ground (arith, eq_iff "Failed" "Completed"))
              ∙ said.found;
          has_status = said.has_status;
          has_reason = said.has_reason;
          has_message = said.has_message;
        };
        not_completed = find_condition-others condition_type_completed (
            update_conditions scan.status.conditions condition_type_failed condition_true
              condition_reason_failed ("ComplianceScan failed with error: " <> error_text e) now);
      }
