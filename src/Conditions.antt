-- ===== src/Conditions.antt =====
-- pkg/apis/diki/v1alpha1/helper: the builder of a condition (condition_builder.go) and the update
-- of a condition list (compliancescan.go). The semantic deep equality of two conditions is code of
-- apimachinery, and is an argument.
pub mod Build
pub mod Update
use diki_operator.Common.{String, Bool, not, ◌||◌, List, [], ◌∷◌, ◌==◌, nat_eq}
use diki_operator.Common.{if◌then◌else◌}
use diki_operator.Api.Meta.{Time, zero_time}
use diki_operator.Api.Scan.{Condition, ConditionType, ConditionStatus, condition_unknown}

pub record ConditionBuilder : Type 0 where
  pub old : Condition
  pub status : ConditionStatus
  pub condition_type : ConditionType
  pub reason : String
  pub message : String
  pub time : Time

-- The zero value of the struct.
abbrev pub empty_condition : Condition
empty_condition = record {
  type = "";
  status = "";
  last_update_time = zero_time;
  last_transition_time = zero_time;
  reason = "";
  message = "";
}

-- The clock's reading is an argument.
unfoldable pub new_condition_builder : Time → ConditionType → ConditionBuilder
new_condition_builder now type = record {
  old = empty_condition;
  status = "";
  condition_type = type;
  reason = "";
  message = "";
  time = now;
}

unfoldable pub with_old_condition : Condition → ConditionBuilder → ConditionBuilder
with_old_condition old cb = record cb { old = record old { type = cb.condition_type } }

unfoldable pub with_status : ConditionStatus → ConditionBuilder → ConditionBuilder
with_status status cb = record cb { status = status }

unfoldable pub with_reason : String → ConditionBuilder → ConditionBuilder
with_reason reason cb = record cb { reason = reason }

unfoldable pub with_message : String → ConditionBuilder → ConditionBuilder
with_message message cb = record cb { message = message }

unfoldable pub with_time : Time → ConditionBuilder → ConditionBuilder
with_time time cb = record cb { time = time }

-- `cmp.Or` of three strings: the first that is not empty.
abbrev pub first_set : String → String → String → String
first_set a b c = if a == "" then (if b == "" then c else b) else a

-- The condition that `Build` returns, with its statements in the source's order.
unfoldable pub build_condition : ConditionBuilder → Condition
build_condition cb =
    let old = cb.old in
    let transition : Time =
      if nat_eq old.last_transition_time zero_time then cb.time else old.last_transition_time in
    let update : Time =
      if nat_eq old.last_update_time zero_time then cb.time else old.last_update_time in
    let status : String = first_set cb.status old.status condition_unknown in
    let reason : String = first_set cb.reason old.reason "Unspecified" in
    let message : String = first_set cb.message old.message "No message given." in
    record {
      type = cb.condition_type;
      status = status;
      last_update_time =
          if not (reason == old.reason) || not (message == old.message) then cb.time else update;
      last_transition_time = if not (status == old.status) then cb.time else transition;
      reason = reason;
      message = message;
    }

-- `Build`, with its flag for a change.
unfoldable pub build : (Condition → Condition → Bool) → ConditionBuilder → Condition × Bool
build deep_equal cb = (build_condition cb, not (deep_equal (build_condition cb) cb.old))

-- The loop of `UpdateConditions`: the first condition of the builder's type is rebuilt in place,
-- and without one the condition is appended.
unfoldable pub update_with : ConditionBuilder → List Condition → List Condition
update_with cb [] = build_condition cb ∷ []
update_with cb (c ∷ cs) =
    if c.type == cb.condition_type
    then build_condition (with_old_condition c cb) ∷ cs
    else c ∷ update_with cb cs

unfoldable pub update_conditions :
    List Condition → ConditionType → ConditionStatus → String → String → Time → List Condition
unfolding new_condition_builder with_status with_reason with_message with_time
update_conditions conditions type status reason message time =
    update_with
      (with_time time (
        with_message message
          (with_reason reason (with_status status (new_condition_builder time type)))))
      conditions
