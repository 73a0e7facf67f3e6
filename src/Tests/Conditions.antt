-- ===== src/Tests/Conditions.antt =====
-- Conditions: a first and a second update, and a build.
use diki_operator.Common.{◌≡◌, refl, some, arith}
use diki_operator.Common.{List, [], ◌∷◌}
use diki_operator.Api.Scan.{Condition, condition_true, condition_type_failed}
use diki_operator.Conditions.{
  ConditionBuilder, build_condition, with_old_condition, update_with, update_conditions,
}
use diki_operator.Conditions.Update.{
  find_condition, others, updated, request, update_conditions_lem, update_conditions_again,
}

abbrev old_condition : Condition
old_condition = record {
  type = "Completed";
  status = "False";
  last_update_time = 3;
  last_transition_time = 2;
  reason = "ComplianceScanRunning";
  message = "ComplianceScan is running";
}

abbrev builder : ConditionBuilder
builder = record {
  old = old_condition;
  status = "True";
  condition_type = "Completed";
  reason = "ComplianceScanCompleted";
  message = "";
  time = 9;
}

abbrev conditions : List Condition
conditions = old_condition ∷ []

-- A condition of a new type comes behind the others, with both of its times.
appended :
    update_conditions conditions condition_type_failed condition_true "ComplianceScanFailed" "e" 9
    ≡ old_condition
      ∷ record {
        type = condition_type_failed;
        status = condition_true;
        last_update_time = 9;
        last_transition_time = 9;
        reason = "ComplianceScanFailed";
        message = "e";
      }
      ∷ []
unfolding update_conditions update_with build_condition with_old_condition
appended = refl

update_conditions_lem_example :
    (find_condition "Completed" (update_conditions conditions "Completed" "True" "Done" "done" 9)
      ≡ some (
          updated
            (request conditions "Completed" "True" "Done" "done" 9)
            (find_condition "Completed" conditions)))
    × (others "Completed" (update_conditions conditions "Completed" "True" "Done" "done" 9)
        ≡ others "Completed" conditions)
update_conditions_lem_example = update_conditions_lem conditions "Completed" "True" "Done" "done" 9

update_conditions_again_example :
    update_conditions
      (update_conditions conditions "Failed" "True" "Lost" "lost" 9)
      "Failed"
      "True"
      "Lost"
      "lost"
      12
    ≡ update_conditions conditions "Failed" "True" "Lost" "lost" 9
update_conditions_again_example =
    update_conditions_again conditions "Failed" "True" "Lost" "lost" 9 12 (λ p. omega arith)
