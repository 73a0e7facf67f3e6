-- ===== src/DeepCopy/Patch.antt =====
-- `patch := client.MergeFrom(scan.DeepCopy())` and the update of the conditions that follows it in
-- internal/reconciler/compliancescan (reconciler.go and utils.go): `UpdateConditions`
-- (pkg/apis/diki/v1alpha1/helper/compliancescan.go) writes to the array of the slice it is given,
-- which a shallow copy would share.
pub mod Laws
pub mod Base
use diki_operator.Common.{ℕ, ◌==◌, List, [], ◌∷◌, ◌++◌, none, some, if◌then◌else◌, contains_func}
use diki_operator.Api.Scan.{Condition}
use diki_operator.Conditions.{ConditionBuilder, build_condition, with_old_condition}
use diki_operator.DeepCopy.Memory.{Pointer, Run, pure, ◌>>=◌, read, new}
use diki_operator.DeepCopy.Isolation.{write}
use diki_operator.DeepCopy.Layout.{Foreign}
use diki_operator.DeepCopy.Cells.{Cell}
use diki_operator.DeepCopy.Cells.Slices.{at_conditions}

-- `conditions[i], _ = builder.WithOldCondition(condition).Build()` for the first `i` of the type.
unfoldable pub set_first : ConditionBuilder → List Condition → List Condition
set_first cb [] = []
set_first cb (c ∷ cs) =
    if c.type == cb.condition_type
    then build_condition (with_old_condition c cb) ∷ cs
    else c ∷ set_first cb cs

module _ {F : Foreign} where
  unfoldable pub store : ℕ → List Condition → Run (Cell F) Pointer
  store p cs m = some (some p, write p (at_conditions.put cs) m)

  -- The loop of `UpdateConditions` with the array in memory; what is appended goes to a new array,
  -- since the elements past a slice's length belong to nobody who reads here.
  unfoldable pub update_elements : ConditionBuilder → ℕ → List Condition → Run (Cell F) Pointer
  update_elements cb p cs =
      if contains_func cs (λ c. c.type == cb.condition_type)
      then store p (set_first cb cs)
      else (do q ← new at_conditions (cs ++ (build_condition cb ∷ [])); pure (some q))

  unfoldable pub update_in_place : ConditionBuilder → Pointer → Run (Cell F) Pointer
  update_in_place cb none = do q ← new at_conditions (build_condition cb ∷ []); pure (some q)
  update_in_place cb (some p) = do cs ← read at_conditions p; update_elements cb p cs
