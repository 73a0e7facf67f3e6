-- ===== src/Conditions/Update.antt =====
-- What `UpdateConditions` (compliancescan.go) does to a list of conditions.
use diki_operator.Common.{String, ◌≡◌, refl, ap, ◌∙◌, ◌≢◌, inl, inr}
use diki_operator.Common.{true, false, not, Option, none, some, List, [], ◌∷◌, ◌==◌}
use diki_operator.Common.{eq_iff, eq_refl, arith, if◌then◌else◌, Bool-cases, keep}
use diki_operator.Api.Meta.{Time}
use diki_operator.Api.Scan.{Condition, ConditionType, ConditionStatus}
use diki_operator.Conditions.{
  ConditionBuilder, empty_condition, build_condition, with_old_condition, update_with,
  update_conditions, with_time,
}
use diki_operator.Conditions.Build.{rebuild_same}

-- The first condition of a type, as a reader of the list finds it.
unfoldable pub find_condition : ConditionType → List Condition → Option Condition
find_condition t [] = none
find_condition t (c ∷ cs) = if c.type == t then some c else find_condition t cs

-- The conditions of the other types, in their order.
abbrev pub others : ConditionType → List Condition → List Condition
others t = keep (λ c. not (c.type == t))

-- No two conditions of a list have one type.
abbrev pub UniqueTypes : List Condition → Type 0
UniqueTypes [] = Unit {0}
UniqueTypes (c ∷ cs) = (find_condition c.type cs ≡ none) × UniqueTypes cs

update_with_same :
    (cb : ConditionBuilder) (c : Condition) (cs : List Condition)
    → (c.type == cb.condition_type) ≡ true
    → update_with cb (c ∷ cs) ≡ build_condition (with_old_condition c cb) ∷ cs
unfolding update_with
update_with_same cb c cs same = rw same

update_with_differs :
    (cb : ConditionBuilder) (c : Condition) (cs : List Condition)
    → (c.type == cb.condition_type) ≡ false
    → update_with cb (c ∷ cs) ≡ c ∷ update_with cb cs
unfolding update_with
update_with_differs cb c cs differs = rw differs

module _ (cb : ConditionBuilder) where
  -- The condition that the update leaves for the builder's type.
  abbrev pub updated : Option Condition → Condition
  updated none = build_condition cb
  updated (some old) = build_condition (with_old_condition old cb)

  build_condition-type : (build_condition cb).type ≡ cb.condition_type
  unfolding build_condition
  build_condition-type = refl

  rebuilt-type :
      (c : Condition) → (build_condition (with_old_condition c cb)).type ≡ cb.condition_type
  unfolding build_condition with_old_condition
  rebuilt-type c = refl

  pub find_condition-update_with :
      (cs : List Condition)
      → find_condition cb.condition_type (update_with cb cs)
        ≡ some (updated (find_condition cb.condition_type cs))
  unfolding find_condition update_with
  find_condition-update_with [] = simp (build_condition-type, eq_refl)
  find_condition-update_with (c ∷ cs) = elim (Bool-cases (c.type == cb.condition_type)) [
    | inl same ↦ simp (same, rebuilt-type c, eq_refl)
    | inr differs ↦ simp (differs, find_condition-update_with cs)
  ]

  pub find_condition-update_with_other :
      (t : ConditionType) (cs : List Condition)
      → t ≢ cb.condition_type
      → find_condition t (update_with cb cs) ≡ find_condition t cs
  unfolding find_condition update_with
  find_condition-update_with_other t [] h =
      ground (arith, build_condition-type, eq_iff (build_condition cb).type t)
  find_condition-update_with_other t (c ∷ cs) h = elim (Bool-cases (c.type == cb.condition_type)) [
    | inl same ↦ rw same (
        ground (
          arith,
          rebuilt-type c,
          eq_iff c.type cb.condition_type,
          eq_iff c.type t,
          eq_iff (build_condition (with_old_condition c cb)).type t,
        ))
    | inr differs ↦ rw differs (ground (arith, find_condition-update_with_other t cs h))
  ]

  pub others-update_with :
      (cs : List Condition)
      → others cb.condition_type (update_with cb cs) ≡ others cb.condition_type cs
  unfolding update_with
  others-update_with [] = simp (build_condition-type, eq_refl)
  others-update_with (c ∷ cs) = elim (Bool-cases (c.type == cb.condition_type)) [
    | inl same ↦ simp (same, rebuilt-type c, eq_refl)
    | inr differs ↦ rw (differs, differs) (ap (◌∷◌ c) (others-update_with cs))
  ]

  update_with-UniqueTypes : (cs : List Condition) → UniqueTypes cs → UniqueTypes (update_with cb cs)
  unfolding find_condition update_with
  update_with-UniqueTypes [] u = (refl, tt)
  update_with-UniqueTypes (c ∷ cs) u = elim (Bool-cases (c.type == cb.condition_type)) [
    | inl same ↦
        rw (same, rebuilt-type c) ((ground (arith, eq_iff c.type cb.condition_type, u.0)), u.1)
    | inr differs ↦ rw differs (
      find_condition-update_with_other c.type cs (ground (arith, eq_iff c.type cb.condition_type))
          ∙ u.0,
      update_with-UniqueTypes cs u.1,
    )
  ]

  -- The same update at a later time finds nothing to change.
  module _ (now : Time) (timed : cb.time ≢ 0) where
    built_again :
        build_condition (with_old_condition (build_condition cb) (with_time now cb))
        ≡ build_condition cb
    built_again = rebuild_same cb now timed

    rebuilt_again :
        (c : Condition)
        → build_condition
            (with_old_condition (build_condition (with_old_condition c cb)) (with_time now cb))
          ≡ build_condition (with_old_condition c cb)
    unfolding with_old_condition with_time
    rebuilt_again c = rebuild_same (with_old_condition c cb) now timed

    update_with_again :
        (cs : List Condition)
        → update_with (with_time now cb) (update_with cb cs) ≡ update_with cb cs
    unfolding with_time
    update_with_again [] =
        let step : update_with cb [] ≡ build_condition cb ∷ [] = unfold update_with in refl in
        rw step (
          update_with_same (with_time now cb) (build_condition cb) []
            (rw build_condition-type (eq_refl _))
          ∙ ap (λ (c : Condition). c ∷ []) built_again)
    update_with_again (c ∷ cs) = elim (Bool-cases (c.type == cb.condition_type)) [
      | inl same ↦ rw (update_with_same cb c cs same) (
          update_with_same (with_time now cb) (build_condition (with_old_condition c cb)) cs
            (rw rebuilt-type (eq_refl _))
          ∙ ap (λ (b : Condition). b ∷ cs) (rebuilt_again c))
      | inr differs ↦ rw (update_with_differs cb c cs differs) (
          update_with_differs (with_time now cb) c (update_with cb cs) differs
          ∙ ap (◌∷◌ c) (update_with_again cs))
    ]

module _ (conditions : List Condition) (type : ConditionType) (status : ConditionStatus)
    (reason message : String) (time : Time) where
  -- The builder that `UpdateConditions` sets up.
  abbrev pub request : ConditionBuilder
  request = record {
    old = empty_condition;
    status = status;
    condition_type = type;
    reason = reason;
    message = message;
    time = time;
  }

  -- After an update the list has, as the first condition of the type, the one built over the old
  -- first condition of that type (or over none), and the conditions of the other types are the old
  -- ones in their old order.
  pub update_conditions_lem :
      (find_condition type (update_conditions conditions type status reason message time)
        ≡ some (updated request (find_condition type conditions)))
      × (others type (update_conditions conditions type status reason message time)
          ≡ others type conditions)
  unfolding update_conditions
  update_conditions_lem =
      (find_condition-update_with request conditions, others-update_with request conditions)

  -- An update of a list without two conditions of one type gives such a list.
  pub update_conditions-UniqueTypes :
      UniqueTypes conditions
      → UniqueTypes (update_conditions conditions type status reason message time)
  unfolding update_conditions
  update_conditions-UniqueTypes = update_with-UniqueTypes request conditions

  -- After an update at a time other than the zero time, the same update at any time changes nothing
  -- at all: no time is moved.
  pub update_conditions_again :
      (now : Time)
      → time ≢ 0
      → update_conditions
          (update_conditions conditions type status reason message time)
          type
          status
          reason
          message
          now
        ≡ update_conditions conditions type status reason message time
  unfolding update_conditions
  update_conditions_again now timed = update_with_again request now timed conditions
