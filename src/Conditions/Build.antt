-- ===== src/Conditions/Build.antt =====
-- What `Build` (condition_builder.go) returns: no empty field, and times that move with what they
-- time.
use diki_operator.Common.{String, ◌≡◌, refl, ◌≢◌, Bool, true, false}
use diki_operator.Common.{nat_eq, eq_iff, eq_refl, arith, if◌then◌else◌, ◌↔◌}
use diki_operator.Api.Meta.{Time}
use diki_operator.Api.Scan.{Condition, condition_unknown}
use diki_operator.Conditions.{
  ConditionBuilder, first_set, build_condition, build, with_old_condition, with_time,
}

-- The first text that is set is set, if the last one is.
first_set-ne-empty : (a b c : String) → c ≢ "" → first_set a b c ≢ ""
first_set-ne-empty a b c h = ground (arith, eq_iff a "", eq_iff b "")

-- Choosing again, with the choice as the fallback, chooses the same.
pub first_set_again : (a b c : String) → c ≢ "" → first_set a (first_set a b c) c ≡ first_set a b c
first_set_again a b c h = ground (arith, eq_iff a "", eq_iff b "", eq_iff c "")

-- A time of the result: the builder's where its field has changed or no time was set.
abbrev settled : Bool → Time → Time → Time
settled changed old now = if changed then now else (if nat_eq old 0 then now else old)

settled-ne-zero : (changed : Bool) (old now : Time) → now ≢ 0 → settled changed old now ≢ 0
settled-ne-zero changed old now h = ground arith

settled_again : (t now : Time) → t ≢ 0 → settled false t now ≡ t
settled_again t now h = ground arith

unknown-ne-empty : ◌≢◌ {A = String} "Unknown" ""
unknown-ne-empty = ground (arith, eq_iff "Unknown" "")

unspecified-ne-empty : ◌≢◌ {A = String} "Unspecified" ""
unspecified-ne-empty = ground (arith, eq_iff "Unspecified" "")

no_message-ne-empty : ◌≢◌ {A = String} "No message given." ""
no_message-ne-empty = ground (arith, eq_iff "No message given." "")

module _ (cb : ConditionBuilder) where
  -- A built condition has the builder's type, a status, a reason and a message that are not empty,
  -- and, where the builder's time is not the zero time, two times that are not the zero time.
  pub record IsFilled (c : Condition) : Type 0 where
    pub type : c.type ≡ cb.condition_type
    pub status : c.status ≢ ""
    pub reason : c.reason ≢ ""
    pub message : c.message ≢ ""
    pub last_update_time : c.last_update_time ≢ 0
    pub last_transition_time : c.last_transition_time ≢ 0

  -- A condition that is built at a time other than the zero time has the builder's type, and none of
  -- its other fields is empty or zero.
  pub build_condition-IsFilled : cb.time ≢ 0 → IsFilled (build_condition cb)
  unfolding build_condition
  build_condition-IsFilled h = record {
    type = refl;
    status = first_set-ne-empty cb.status cb.old.status _ unknown-ne-empty;
    reason = first_set-ne-empty cb.reason cb.old.reason _ unspecified-ne-empty;
    message = first_set-ne-empty cb.message cb.old.message _ no_message-ne-empty;
    last_update_time = settled-ne-zero _ cb.old.last_update_time cb.time h;
    last_transition_time = settled-ne-zero _ cb.old.last_transition_time cb.time h;
  }

  rebuild :
      (c : Condition) (now : Time)
      → IsFilled c
      → first_set cb.status c.status condition_unknown ≡ c.status
      → first_set cb.reason c.reason "Unspecified" ≡ c.reason
      → first_set cb.message c.message "No message given." ≡ c.message
      → build_condition (with_old_condition c (with_time now cb)) ≡ c
  unfolding build_condition with_old_condition with_time
  rebuild c now filled e f g =
      simp (e, f, g, eq_refl)
        (ground (arith, filled.type, filled.last_update_time, filled.last_transition_time))

  built_over :
      (c : Condition) (now : Time) → IsFilled c → (with_old_condition c (with_time now cb)).old ≡ c
  unfolding with_old_condition with_time
  built_over c now filled = ground (arith, filled.type)

  pub rebuild_same :
      (now : Time)
      → cb.time ≢ 0
      → build_condition (with_old_condition (build_condition cb) (with_time now cb))
        ≡ build_condition cb
  rebuild_same now h =
      rebuild _ now (build_condition-IsFilled h) (status cb) (reason cb) (message cb)
    where
      status :
          (cb : ConditionBuilder)
          → first_set cb.status (build_condition cb).status condition_unknown
            ≡ (build_condition cb).status
      status cb =
          unfold build_condition in first_set_again cb.status cb.old.status _ unknown-ne-empty

      reason :
          (cb : ConditionBuilder)
          → first_set cb.reason (build_condition cb).reason "Unspecified"
            ≡ (build_condition cb).reason
      reason cb =
          unfold build_condition in first_set_again cb.reason cb.old.reason _ unspecified-ne-empty

      message :
          (cb : ConditionBuilder)
          → first_set cb.message (build_condition cb).message "No message given."
            ≡ (build_condition cb).message
      message cb =
          unfold build_condition in first_set_again cb.message cb.old.message _ no_message-ne-empty

  -- Where the comparison of conditions is exact and the builder's time is not the zero time, building
  -- once more over the result, at any time, changes nothing, and the flag says so.
  pub build_again :
      (deep_equal : Condition → Condition → Bool)
      → ((a b : Condition) → (deep_equal a b ≡ true) ↔ (a ≡ b))
      → (now : Time) → cb.time ≢ 0
      → build deep_equal (with_old_condition (build_condition cb) (with_time now cb))
        ≡ (build_condition cb, false)
  unfolding build
  build_again deep_equal exact now h = simp (
    rebuild_same now h,
    built_over (build_condition cb) now (build_condition-IsFilled h),
    (exact (build_condition cb) (build_condition cb)).1 refl,
  )

  -- Over an old condition with both times set, and other than the builder's time, the transition
  -- time stays exactly when the status stays, and the update time exactly when the reason and the
  -- message both stay.
  pub build_condition_times :
      cb.old.last_transition_time ≢ 0
      → cb.old.last_update_time ≢ 0
      → cb.time ≢ cb.old.last_transition_time
      → cb.time ≢ cb.old.last_update_time
      → (((build_condition cb).last_transition_time ≡ cb.old.last_transition_time)
          ↔ ((build_condition cb).status ≡ cb.old.status))
        × (((build_condition cb).last_update_time ≡ cb.old.last_update_time) ↔ (
            ((build_condition cb).reason ≡ cb.old.reason)
            × ((build_condition cb).message ≡ cb.old.message)))
  build_condition_times t u s v = (transition t s, update u v)
    where
      transition :
          cb.old.last_transition_time ≢ 0
          → cb.time ≢ cb.old.last_transition_time
          → ((build_condition cb).last_transition_time ≡ cb.old.last_transition_time)
            ↔ ((build_condition cb).status ≡ cb.old.status)
      transition t s =
          unfold build_condition in
          ground (arith, eq_iff (first_set cb.status cb.old.status condition_unknown) cb.old.status)

      update :
          cb.old.last_update_time ≢ 0
          → cb.time ≢ cb.old.last_update_time
          → ((build_condition cb).last_update_time ≡ cb.old.last_update_time) ↔ (
              ((build_condition cb).reason ≡ cb.old.reason)
              × ((build_condition cb).message ≡ cb.old.message))
      update u v =
          unfold build_condition in
          ground (
            arith,
            eq_iff (first_set cb.reason cb.old.reason "Unspecified") cb.old.reason,
            eq_iff (first_set cb.message cb.old.message "No message given.") cb.old.message,
          )
