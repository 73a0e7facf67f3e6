-- ===== src/DeepCopy/Patch/Laws.antt =====
-- The update in place gives the conditions of `update_with`, and the base of the patch keeps the
-- old ones.
use mathlib.Core.Path.{ap₂, subst}
use diki_operator.Common.{
  ℕ, ◌≡◌, ◌≢◌, refl, ap, ◌∙◌, ◌==◌, true, false, List, [], ◌∷◌, ◌++◌, none, some, arith, inl, inr,
  Bool-cases, contains_func,
}
use diki_operator.Api.Scan.{Condition}
use diki_operator.Conditions.{ConditionBuilder, build_condition, update_with}
use diki_operator.DeepCopy.Memory.{Pointer, Run, get_elem?, pure, ◌>>=◌, load, read, new}
use diki_operator.DeepCopy.Fresh.{IsFresh, new-IsFresh}
use diki_operator.DeepCopy.Pointers.{Itself, Each, Elements}
use diki_operator.DeepCopy.Isolation.{write, get_elem?-write, get_elem?-write_other, load-cell}
use diki_operator.DeepCopy.Layout.{Foreign}
use diki_operator.DeepCopy.Cells.{Cell}
use diki_operator.DeepCopy.Cells.Slices.{at_conditions}
use diki_operator.DeepCopy.Patch.{set_first, store, update_elements, update_in_place}

set_first-eq-update_with :
    (cb : ConditionBuilder) (cs : List Condition)
    → contains_func cs (λ c. c.type == cb.condition_type) ≡ true
    → set_first cb cs ≡ update_with cb cs
unfolding set_first update_with
set_first-eq-update_with cb [] h = ground arith
set_first-eq-update_with cb (c ∷ cs) h = elim (Bool-cases (c.type == cb.condition_type)) [
  | inl e ↦ rw e refl
  | inr e ↦ rw e (ap (◌∷◌ c) (set_first-eq-update_with cb cs (ground arith)))
]

append-eq-update_with :
    (cb : ConditionBuilder) (cs : List Condition)
    → contains_func cs (λ c. c.type == cb.condition_type) ≡ false
    → cs ++ (build_condition cb ∷ []) ≡ update_with cb cs
unfolding update_with
append-eq-update_with cb [] h = refl
append-eq-update_with cb (c ∷ cs) h = elim (Bool-cases (c.type == cb.condition_type)) [
  | inl e ↦ absurd (ground arith)
  | inr e ↦ rw e (ap (◌∷◌ c) (append-eq-update_with cb cs (ground arith)))
]

Each-Itself : {C A : Type 0} (m : List C) (xs vs : List A) → Each Itself m xs vs → xs ≡ vs
Each-Itself m [] [] r = refl
Each-Itself m [] (v ∷ vs) r = absurd r
Each-Itself m (x ∷ xs) [] r = absurd r
Each-Itself m (x ∷ xs) (v ∷ vs) (e, r) = ap₂ ◌∷◌ e (Each-Itself m xs vs r)

Each-refl : {C A : Type 0} (m : List C) (xs : List A) → Each Itself m xs xs
Each-refl m [] = tt
Each-refl m (x ∷ xs) = (refl, Each-refl m xs)

module _ {F : Foreign} where
  -- What the update in place leaves: the new conditions, in a memory where every old cell but the
  -- slice's own array is as it was.
  pub record IsUpdated (m : List (Cell F)) (p : Pointer) (r : Run (Cell F) Pointer)
      (vs : List Condition) : Type 0 where
    pub result : Pointer
    pub after : List (Cell F)
    pub returns : r m ≡ some (result, after)
    pub reads : Elements at_conditions Itself after result vs
    pub kept :
        (q : ℕ) (c : Cell F) → some q ≢ p → get_elem? m q ≡ some c → get_elem? after q ≡ some c

  new_conditions-IsUpdated :
      (m : List (Cell F)) (p : Pointer) (cs : List Condition)
      → IsUpdated m p (new at_conditions cs >>= λ q. pure (some q)) cs
  unfolding ◌>>=◌
  new_conditions-IsUpdated m p cs = record {
    result = some made.value;
    after = made.after;
    returns = rw made.returns refl;
    reads = (cs, made.holds made.after (λ q c l e. e), Each-refl made.after cs);
    kept = λ q c other e. made.kept q c (omega arith) e;
  }
    where
      made : IsFresh m (new at_conditions cs) (λ later q. load at_conditions q later ≡ some cs)
      made = new-IsFresh at_conditions cs

  store-IsUpdated :
      (m : List (Cell F)) (p : ℕ) (old cs : List Condition)
      → load at_conditions p m ≡ some old
      → IsUpdated m (some p) (store p cs) cs
  unfolding store load
  store-IsUpdated m p old cs h = record {
    result = some p;
    after = write p (at_conditions.put cs) m;
    returns = refl;
    reads =
        let (d, there) = load-cell at_conditions p old m h in
        (
          cs,
          rw (load, get_elem?-write p (at_conditions.put cs) d m there) refl,
          Each-refl (write p (at_conditions.put cs) m) cs,
        );
    kept = λ q c other e. get_elem?-write_other p _ m q (λ same. other (ap some same)) ∙ e;
  }

  update_elements-IsUpdated :
      (cb : ConditionBuilder) (m : List (Cell F)) (p : ℕ) (cs : List Condition)
      → load at_conditions p m ≡ some cs
      → IsUpdated m (some p) (update_elements cb p cs) (update_with cb cs)
  unfolding update_elements
  update_elements-IsUpdated cb m p cs h =
      elim (Bool-cases (contains_func cs (λ c. c.type == cb.condition_type))) [
        | inl e ↦
            rw (e, ← set_first-eq-update_with cb cs e) (store-IsUpdated m p cs (set_first cb cs) h)
        | inr e ↦
            rw (e, ← append-eq-update_with cb cs e)
              (new_conditions-IsUpdated m (some p) (cs ++ (build_condition cb ∷ [])))
      ]

  -- Where a slice of conditions reads as some list, the update in place returns a slice that reads
  -- as what the loop of `UpdateConditions` makes of the list, and it changes no other old cell.
  pub update_in_place-IsUpdated :
      (cb : ConditionBuilder) (m : List (Cell F)) (p : Pointer) (vs : List Condition)
      → Elements at_conditions Itself m p vs
      → IsUpdated m p (update_in_place cb p) (update_with cb vs)
  unfolding update_in_place update_with ◌>>=◌ read
  update_in_place-IsUpdated cb m none vs r =
      rw r (new_conditions-IsUpdated m none (build_condition cb ∷ []))
  update_in_place-IsUpdated cb m (some p) vs (cs, l, same) =
      let done : IsUpdated m (some p) (update_elements cb p cs) (update_with cb vs) =
        subst (λ us. IsUpdated m (some p) (update_elements cb p cs) (update_with cb us))
          (Each-Itself m cs vs same) (update_elements-IsUpdated cb m p cs l) in
      record {
        result = done.result;
        after = done.after;
        returns = rw l done.returns;
        reads = done.reads;
        kept = done.kept;
      }
