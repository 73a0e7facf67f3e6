-- ===== src/DeepCopy/Memory.antt =====
-- A memory that only grows, and the two shapes of a generated deep copy: a copy of what a pointer
-- points to (`*out = new(T); (*in).DeepCopyInto(*out)`) and one of a slice
-- (`*out = make([]T, len(*in))` and a loop). Go's memory is not part of the repository.
use mathlib.Core.Option
use diki_operator.Common.{ℕ, zero, suc, ◌≡◌, List, [], ◌∷◌, ◌++◌, Option, none, some, length}

-- A nil pointer and a nil slice are `none`. The functions say at which type an address is read.
abbrev pub Pointer : Type 0
Pointer = Option ℕ

abbrev pub get_elem? {ℓ} : {A : Type ℓ} → List A → ℕ → Option A
get_elem? [] n = none
get_elem? (x ∷ xs) zero = some x
get_elem? (x ∷ xs) (suc n) = get_elem? xs n

-- How the values of a type stand in a cell.
pub record Store (C A : Type 0) : Type 0 where
  pub put : A → C
  pub get : C → Option A
  pub get-put : (a : A) → get (put a) ≡ some a

-- A run that may allocate; `none` is a fault, such as a dangling pointer.
abbrev pub Run : Type 0 → Type 0 → Type 0
Run C A = List C → Option (A × List C)

module _ {C : Type 0} where
  abbrev pub pure : {A : Type 0} → A → Run C A
  pure a m = some (a, m)

  abbrev pub and_then : {A B : Type 0} → Option (A × List C) → (A → Run C B) → Option (B × List C)
  and_then none k = none
  and_then (some r) k = k r.0 r.1

  infixl 5 ◌>>=◌
  unfoldable pub ◌>>=◌ : {A B : Type 0} → Run C A → (A → Run C B) → Run C B
  ◌>>=◌ r k m = and_then (r m) k

  module _ {A : Type 0} (s : Store C A) where
    unfoldable pub load : ℕ → List C → Option A
    load p m = elim (get_elem? m p) [ none ↦ none | some c ↦ s.get c ]

    unfoldable pub read : ℕ → Run C A
    read p m = Option.map (λ a. (a, m)) (load p m)

    unfoldable pub new : A → Run C ℕ
    new a m = some (length m, m ++ (s.put a ∷ []))

    -- The copied value is stored once it is complete.
    unfoldable pub copy_pointer : (A → Run C A) → Pointer → Run C Pointer
    copy_pointer deep_copy_into none = pure none
    copy_pointer deep_copy_into (some p) = do
      from ← read p
      out ← deep_copy_into from
      q ← new out
      pure (some q)

  unfoldable pub copy_elements : {A : Type 0} → (A → Run C A) → List A → Run C (List A)
  copy_elements deep_copy_into [] = pure []
  copy_elements deep_copy_into (x ∷ xs) = do
    y ← deep_copy_into x
    ys ← copy_elements deep_copy_into xs
    pure (y ∷ ys)

  unfoldable pub copy_slice :
      {A : Type 0} → Store C (List A) → (A → Run C A) → Pointer → Run C Pointer
  copy_slice s deep_copy_into = copy_pointer s (copy_elements deep_copy_into)

  -- A value without pointers: `*out = *in`, or `copy(*out, *in)` for a slice of them.
  abbrev pub assign : {A : Type 0} → A → Run C A
  assign a = pure a
