-- ===== src/DeepCopy/Isolation.antt =====
-- What a deep copy is for: the original may change afterwards, and the copy reads as before.
use diki_operator.Common.{
  ℕ, zero, suc, ◌<◌, ◌≡◌, ◌≢◌, refl, ap, ◌∙◌, List, [], ◌∷◌, ◌++◌, some, arith, length, inl, inr,
  Option-cases,
}
use diki_operator.DeepCopy.Memory.{Run, get_elem?, Store, load}
use diki_operator.DeepCopy.Fresh.{Keeps, Reading, IsFresh, IsDeepCopy, get_elem?-append}

module _ {C : Type 0} where
  -- A cell gets a new content; an address that is not there changes nothing.
  unfoldable pub write : ℕ → C → List C → List C
  write p c [] = []
  write zero c (x ∷ m) = c ∷ m
  write (suc p) c (x ∷ m) = x ∷ write p c m

  -- How a memory may change without a write to an address from `n` on.
  pub data Changes (n : ℕ) (m : List C) : List C → Type 0 where
    unchanged : Changes n m m
    written : {k : List C} (p : ℕ) (c : C) → p < n → Changes n m k → Changes n m (write p c k)
    allocated : {k : List C} (c : C) → Changes n m k → Changes n m (k ++ (c ∷ []))

  pub get_elem?-write_other :
      (p : ℕ) (c : C) (m : List C) (q : ℕ) → q ≢ p → get_elem? (write p c m) q ≡ get_elem? m q
  unfolding write
  get_elem?-write_other p c [] q h = refl
  get_elem?-write_other zero c (x ∷ m) zero h = absurd (h refl)
  get_elem?-write_other zero c (x ∷ m) (suc q) h = refl
  get_elem?-write_other (suc p) c (x ∷ m) zero h = refl
  get_elem?-write_other (suc p) c (x ∷ m) (suc q) h =
      get_elem?-write_other p c m q (λ e. h (ap suc e))

  pub get_elem?-write :
      (p : ℕ) (c d : C) (m : List C) → get_elem? m p ≡ some d → get_elem? (write p c m) p ≡ some c
  unfolding write
  get_elem?-write p c d [] h = absurd (ground arith)
  get_elem?-write zero c d (x ∷ m) h = refl
  get_elem?-write (suc p) c d (x ∷ m) h = get_elem?-write p c d m h

  get_elem?-lt-length : (p : ℕ) (c : C) (m : List C) → get_elem? m p ≡ some c → p < length m
  get_elem?-lt-length p c [] h = absurd (ground arith)
  get_elem?-lt-length zero c (x ∷ m) h = omega arith
  get_elem?-lt-length (suc p) c (x ∷ m) h = omega (arith, get_elem?-lt-length p c m h)

  -- A cell that can be read as some type is there.
  pub load-cell :
      {A : Type 0} (s : Store C A) (p : ℕ) (a : A) (m : List C)
      → load s p m ≡ some a
      → (c : C) × (get_elem? m p ≡ some c)
  unfolding load
  load-cell s p a m h = elim (Option-cases (get_elem? m p)) [
    | inl e ↦ absurd (ground (arith, h))
    | inr e ↦ e
  ]

  pub load-lt-length :
      {A : Type 0} (s : Store C A) (p : ℕ) (a : A) (m : List C) → load s p m ≡ some a → p < length m
  load-lt-length s p a m h = let (c, e) = load-cell s p a m h in get_elem?-lt-length p c m e

  pub Changes-Keeps : {n : ℕ} {m k : List C} → Changes n m k → Keeps n m k
  Changes-Keeps unchanged p c l e = e
  Changes-Keeps (written {k} w d below ch) p c l e =
      get_elem?-write_other w d k p (λ same. omega arith) ∙ Changes-Keeps ch p c l e
  Changes-Keeps (allocated {k} d ch) p c l e =
      get_elem?-append k (d ∷ []) p c (Changes-Keeps ch p c l e)

  -- A copy returns, the original reads as before, and however the memory changes afterwards without
  -- a write to a cell that the copy made, the copy reads as the original did.
  pub record IsIsolated {A V : Type 0} (R : Reading C A V) (f : A → Run C A) (m : List C) (a : A)
      (v : V) : Type 0 where
    pub copy : A
    pub after : List C
    pub returns : f a m ≡ some (copy, after)
    pub original : R after a v
    pub isolated : (later : List C) → Changes (length m) after later → R later copy v

  pub copies-IsIsolated :
      {A V : Type 0} {R : Reading C A V} {f : A → Run C A}
      → IsDeepCopy R f
      → (m : List C) (a : A) (v : V) → R m a v
      → IsIsolated R f m a v
  copies-IsIsolated {R} {f} d m a v r = record {
    copy = made.value;
    after = made.after;
    returns = made.returns;
    original = d.stable m made.after a v made.kept r;
    isolated = λ later ch. made.holds later (Changes-Keeps ch);
  }
    where
      made : IsFresh m (f a) (λ later b. R later b v)
      made = d.copies m a v r
