-- ===== src/DeepCopy/Fresh.antt =====
-- What a deep copy promises: the copy reads as the original did, and nothing it needs stands in a
-- cell that was there before.
use native.Mathlib.Nat.{le_trans}
use diki_operator.Common.{
  ℕ, zero, suc, ◌≤◌, ◌≡◌, refl, inl, inr, Option-cases, List, [], ◌∷◌, ◌++◌, some, arith, length,
  length-append,
}
use diki_operator.DeepCopy.Memory.{get_elem?, Store, Run, pure, ◌>>=◌, load, read, new}

-- Every cell from the address `n` on is in the later memory as it was.
abbrev pub Keeps : {C : Type 0} → ℕ → List C → List C → Type 0
Keeps {C} n m later = (p : ℕ) (c : C) → n ≤ p → get_elem? m p ≡ some c → get_elem? later p ≡ some c

-- Which value a stored one reads as in a memory.
abbrev pub Reading : Type 0 → Type 0 → Type 0 → Type 1
Reading C A V = List C → A → V → Type 0

module _ {C : Type 0} where
  pub get_elem?-append :
      (m t : List C) (p : ℕ) (c : C) → get_elem? m p ≡ some c → get_elem? (m ++ t) p ≡ some c
  get_elem?-append [] t p c h = absurd (ground arith)
  get_elem?-append (x ∷ m) t zero c h = h
  get_elem?-append (x ∷ m) t (suc p) c h = get_elem?-append m t p c h

  get_elem?-length : (m : List C) (c : C) → get_elem? (m ++ (c ∷ [])) (length m) ≡ some c
  get_elem?-length [] c = refl
  get_elem?-length (x ∷ m) c = get_elem?-length m c

  -- A run gives a value and a larger memory, and the value has the property `P` in each memory
  -- that keeps the new cells.
  pub record IsFresh {A : Type 0} (m : List C) (r : Run C A) (P : List C → A → Type 0)
      : Type 0 where
    pub value : A
    pub after : List C
    pub returns : r m ≡ some (value, after)
    pub kept : Keeps 0 m after
    pub grows : length m ≤ length after
    pub holds : (later : List C) → Keeps (length m) after later → P later value

  pub pure-IsFresh :
      {A : Type 0} {m : List C} {P : List C → A → Type 0} (a : A)
      → ((later : List C) → P later a)
      → IsFresh m (pure a) P
  pure-IsFresh {m} a h = record {
    value = a;
    after = m;
    returns = refl;
    kept = λ p c l e. e;
    grows = omega arith;
    holds = λ later k. h later;
  }

  pub bind-IsFresh :
      {A B : Type 0} {m : List C} {r : Run C A} {k : A → Run C B} {P : List C → A → Type 0}
      {Q : List C → B → Type 0}
      → IsFresh m r P
      → ((a : A) (next : List C)
          → Keeps 0 m next
          → IsFresh next (k a) (λ later b. P later a → Q later b))
      → IsFresh m (r >>= k) Q
  unfolding ◌>>=◌
  bind-IsFresh {m} {k} {P} {Q} first rest = record {
    value = then.value;
    after = then.after;
    returns = rw first.returns then.returns;
    kept = λ p c l e. then.kept p c l (first.kept p c l e);
    grows = le_trans first.grows then.grows;
    holds = λ later keeps.
        then.holds later (λ p c l e. keeps p c (le_trans first.grows l) e)
          (first.holds later (λ p c l e. keeps p c l (then.kept p c (omega arith) e)));
  }
    where
      then : IsFresh first.after (k first.value) (λ later b. P later first.value → Q later b)
      then = rest first.value first.after first.kept

  pub new-IsFresh :
      {A : Type 0} {m : List C} (s : Store C A) (a : A)
      → IsFresh m (new s a) (λ later q. load s q later ≡ some a)
  unfolding new load
  new-IsFresh {m} s a = record {
    value = length m;
    after = m ++ (s.put a ∷ []);
    returns = refl;
    kept = λ p c l e. get_elem?-append m (s.put a ∷ []) p c e;
    grows = omega (arith, length-append m (s.put a ∷ []));
    holds = λ later keeps.
        rw (load, keeps (length m) (s.put a) (omega arith) (get_elem?-length m (s.put a)))
          (s.get-put a);
  }

  pub load-Keeps :
      {A : Type 0} (s : Store C A) (p : ℕ) (a : A) (n : ℕ) (m later : List C)
      → n ≤ p
      → Keeps n m later
      → load s p m ≡ some a
      → load s p later ≡ some a
  unfolding load
  load-Keeps s p a n m later l keeps h = elim (Option-cases (get_elem? m p)) [
    | inl e ↦ absurd (ground (arith, h))
    | inr e ↦ rw (load, keeps p e.0 l e.1) (ground (arith, h, e.1))
  ]

  pub read-IsFresh :
      {A B : Type 0} {m : List C} (s : Store C A) (p : ℕ) (k : A → Run C B)
      {Q : List C → B → Type 0} (a : A)
      → load s p m ≡ some a
      → IsFresh m (k a) Q
      → IsFresh m (read s p >>= k) Q
  unfolding ◌>>=◌ read
  read-IsFresh s p k a h then = record {
    value = then.value;
    after = then.after;
    returns = rw h then.returns;
    kept = then.kept;
    grows = then.grows;
    holds = then.holds;
  }

  -- A copy, for a reading of the values that is stable as the memory grows.
  pub record IsDeepCopy {A V : Type 0} (R : Reading C A V) (f : A → Run C A) : Type 0 where
    pub stable : (m later : List C) (a : A) (v : V) → Keeps 0 m later → R m a v → R later a v
    pub copies : (m : List C) (a : A) (v : V) → R m a v → IsFresh m (f a) (λ later b. R later b v)
