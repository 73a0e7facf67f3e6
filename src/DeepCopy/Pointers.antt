-- ===== src/DeepCopy/Pointers.antt =====
-- The copies of pointers and slices are deep copies if those of what they point to are.
use diki_operator.Common.{◌≡◌, List, [], ◌∷◌, Option, none, some, arith}
use diki_operator.DeepCopy.Memory.{
  Pointer, Store, Run, pure, ◌>>=◌, load, copy_pointer, copy_elements, copy_slice, assign,
}
use diki_operator.DeepCopy.Fresh.{
  Keeps, Reading, IsFresh, pure-IsFresh, bind-IsFresh, new-IsFresh, read-IsFresh, load-Keeps,
  IsDeepCopy,
}

module _ {C : Type 0} where
  -- A value without pointers reads as itself.
  abbrev pub Itself : {A : Type 0} → Reading C A A
  Itself m a v = a ≡ v

  module _ {A W : Type 0} where
    -- What an address leads to, where a nil pointer reads as `nil`.
    abbrev pub Through : Store C A → Reading C A W → W → Reading C Pointer W
    Through s R nil m none w = w ≡ nil
    Through s R nil m (some p) w = (a : A) × (load s p m ≡ some a) × R m a w

  module _ {A V : Type 0} where
    abbrev pub Just : Reading C A V → Reading C A (Option V)
    Just R m a none = ⊥
    Just R m a (some v) = R m a v

    abbrev pub Each : Reading C A V → Reading C (List A) (List V)
    Each R m [] [] = Unit
    Each R m [] (v ∷ vs) = ⊥
    Each R m (x ∷ xs) [] = ⊥
    Each R m (x ∷ xs) (v ∷ vs) = R m x v × Each R m xs vs

    abbrev pub PointsTo : Store C A → Reading C A V → Reading C Pointer (Option V)
    PointsTo s R = Through s (Just R) none

    -- A nil slice reads as the empty list, as does an empty one.
    abbrev pub Elements : Store C (List A) → Reading C A V → Reading C Pointer (List V)
    Elements s R = Through s (Each R) []

  pub assign-IsDeepCopy : {A : Type 0} → IsDeepCopy {A = A} Itself assign
  assign-IsDeepCopy = record {
    stable = λ m later a v keeps e. e;
    copies = λ m a v e. pure-IsFresh a (λ later. e);
  }

  module _ {A W : Type 0} {R : Reading C A W} {f : A → Run C A} (s : Store C A) (nil : W) where
    Through-stable :
        IsDeepCopy R f
        → (m later : List C) (a : Pointer) (w : W) → Keeps 0 m later
        → Through s R nil m a w
        → Through s R nil later a w
    Through-stable d m later none w k r = r
    Through-stable d m later (some p) w k (a, l, r) =
        (a, load-Keeps s p a 0 m later (omega arith) k l, d.stable m later a w k r)

    copy_pointer-copies :
        IsDeepCopy R f
        → (m : List C) (a : Pointer) (w : W) → Through s R nil m a w
        → IsFresh m (copy_pointer s f a) (λ later b. Through s R nil later b w)
    unfolding copy_pointer
    copy_pointer-copies d m none w r = pure-IsFresh none (λ later. r)
    copy_pointer-copies d m (some p) w (a, l, r) = read-IsFresh s p _ a l (
        bind-IsFresh (d.copies m a w r) (λ out next k.
          bind-IsFresh (new-IsFresh s out)
            (λ q end k'. pure-IsFresh (some q) (λ later loads reads. (out, loads, reads)))))

    pub through-IsDeepCopy : IsDeepCopy R f → IsDeepCopy (Through s R nil) (copy_pointer s f)
    through-IsDeepCopy d = record { stable = Through-stable d; copies = copy_pointer-copies d }

  module _ {A V : Type 0} {R : Reading C A V} {f : A → Run C A} (d : IsDeepCopy R f) where
    Just-stable :
        (m later : List C) (a : A) (w : Option V)
        → Keeps 0 m later
        → Just R m a w
        → Just R later a w
    Just-stable m later a none k r = r
    Just-stable m later a (some v) k r = d.stable m later a v k r

    Just-copies :
        (m : List C) (a : A) (w : Option V)
        → Just R m a w
        → IsFresh m (f a) (λ later b. Just R later b w)
    Just-copies m a none r = absurd r
    Just-copies m a (some v) r = d.copies m a v r

    Each-stable :
        (m later : List C) (xs : List A) (vs : List V)
        → Keeps 0 m later
        → Each R m xs vs
        → Each R later xs vs
    Each-stable m later [] [] k r = r
    Each-stable m later [] (v ∷ vs) k r = r
    Each-stable m later (x ∷ xs) [] k r = r
    Each-stable m later (x ∷ xs) (v ∷ vs) k (r, rs) =
        (d.stable m later x v k r, Each-stable m later xs vs k rs)

    Each-copies :
        (m : List C) (xs : List A) (vs : List V)
        → Each R m xs vs
        → IsFresh m (copy_elements f xs) (λ later ys. Each R later ys vs)
    unfolding copy_elements
    Each-copies m [] [] r = pure-IsFresh [] (λ later. tt)
    Each-copies m [] (v ∷ vs) r = absurd r
    Each-copies m (x ∷ xs) [] r = absurd r
    Each-copies m (x ∷ xs) (v ∷ vs) (r, rs) = bind-IsFresh (d.copies m x v r) (λ y next k.
        bind-IsFresh (Each-copies next xs vs (Each-stable m next xs vs k rs))
          (λ ys end k'. pure-IsFresh (y ∷ ys) (λ later es e. (e, es))))

    pub copy_pointer-IsDeepCopy : (s : Store C A) → IsDeepCopy (PointsTo s R) (copy_pointer s f)
    copy_pointer-IsDeepCopy s =
        through-IsDeepCopy s none (record { stable = Just-stable; copies = Just-copies })

    pub copy_slice-IsDeepCopy : (s : Store C (List A)) → IsDeepCopy (Elements s R) (copy_slice s f)
    unfolding copy_slice
    copy_slice-IsDeepCopy s =
        through-IsDeepCopy s [] (record { stable = Each-stable; copies = Each-copies })

-- A struct whose copy copies one, two or three of its fields.
module _ {C A V : Type 0} {R : Reading C A V} {f : A → Run C A} (d : IsDeepCopy R f) where
  pub one :
      {B : Type 0} {m : List C} {a : A} {v : V} (build : A → B) {Q : List C → B → Type 0}
      → R m a v
      → ((later : List C) (b : A) → R later b v → Q later (build b))
      → IsFresh m (f a >>= λ b. pure (build b)) Q
  one {m} {a} {v} build r h =
      bind-IsFresh (d.copies m a v r) (λ b next k. pure-IsFresh (build b) (λ later. h later b))

module _ {C A V A' V' : Type 0} {R : Reading C A V} {f : A → Run C A} (d : IsDeepCopy R f)
    {R' : Reading C A' V'} {f' : A' → Run C A'} (d' : IsDeepCopy R' f') where
  pub two :
      {B : Type 0} {m : List C} {a : A} {v : V} {a' : A'} {v' : V'} (build : A → A' → B)
      {Q : List C → B → Type 0}
      → R m a v
      → R' m a' v'
      → ((later : List C) (b : A) (b' : A') → R later b v → R' later b' v' → Q later (build b b'))
      → IsFresh m (f a >>= λ b. f' a' >>= λ b'. pure (build b b')) Q
  two {m} {a} {v} {a'} {v'} build r r' h = bind-IsFresh (d.copies m a v r) (λ b next k.
      one d' (build b) (d'.stable m next a' v' k r') (λ later b' e' e. h later b b' e e'))

module _ {C A V A' V' A'' V'' : Type 0} {R : Reading C A V} {f : A → Run C A} (d : IsDeepCopy R f)
    {R' : Reading C A' V'} {f' : A' → Run C A'} (d' : IsDeepCopy R' f') {R'' : Reading C A'' V''}
    {f'' : A'' → Run C A''} (d'' : IsDeepCopy R'' f'') where
  pub three :
      {B : Type 0} {m : List C} {a : A} {v : V} {a' : A'} {v' : V'} {a'' : A''} {v'' : V''}
      (build : A → A' → A'' → B) {Q : List C → B → Type 0}
      → R m a v
      → R' m a' v'
      → R'' m a'' v''
      → ((later : List C) (b : A) (b' : A') (b'' : A'')
          → R later b v
          → R' later b' v'
          → R'' later b'' v''
          → Q later (build b b' b''))
      → IsFresh m (f a >>= λ b. f' a' >>= λ b'. f'' a'' >>= λ b''. pure (build b b' b'')) Q
  three {m} {a} {v} {a'} {v'} {a''} {v''} build r r' r'' h =
      bind-IsFresh (d.copies m a v r) (λ b next k.
        two d' d'' (build b) (d'.stable m next a' v' k r') (d''.stable m next a'' v'' k r'')
          (λ later b' b'' e' e'' e. h later b b' b'' e e' e''))
