-- ===== src/Common/Errors.antt =====
-- Go errors as values: what `fmt.Errorf` builds, the text that `Error()` gives, and results.
use Prim.Native.String.{String, ◌++◌ as ◌<>◌}
use mathlib.Core.Path.{◌≡◌, refl}
use mathlib.Core.Logic.{◌⊎◌, inl, inr}
use mathlib.Core.Bool.{Bool, true, false}
use native.Mathlib.Omega.{arith}

-- What `apierrors.IsNotFound` reads of an API error: its reason.
pub data Reason : Type 0 where
  not_found : Reason
  other : Reason

-- `plain` is `fmt.Errorf` of a text, `wrapped t e` is `"t: %w"`, and `joined t e u f` is
-- `"t: %w, u: %w"`.
pub data Error : Type 0 where
  api : Reason → String → Error
  plain : String → Error
  wrapped : String → Error → Error
  joined : String → Error → String → Error → Error

-- `err.Error()`
unfoldable pub error_text : Error → String
error_text (api r t) = t
error_text (plain t) = t
error_text (wrapped t e) = t <> (": " <> error_text e)
error_text (joined t e u f) =
    t <> (": " <> (error_text e <> (", " <> (u <> (": " <> error_text f)))))

-- `apierrors.IsNotFound` on an error as the client returned it.
abbrev pub is_not_found : Error → Bool
is_not_found (api not_found t) = true
is_not_found (api other t) = false
is_not_found (plain t) = false
is_not_found (wrapped t e) = is_not_found e
is_not_found (joined t e u f) = is_not_found e

pub data Result {ℓ} (A : Type ℓ) : Type ℓ where
  ok : A → Result A
  err : Error → Result A

-- The usual Go step: return on an error, with the text put in front of it.
abbrev pub wrap {ℓ} : {A : Type ℓ} → String → Result A → Result A
wrap t (ok a) = ok a
wrap t (err e) = err (wrapped t e)

infixl 5 ◌>>=◌
abbrev pub ◌>>=◌ {ℓ κ} : {A : Type ℓ} {B : Type κ} → Result A → (A → Result B) → Result B
err failure >>= next = err failure
ok value >>= next = next value

-- What a chain that succeeded says of its first call and of the rest.
pub >>=-eq-ok {ℓ κ} :
    {A : Type ℓ} {B : Type κ} (first : Result A) (next : A → Result B) {result : B}
    → (first >>= next) ≡ ok result
    → (value : A) × (first ≡ ok value) × (next value ≡ ok result)
>>=-eq-ok (err failure) next h = ground arith
>>=-eq-ok (ok value) next h = (value, refl, h)

-- To split on a computed result and keep the equation.
pub Result-cases {ℓ} :
    {A : Type ℓ} (r : Result A) → ((a : A) × (r ≡ ok a)) ⊎ ((e : Error) × (r ≡ err e))
Result-cases (ok a) = inl (a, refl)
Result-cases (err e) = inr (e, refl)

pub wrap-eq-ok {ℓ} : {A : Type ℓ} (t : String) (r : Result A) {a : A} → wrap t r ≡ ok a → r ≡ ok a
wrap-eq-ok t (ok a) h = h
wrap-eq-ok t (err e) h = ground arith

pub ok-injective {ℓ} : {A : Type ℓ} {a b : A} → ok a ≡ ok b → a ≡ b
ok-injective h = ground arith
