-- ===== src/Common/Decimal.antt =====
-- Decimal text: `strconv.FormatInt` with base 10, and texts by their characters. The program's
-- names are ASCII, so that a character is a byte.
use Prim.Native.Nat.{ℕ, zero, suc, ◌+◌, ◌*◌, ◌/◌, ◌%◌, ◌^◌, ◌≤◌, ◌<◌}
use Prim.Native.Char.{Char, code}
use Prim.Native.String.{String}
pub use Prim.Native.String.{count}
use mathlib.Core.Path.{◌≡◌, refl, sym, ◌∙◌, ap}
use mathlib.Core.List.{List, [], ◌∷◌, ◌++◌}
use native.Mathlib.Omega.{arith}
use diki_operator.Common.Tests.{ltb, ltb→lt, nat_eq, if◌then◌else◌, Bool-cases}
use diki_operator.Common.Lists.{length, length-append, All}
use mathlib.Core.Logic.{inl, inr}
use native.Mathlib.Nat.{pow-suc}
use text.Mathlib.TextLemmas.{
  length-cons, nil≢cons, cons≢nil, head-eq_of_cons-eq, tail-eq_of_cons-eq,
}

-- The digits of a number, the most significant first, with fuel above the number.
unfoldable pub digits : ℕ → ℕ → List ℕ
digits zero n = []
digits (suc fuel) n =
    let more = digits fuel (n / 10) ++ ((n % 10) ∷ []) in if ltb n 10 then n ∷ [] else more

abbrev pub digit_char : ℕ → Char
digit_char d =
    if nat_eq d 0
    then "0"
    else if nat_eq d 1
    then "1"
    else if nat_eq d 2
    then "2"
    else if nat_eq d 3
    then "3"
    else if nat_eq d 4
    then "4"
    else if nat_eq d 5
    then "5"
    else if nat_eq d 6
    then "6"
    else if nat_eq d 7
    then "7"
    else if nat_eq d 8
    then "8"
    else "9"

unfoldable pub digits_text : List ℕ → String
digits_text [] = ""
digits_text (d ∷ ds) = String.◌∷◌ (digit_char d) (digits_text ds)

unfoldable pub format_nat : ℕ → String
unfolding digits digits_text
format_nat n = digits_text (digits (suc n) n)

-- The first characters of a text, `s[:n]`.
unfoldable pub take_text : ℕ → String → String
take_text zero s = ""
take_text (suc n) String.[] = ""
take_text (suc n) (String.◌∷◌ c s) = String.◌∷◌ c (take_text n s)

pub count-take_text : (n : ℕ) (s : String) → n ≤ count s → count (take_text n s) ≡ n
unfolding take_text
count-take_text zero s h = refl
count-take_text (suc n) String.[] h = absurd (omega arith)
count-take_text (suc n) (String.◌∷◌ c s) h = omega (
  arith,
  length-cons c (take_text n s),
  length-cons c s,
  count-take_text n s (omega (arith, length-cons c s)),
)

count-digits_text : (ds : List ℕ) → count (digits_text ds) ≡ length ds
unfolding digits_text
count-digits_text [] = refl
count-digits_text (d ∷ ds) =
    omega (arith, length-cons (digit_char d) (digits_text ds), count-digits_text ds)

pow-pos : (k : ℕ) → 1 ≤ 10 ^ k
pow-pos zero = omega arith
pow-pos (suc k) = omega (arith, pow-suc 10 k, pow-pos k)

-- A number below 10^(k+1) has at most k + 1 digits.
length-digits : (k fuel n : ℕ) → n < 10 ^ suc k → length (digits fuel n) ≤ suc k
unfolding digits
length-digits k zero n h = omega arith
length-digits zero (suc fuel) n h = let small : n < 10 = omega (arith, pow-suc 10 0) in ground arith
length-digits (suc k) (suc fuel) n h = elim (Bool-cases (ltb n 10)) [
  | inl one_digit ↦ rw one_digit (omega arith)
  | inr more ↦ rw more (
      omega (
        arith,
        length-append (digits fuel (n / 10)) ((n % 10) ∷ []),
        length-digits k fuel (n / 10) (omega (arith, pow-suc 10 (suc k))),
      ))
]

pub count-format_nat : (k n : ℕ) → n < 10 ^ suc k → count (format_nat n) ≤ suc k
unfolding format_nat
count-format_nat k n h =
    omega (arith, count-digits_text (digits (suc n) n), length-digits k (suc n) n h)

-- A number from 10^k on has more than k digits.
digits-length : (k fuel n : ℕ) → n < fuel → 10 ^ k ≤ n → suc k ≤ length (digits fuel n)
unfolding digits
digits-length k zero n h big = absurd (omega arith)
digits-length zero (suc fuel) n h big = elim (Bool-cases (ltb n 10)) [
  | inl one_digit ↦ rw one_digit (omega arith)
  | inr more ↦ rw more (omega (arith, length-append (digits fuel (n / 10)) ((n % 10) ∷ [])))
]
digits-length (suc k) (suc fuel) n h big = elim (Bool-cases (ltb n 10)) [
  | inl one_digit ↦ absurd (omega (arith, ltb→lt n 10 one_digit, pow-suc 10 k, pow-pos k))
  | inr more ↦ rw more (
      omega (
        arith,
        length-append (digits fuel (n / 10)) ((n % 10) ∷ []),
        digits-length k fuel (n / 10) (omega (arith, pow-suc 10 k, pow-pos k))
            (omega (arith, pow-suc 10 k)),
      ))
]

pub format_nat-count : (k n : ℕ) → 10 ^ k ≤ n → suc k ≤ count (format_nat n)
unfolding format_nat
format_nat-count k n h =
    omega (arith, count-digits_text (digits (suc n) n), digits-length k (suc n) n (omega arith) h)

-- The number that digits stand for.
value : ℕ → List ℕ → ℕ
value acc [] = acc
value acc (d ∷ ds) = value (acc * 10 + d) ds

value-append : (acc : ℕ) (ds : List ℕ) (d : ℕ) → value acc (ds ++ (d ∷ [])) ≡ value acc ds * 10 + d
unfolding value
value-append acc [] d = refl
value-append acc (e ∷ ds) d = value-append (acc * 10 + e) ds d

value-digits : (fuel n : ℕ) → n < fuel → value 0 (digits fuel n) ≡ n
unfolding digits value
value-digits zero n h = absurd (omega arith)
value-digits (suc fuel) n h = elim (Bool-cases (ltb n 10)) [
  | inl one_digit ↦ rw one_digit (omega arith)
  | inr more ↦
      let big : 10 ≤ n = ground arith in
      rw more (
        value-append 0 (digits fuel (n / 10)) (n % 10)
        ∙ omega (arith, value-digits fuel (n / 10) (omega arith)))
]

-- Digits are below ten.
abbrev AreDigits : List ℕ → Type 0
AreDigits = All (λ d. d < 10)

AreDigits-append : (ds : List ℕ) (d : ℕ) → AreDigits ds → d < 10 → AreDigits (ds ++ (d ∷ []))
AreDigits-append [] d h k = (k, tt)
AreDigits-append (e ∷ ds) d h k = (h.0, AreDigits-append ds d h.1 k)

digits-AreDigits : (fuel n : ℕ) → AreDigits (digits fuel n)
unfolding digits
digits-AreDigits zero n = tt
digits-AreDigits (suc fuel) n = elim (Bool-cases (ltb n 10)) [
  | inl one_digit ↦ rw one_digit ((ground arith, tt))
  | inr more ↦ rw more (
      AreDigits-append (digits fuel (n / 10)) (n % 10) (digits-AreDigits fuel (n / 10))
        (omega arith))
]

code-digit_char : (d : ℕ) → d < 10 → code (digit_char d) ≡ 48 + d
code-digit_char zero h = refl
code-digit_char (suc zero) h = refl
code-digit_char (suc (suc zero)) h = refl
code-digit_char (suc (suc (suc zero))) h = refl
code-digit_char (suc (suc (suc (suc zero)))) h = refl
code-digit_char (suc (suc (suc (suc (suc zero))))) h = refl
code-digit_char (suc (suc (suc (suc (suc (suc zero)))))) h = refl
code-digit_char (suc (suc (suc (suc (suc (suc (suc zero))))))) h = refl
code-digit_char (suc (suc (suc (suc (suc (suc (suc (suc zero)))))))) h = refl
code-digit_char (suc (suc (suc (suc (suc (suc (suc (suc (suc zero))))))))) h = refl
code-digit_char (suc (suc (suc (suc (suc (suc (suc (suc (suc (suc d)))))))))) h =
    absurd (omega arith)

digits_text-injective :
    (ds es : List ℕ) → AreDigits ds → AreDigits es → digits_text ds ≡ digits_text es → ds ≡ es
unfolding digits_text
digits_text-injective [] [] h k e = refl
digits_text-injective [] (y ∷ es) h k e = absurd (nil≢cons e)
digits_text-injective (x ∷ ds) [] h k e = absurd (cons≢nil e)
digits_text-injective (x ∷ ds) (y ∷ es) h k e =
    let same : x ≡ y =
      omega (arith, ap code (head-eq_of_cons-eq e), code-digit_char x h.0, code-digit_char y k.0) in
    cc (same, digits_text-injective ds es h.1 k.1 (tail-eq_of_cons-eq e))

-- Two numbers have one text only if they are equal.
pub format_nat-injective : (m n : ℕ) → format_nat m ≡ format_nat n → m ≡ n
unfolding format_nat
format_nat-injective m n e =
    let same =
      digits_text-injective (digits (suc m) m) (digits (suc n) n) (digits-AreDigits (suc m) m)
        (digits-AreDigits (suc n) n) e in
    sym (value-digits (suc m) m (omega arith))
    ∙ ap (λ (ds : List ℕ). value 0 ds) same
    ∙ value-digits (suc n) n (omega arith)
