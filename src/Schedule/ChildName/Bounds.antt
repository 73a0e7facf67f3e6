-- ===== src/Schedule/ChildName/Bounds.antt =====
-- The names of child scans: always given, within a DNS label, distinct in time, but not for
-- parents that share a prefix.
use text.Mathlib.TextLemmas.{append_inj, append_cancel_left, cons-append}
use text.Mathlib.TextLemmas as TextLemmas
use mathlib.Core.Option.{some-injective}
use diki_operator.Common.{ℕ, suc, ◌+◌, ◌-◌, ◌^◌, ◌≤◌, ◌<◌, String, ◌<>◌, ◌≡◌, sym, ◌∙◌, ap}
use diki_operator.Common.{some, ltb, if◌then◌else◌, arith, Bool-cases}
use diki_operator.Common.{inl, inr}
use diki_operator.Common.Decimal.{
  count, format_nat, take_text, count-take_text, count-format_nat, format_nat-injective,
  format_nat-count,
}
use diki_operator.Api.Meta.{Time}
use diki_operator.Schedule.ChildName.{
  dns1035_label_max_length, unix_epoch, seconds, format_unix, suffix, child_scan_name,
}

count-dash : (s : String) → count ("-" <> s) ≡ suc (count s)
count-dash s = omega (arith, TextLemmas.length-append "-" s)

count-suffix : (t : Time) → seconds t < 10 ^ 19 → count (suffix t) ≤ 21
unfolding suffix format_unix
count-suffix t h = elim (Bool-cases (ltb (seconds t) unix_epoch)) [
  | inl before ↦ rw before (
      omega (
        arith,
        count-dash ("-" <> format_nat (unix_epoch - seconds t)),
        count-dash (format_nat (unix_epoch - seconds t)),
        count-format_nat 18 (unix_epoch - seconds t) (omega arith),
      ))
  | inr after ↦ rw after (
      omega (
        arith,
        count-dash (format_nat (seconds t - unix_epoch)),
        count-format_nat 18 (seconds t - unix_epoch) (omega arith),
      ))
]

-- The part of a name that comes from the parent.
abbrev pub parent_part : ℕ → String → String
parent_part room parent = if ltb room (count parent) then take_text room parent else parent

count-parent_part : (room : ℕ) (parent : String) → count (parent_part room parent) ≤ room
count-parent_part room parent = ground (arith, count-take_text room parent)

child_scan_name_fits :
    (parent : String) (t : Time)
    → count (suffix t) ≤ dns1035_label_max_length
    → child_scan_name parent t
      ≡ some (parent_part (dns1035_label_max_length - count (suffix t)) parent <> suffix t)
unfolding child_scan_name
child_scan_name_fits parent t h = ground arith

-- For every parent and every time whose seconds have at most 19 digits, the function does not panic
-- and the name has at most the 63 characters of a DNS label.
pub child_scan_name_total :
    (parent : String) (t : Time)
    → seconds t < 10 ^ 19
    → (name : String) × (child_scan_name parent t ≡ some name)
      × (count name ≤ dns1035_label_max_length)
child_scan_name_total parent t h =
    let room : ℕ = dns1035_label_max_length - count (suffix t) in
    let short : count (suffix t) ≤ 21 = count-suffix t h in
    (
      parent_part room parent <> suffix t,
      child_scan_name_fits parent t (omega arith),
      omega (
        arith,
        TextLemmas.length-append (parent_part room parent) (suffix t),
        count-parent_part room parent,
      ),
    )

-- From 2001 on, and until 2286, a Unix time has ten digits.
abbrev pub TenDigits : Time → Type 0
TenDigits t = (unix_epoch + 10 ^ 9 ≤ seconds t) × (seconds t < unix_epoch + 10 ^ 10)

format_unix_after :
    (t : Time) → unix_epoch ≤ seconds t → format_unix t ≡ format_nat (seconds t - unix_epoch)
unfolding format_unix
format_unix_after t h = ground arith

suffix_ten : (t : Time) → TenDigits t → count (suffix t) ≡ 11
unfolding suffix
suffix_ten t (low, high) = omega (
  arith,
  ap (λ (s : String). count s) (format_unix_after t (omega arith)),
  count-dash (format_unix t),
  count-format_nat 9 (seconds t - unix_epoch) (omega arith),
  format_nat-count 9 (seconds t - unix_epoch) (omega arith),
)

suffix-injective :
    (t u : Time) → TenDigits t → TenDigits u → suffix t ≡ suffix u → seconds t ≡ seconds u
unfolding suffix
suffix-injective t u ht hu e =
    let same = append_cancel_left "-" (format_unix t) (format_unix u) e in
    omega (
      arith,
      format_nat-injective (seconds t - unix_epoch) (seconds u - unix_epoch)
          (sym (format_unix_after t (omega arith)) ∙ same ∙ format_unix_after u (omega arith)),
    )

child_scan_name_ten :
    (parent : String) (t : Time)
    → TenDigits t
    → child_scan_name parent t ≡ some (parent_part 52 parent <> suffix t)
child_scan_name_ten parent t h =
    let room : dns1035_label_max_length - count (suffix t) ≡ 52 = omega (arith, suffix_ten t h) in
    child_scan_name_fits parent t (omega (arith, suffix_ten t h))
    ∙ ap (λ (n : ℕ). some (parent_part n parent <> suffix t)) room

-- Between 2001 and 2286 two names of one parent are equal only if their times lie in one second.
pub child_scan_name-injective :
    (parent : String) (t u : Time)
    → TenDigits t
    → TenDigits u
    → child_scan_name parent t ≡ child_scan_name parent u
    → seconds t ≡ seconds u
child_scan_name-injective parent t u ht hu e =
    let same =
      some-injective _ _
        (sym (child_scan_name_ten parent t ht) ∙ e ∙ child_scan_name_ten parent u hu) in
    suffix-injective t u ht hu
      (append_cancel_left (parent_part 52 parent) (suffix t) (suffix u) same)

-- At a time between 2001 and 2286, two parents that agree in their first 52 characters and are
-- longer than that give their children one and the same name.
pub child_scan_name_collision :
    (p q : String) (t : Time)
    → TenDigits t
    → 52 < count p
    → 52 < count q
    → take_text 52 p ≡ take_text 52 q
    → child_scan_name p t ≡ child_scan_name q t
child_scan_name_collision p q t ht hp hq e =
    child_scan_name_ten p t ht
    ∙ ap (λ (s : String). some (s <> suffix t)) (ground (arith, e))
    ∙ sym (child_scan_name_ten q t ht)
