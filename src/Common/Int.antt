-- ===== src/Common/Int.antt =====
-- Signed integers over the native numbers, and Go's int32 as it counts.
use Prim.Native.Nat.{ℕ, zero, suc, ◌+◌, ◌-◌, ◌%◌, ◌^◌, ◌<◌}
use mathlib.Core.Path.{◌≡◌}
use mathlib.Core.Bool.{Bool, true, false}
use native.Mathlib.Omega.{arith}
use diki_operator.Common.Tests.{ltb, if◌then◌else◌}

-- `negsuc n` is -(n + 1).
pub data ℤ : Type 0 where
  pos : ℕ → ℤ
  negsuc : ℕ → ℤ

-- The integer that a 32-bit pattern stands for in two's complement.
unfoldable pub int32_of : ℕ → ℤ
int32_of p = if ltb p (2 ^ 31) then pos p else negsuc (2 ^ 32 - 1 - p)

-- `num++` on the bit pattern of an int32.
unfoldable pub increment32 : ℕ → ℕ
increment32 p = (p + 1) % 2 ^ 32

-- Below 2^31 a pattern is its own value.
pub int32_of_small : (p : ℕ) → p < 2 ^ 31 → int32_of p ≡ pos p
unfolding int32_of
int32_of_small p h = ground arith

abbrev pub is_zero : ℤ → Bool
is_zero (pos n) = elim n [ zero ↦ true | suc m ↦ false ]
is_zero (negsuc n) = false

abbrev pub is_negative : ℤ → Bool
is_negative (pos n) = false
is_negative (negsuc n) = true
