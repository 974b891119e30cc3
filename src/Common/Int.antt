-- ===== src/Common/Int.antt =====
-- Go's `int`, 64 bits wide: the integers that a request may carry before its guards bound them.
use Prim.Native.Nat.{ℕ, ◌-◌, ◌%◌}
use mathlib.Core.Bool.{Bool, true, false}
use rallya.Common.Tests.{ltb, if◌then◌else◌}

-- `negsuc n` is -(n + 1).
pub data ℤ : Type 0 where
  pos : ℕ → ℤ
  negsuc : ℕ → ℤ

abbrev pub pos_part : ℤ → ℕ
pos_part (pos n) = n
pos_part (negsuc n) = 0

-- `x < 0`
abbrev pub is_negative : ℤ → Bool
is_negative (pos n) = false
is_negative (negsuc n) = true

-- `x > 0`
abbrev pub is_positive : ℤ → Bool
is_positive (pos n) = ltb 0 n
is_positive (negsuc n) = false

-- `x > b` for a bound that is not negative
abbrev pub gt_bound : ℤ → ℕ → Bool
gt_bound (pos n) b = ltb b n
gt_bound (negsuc n) b = false

-- `x < b` for a bound that is not negative
abbrev pub lt_bound : ℤ → ℕ → Bool
lt_bound (pos n) b = ltb n b
lt_bound (negsuc n) b = true

abbrev pub int64_mod : ℕ
int64_mod = 18446744073709551616

-- The integer that a 64-bit sum of non-negative terms stands for, after wrap-around.
abbrev pub int64 : ℕ → ℤ
int64 n =
    let r = n % int64_mod in if ltb r 9223372036854775808 then pos r else negsuc (int64_mod - r - 1)
