-- ===== src/Prelude/Int.antt =====
-- Go's int64 over the native numbers: an offset or a size is an integer, and a conversion from a
-- 64-bit word keeps the bit pattern.
use Prim.Native.Nat.{ℕ, ◌+◌, ◌-◌, ◌/◌, ◌%◌, ◌^◌, ◌<◌, ◌≤◌}
use mathlib.Core.Bool.{Bool}
use mathlib.Core.Path.{◌≡◌}
use native.Mathlib.Omega.{arith}
use udf.Prelude.Tests.{ltb, if◌then◌else◌}

-- `negsuc n` is -(n + 1).
pub data ℤ : Type 0 where
  pos : ℕ → ℤ
  negsuc : ℕ → ℤ

-- `int64(x)` of a sum or product of non-negative words, which wraps at 2 ^ 64.
unfoldable pub int64 : ℕ → ℤ
int64 x = let m = x % 2 ^ 64 in if ltb m (2 ^ 63) then pos m else negsuc (2 ^ 64 - m - 1)

pub int64_of_lt : (x : ℕ) → x < 2 ^ 63 → int64 x ≡ pos x
unfolding int64
int64_of_lt x h = ground arith

-- `a < b` and `a - b` of two int64 values, given by their bit patterns below 2 ^ 64.
unfoldable pub lt_int64 : ℕ → ℕ → Bool
lt_int64 a b = ltb ((a + 2 ^ 63) % 2 ^ 64) ((b + 2 ^ 63) % 2 ^ 64)

unfoldable pub sub_int64 : ℕ → ℕ → ℕ
sub_int64 a b = (a + 2 ^ 64 - b) % 2 ^ 64

unfoldable pub add_int64 : ℕ → ℕ → ℕ
add_int64 a b = (a + b) % 2 ^ 64

pub lt_int64_small : (a b : ℕ) → a < 2 ^ 63 → b < 2 ^ 63 → lt_int64 a b ≡ ltb a b
unfolding lt_int64
lt_int64_small a b h k = ground arith

pub sub_int64_small : (a b : ℕ) → b ≤ a → a < 2 ^ 63 → sub_int64 a b ≡ a - b
unfolding sub_int64
sub_int64_small a b h k = omega arith

pub add_int64_small : (a b : ℕ) → a + b < 2 ^ 63 → add_int64 a b ≡ a + b
unfolding add_int64
add_int64_small a b h = omega arith

-- `a / b` of int64 values with a positive `b`, which truncates towards zero.
unfoldable pub quot_int64 : ℕ → ℕ → ℕ
quot_int64 a b = if ltb a (2 ^ 63) then a / b else (2 ^ 64 - (2 ^ 64 - a) / b) % 2 ^ 64

pub quot_int64_small : (a b : ℕ) → a < 2 ^ 63 → quot_int64 a b ≡ a / b
unfolding quot_int64
quot_int64_small a b h = ground arith
