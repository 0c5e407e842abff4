-- ===== src/Base/Words.antt =====
-- Go's int32 and int64, as integers: an operation wraps its exact result into the range.
use Prim.Native.Nat.{ℕ, ◌+◌, ◌-◌, ◌*◌, ◌/◌, ◌%◌, ◌≤◌, ◌<◌}
use mathlib.Core.Path.{◌≡◌}
use native.Mathlib.Nat.{div-le_self}
use native.Mathlib.Omega.{arith}
use kumquat.Base.Tests.{ltb, if◌then◌else◌}
use kumquat.Base.Int.{ℤ, pos, negsuc, pos_part, neg_part, ◌+ℤ◌, ◌-ℤ◌, ◌*ℤ◌, ◌/ℤ◌}

-- The signed reading of a bit pattern.
abbrev signed32 : ℕ → ℤ
signed32 r = if ltb r 2147483648 then pos r else negsuc (4294967295 - r)

abbrev signed64 : ℕ → ℤ
signed64 r = if ltb r 9223372036854775808 then pos r else negsuc (18446744073709551615 - r)

unfoldable pub to_int32 : ℤ → ℤ
to_int32 (pos n) = signed32 (n % 4294967296)
to_int32 (negsuc n) = signed32 (4294967295 - n % 4294967296)

pub to_int64 : ℤ → ℤ
to_int64 (pos n) = signed64 (n % 18446744073709551616)
to_int64 (negsuc n) = signed64 (18446744073709551615 - n % 18446744073709551616)

abbrev pub IsInt32 : ℤ → Type 0
IsInt32 z = (pos_part z < 2147483648) × (neg_part z ≤ 2147483648)

abbrev pub IsInt64 : ℤ → Type 0
IsInt64 z = (pos_part z < 9223372036854775808) × (neg_part z ≤ 9223372036854775808)

-- A result in range is exact.
pub to_int32_exact : (z : ℤ) → IsInt32 z → to_int32 z ≡ z
unfolding to_int32
to_int32_exact (pos n) h = ground arith
to_int32_exact (negsuc n) h = ground arith

pub to_int64_exact : (z : ℤ) → IsInt64 z → to_int64 z ≡ z
unfolding to_int64
to_int64_exact (pos n) h = ground arith
to_int64_exact (negsuc n) h = ground arith

-- Every result is in range.
pub to_int32-IsInt32 : (z : ℤ) → IsInt32 (to_int32 z)
unfolding to_int32
to_int32-IsInt32 (pos n) = ground arith
to_int32-IsInt32 (negsuc n) = ground arith

pub to_int64-IsInt64 : (z : ℤ) → IsInt64 (to_int64 z)
unfolding to_int64
to_int64-IsInt64 (pos n) = ground arith
to_int64-IsInt64 (negsuc n) = ground arith

unfoldable pub add32 : ℤ → ℤ → ℤ
unfolding to_int32 ◌+ℤ◌
add32 a b = to_int32 (a +ℤ b)

unfoldable pub sub32 : ℤ → ℤ → ℤ
unfolding to_int32 ◌-ℤ◌
sub32 a b = to_int32 (a -ℤ b)

unfoldable pub add64 : ℤ → ℤ → ℤ
unfolding to_int64 ◌+ℤ◌
add64 a b = to_int64 (a +ℤ b)

unfoldable pub sub64 : ℤ → ℤ → ℤ
unfolding to_int64 ◌-ℤ◌
sub64 a b = to_int64 (a -ℤ b)

unfoldable pub mul64 : ℤ → ℤ → ℤ
mul64 a b = to_int64 (a *ℤ b)

unfoldable pub div64 : ℤ → ℤ → ℤ
unfolding to_int64 ◌/ℤ◌
div64 a b = to_int64 (a /ℤ b)

-- Exact cases at natural numbers.
pub add32-pos : (a b : ℕ) → a + b < 2147483648 → add32 (pos a) (pos b) ≡ pos (a + b)
unfolding add32
add32-pos a b h = ground arith

pub sub32-pos : (a b : ℕ) → b ≤ a → a < 2147483648 → sub32 (pos a) (pos b) ≡ pos (a - b)
unfolding sub32
sub32-pos a b h k = ground arith

pub *ℤ-pos : (a b : ℕ) → pos a *ℤ pos b ≡ pos (a * b)
unfolding ◌*ℤ◌
*ℤ-pos a b = ground arith

pub mul64-pos : (a b : ℕ) → a * b < 9223372036854775808 → mul64 (pos a) (pos b) ≡ pos (a * b)
mul64-pos a b h = unfold mul64 in (rw *ℤ-pos (to_int64_exact (pos (a * b)) (h, omega arith)))

pub div64-pos : (a b : ℕ) → a < 9223372036854775808 → div64 (pos a) (pos b) ≡ pos (a / b)
unfolding div64
div64-pos a b h = to_int64_exact (pos (a / b)) (omega (arith, div-le_self a b), omega arith)

pub add32-IsInt32 : (a b : ℤ) → IsInt32 (add32 a b)
unfolding add32
add32-IsInt32 a b = to_int32-IsInt32 (a +ℤ b)

pub sub32-IsInt32 : (a b : ℤ) → IsInt32 (sub32 a b)
unfolding sub32
sub32-IsInt32 a b = to_int32-IsInt32 (a -ℤ b)

pub add32-zero : (a : ℤ) → IsInt32 a → add32 (pos 0) a ≡ a
unfolding add32
add32-zero a h = ground arith
