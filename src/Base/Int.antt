-- ===== src/Base/Int.antt =====
-- The integers over the native numbers, and the arithmetic of Go's int64, which wraps around.
use Prim.Native.Nat.{ℕ, zero, suc, ◌+◌, ◌-◌}
use mathlib.Core.Bool.{Bool, true, false}
use rampart.Base.Tests.{if◌then◌else◌, ltb}

pub data ℤ : Type 0 where
  pos negsuc : ℕ → ℤ

-- `<` on signed numbers.
abbrev pub lt_int : ℤ → ℤ → Bool
lt_int (pos m) (pos n) = ltb m n
lt_int (pos m) (negsuc n) = false
lt_int (negsuc m) (pos n) = true
lt_int (negsuc m) (negsuc n) = ltb n m

abbrev pub negate : ℕ → ℤ
negate zero = pos 0
negate (suc n) = negsuc n

-- The exact difference of two natural numbers.
abbrev pub minus : ℕ → ℕ → ℤ
minus m n = if ltb m n then negate (n - m) else pos (m - n)

-- 2 ^ 63 and 2 ^ 64.
abbrev pub half : ℕ
half = 9223372036854775808

abbrev pub whole : ℕ
whole = 18446744073709551616

-- Back into the range of int64, for a value that is out of it by less than 2 ^ 64.
abbrev pub wrap : ℤ → ℤ
wrap (pos n) = if ltb n half then pos n else minus n whole
wrap (negsuc n) = if ltb n half then negsuc n else minus whole (n + 1)

-- `int64(n)` for a uint64.
abbrev pub int64 : ℕ → ℤ
int64 n = wrap (pos n)

-- `a - b` on int64.
abbrev pub sub_int64 : ℤ → ℤ → ℤ
sub_int64 (pos m) (pos n) = wrap (minus m n)
sub_int64 (pos m) (negsuc n) = wrap (pos (m + n + 1))
sub_int64 (negsuc m) (pos n) = wrap (negsuc (m + n))
sub_int64 (negsuc m) (negsuc n) = wrap (minus n m)

-- `2 * a` on int64.
abbrev pub double_int64 : ℤ → ℤ
double_int64 (pos m) = wrap (pos (m + m))
double_int64 (negsuc m) = wrap (negsuc (m + m + 1))
