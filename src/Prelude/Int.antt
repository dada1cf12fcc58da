-- ===== src/Prelude/Int.antt =====
-- Signed integers over the native numbers, for the results of system calls.
use Prim.Native.Nat.{ℕ, zero, suc, ◌*◌, ◌/◌, ◌%◌}
use mathlib.Core.Bool.{Bool, true, false}

-- `negsuc n` is -(n + 1).
pub data ℤ : Type 0 where
  pos : ℕ → ℤ
  negsuc : ℕ → ℤ

-- The invalid handle and the error result -1.
abbrev pub minus_one : ℤ
minus_one = negsuc 0

abbrev pub is_negative : ℤ → Bool
is_negative (pos n) = false
is_negative (negsuc n) = true

-- `z != 0`, the test on a C status.
abbrev pub is_nonzero : ℤ → Bool
is_nonzero (pos zero) = false
is_nonzero _ = true

abbrev pub is_positive : ℤ → Bool
is_positive (pos zero) = false
is_positive (pos _) = true
is_positive (negsuc n) = false

abbrev pub is_zero : ℤ → Bool
is_zero (pos zero) = true
is_zero _ = false

-- handle == INVALID_SOCKET_HANDLE
abbrev pub is_minus_one : ℤ → Bool
is_minus_one (negsuc zero) = true
is_minus_one _ = false

-- static_cast<size_t> of a number that is not negative.
abbrev pub to_size : ℤ → ℕ
to_size (pos n) = n
to_size (negsuc n) = 0

abbrev pub negate : ℕ → ℤ
negate zero = pos 0
negate (suc n) = negsuc n

-- C++ division and remainder by a positive number round towards zero.
abbrev pub div_trunc : ℤ → ℕ → ℤ
div_trunc (pos n) k = pos (n / k)
div_trunc (negsuc n) k = negate (suc n / k)

abbrev pub rem_trunc : ℤ → ℕ → ℤ
rem_trunc (pos n) k = pos (n % k)
rem_trunc (negsuc n) k = negate (suc n % k)

abbrev pub scale : ℤ → ℕ → ℤ
scale (pos n) k = pos (n * k)
scale (negsuc n) k = negate (suc n * k)
