-- ===== src/Prelude/Int.antt =====
-- `int64_t` values as integers, and their conversion to `uint64_t`.
use Prim.Native.Nat.{ℕ, ◌-◌, ◌%◌, ◌^◌, ◌<◌}
use native.Mathlib.Omega.{arith}

-- `negsuc n` is -(n + 1).
pub data ℤ : Type 0 where
  pos : ℕ → ℤ
  negsuc : ℕ → ℤ

-- The value modulo 2 ^ 64.
unfoldable pub to_uint64 : ℤ → ℕ
to_uint64 (pos n) = n % 2 ^ 64
to_uint64 (negsuc n) = 2 ^ 64 - 1 - n % 2 ^ 64

pub to_uint64-lt : (z : ℤ) → to_uint64 z < 2 ^ 64
unfolding to_uint64
to_uint64-lt (pos n) = omega arith
to_uint64-lt (negsuc n) = omega arith
