-- ===== src/Prelude/Bits.antt =====
-- `|` of disjoint fields and `&` with a low mask as arithmetic, for the widths the program uses.
use Prim.Native.Nat.{
  ℕ, zero, suc, ◌+◌, ◌-◌, ◌*◌, ◌/◌, ◌%◌, ◌≤◌, ◌<◌, ◌^◌, min, max, digits, bit_and, bit_or,
  bit_and-bitwise, bit_or-bitwise,
}
use mathlib.Core.Path.{◌≡◌, refl, ap, ◌∙◌}
use native.Mathlib.Nat.{pow-suc}
use native.Mathlib.Omega.{arith}

-- The fuel of `digits` does not matter once it covers the first operand.
module _ (keep : ℕ → ℕ) (op : ℕ → ℕ → ℕ) where
  fuel_free : (n a b k : ℕ) → a ≤ n → a ≤ k → digits keep op n a b ≡ digits keep op k a b
  fuel_free zero zero b zero p q = refl
  fuel_free zero zero b (suc k) p q = refl
  fuel_free zero (suc a) b k p q = absurd (omega arith)
  fuel_free (suc n) zero b zero p q = refl
  fuel_free (suc n) zero b (suc k) p q = refl
  fuel_free (suc n) (suc a) b zero p q = absurd (omega arith)
  fuel_free (suc n) (suc a) b (suc k) p q =
      omega (arith, fuel_free n (suc a / 2) (b / 2) k (omega arith) (omega arith))

or_last_bit : (a b : ℕ) → bit_or a b ≡ bit_or (a / 2) (b / 2) * 2 + max (a % 2) (b % 2)
or_last_bit zero b = omega (arith, bit_or-bitwise 0 b, bit_or-bitwise 0 (b / 2))
or_last_bit (suc a) b = omega (
  arith,
  bit_or-bitwise (suc a) b,
  bit_or-bitwise (suc a / 2) (b / 2),
  fuel_free (λ y. y) max a (suc a / 2) (b / 2) (suc a / 2) (omega arith) (omega arith),
)

and_last_bit : (a b : ℕ) → bit_and a b ≡ bit_and (a / 2) (b / 2) * 2 + min (a % 2) (b % 2)
and_last_bit zero b = omega (arith, bit_and-bitwise 0 b, bit_and-bitwise 0 (b / 2))
and_last_bit (suc a) b = omega (
  arith,
  bit_and-bitwise (suc a) b,
  bit_and-bitwise (suc a / 2) (b / 2),
  fuel_free (λ y. zero) min a (suc a / 2) (b / 2) (suc a / 2) (omega arith) (omega arith),
)

or_zero : (n a : ℕ) → a ≤ n → bit_or a 0 ≡ a
or_zero n zero h = bit_or-bitwise 0 0
or_zero zero (suc a) h = absurd (omega arith)
or_zero (suc n) (suc a) h =
    omega (arith, or_last_bit (suc a) 0, or_zero n (suc a / 2) (omega arith))

and_zero : (n a : ℕ) → a ≤ n → bit_and a 0 ≡ 0
and_zero n zero h = bit_and-bitwise 0 0
and_zero zero (suc a) h = absurd (omega arith)
and_zero (suc n) (suc a) h =
    omega (arith, and_last_bit (suc a) 0, and_zero n (suc a / 2) (omega arith))

twice_pow : (q k : ℕ) → q * 2 ^ suc k ≡ 2 * (q * 2 ^ k)
twice_pow q k = omega (arith, ap (λ (t : ℕ). q * t) (pow-suc 2 k))

-- `(q << k) | r` is a sum when `r` has k bits.
pub or_low : (k q r : ℕ) → r < 2 ^ k → bit_or (q * 2 ^ k) r ≡ q * 2 ^ k + r
or_low zero q r h = ground (arith, or_zero q q (omega arith))
or_low (suc k) q r h =
    let half : bit_or (q * 2 ^ k) (r / 2) ≡ q * 2 ^ k + r / 2 =
      or_low k q (r / 2) (omega (arith, pow-suc 2 k)) in
    let even : q * 2 ^ suc k / 2 ≡ q * 2 ^ k = omega (arith, twice_pow q k) in
    or_last_bit (q * 2 ^ suc k) r ∙ rw even (omega (arith, half, twice_pow q k))

-- `a & (2^k - 1)` is the remainder, one width after another.
pub and_1 : (a : ℕ) → bit_and a 1 ≡ a % 2
and_1 a = omega (arith, and_last_bit a 1, and_zero (a / 2) (a / 2) (omega arith))

pub and_3 : (a : ℕ) → bit_and a 3 ≡ a % 4
and_3 a = omega (arith, and_last_bit a 3, and_1 (a / 2))

pub and_7 : (a : ℕ) → bit_and a 7 ≡ a % 8
and_7 a = omega (arith, and_last_bit a 7, and_3 (a / 2))

pub and_15 : (a : ℕ) → bit_and a 15 ≡ a % 16
and_15 a = omega (arith, and_last_bit a 15, and_7 (a / 2))

pub and_31 : (a : ℕ) → bit_and a 31 ≡ a % 32
and_31 a = omega (arith, and_last_bit a 31, and_15 (a / 2))

pub and_63 : (a : ℕ) → bit_and a 63 ≡ a % 64
and_63 a = omega (arith, and_last_bit a 63, and_31 (a / 2))

-- The bit `i` of a number.
abbrev pub bit : ℕ → ℕ → ℕ
bit zero a = a % 2
bit (suc i) a = bit i (a / 2)

pub bit-bit_and : (i a b : ℕ) → bit i (bit_and a b) ≡ min (bit i a) (bit i b)
bit-bit_and zero a b = omega (arith, and_last_bit a b)
bit-bit_and (suc i) a b =
    let half : bit_and a b / 2 ≡ bit_and (a / 2) (b / 2) = omega (arith, and_last_bit a b) in
    ap (bit i) half ∙ bit-bit_and i (a / 2) (b / 2)

pub bit-bit_or : (i a b : ℕ) → bit i (bit_or a b) ≡ max (bit i a) (bit i b)
bit-bit_or zero a b = omega (arith, or_last_bit a b)
bit-bit_or (suc i) a b =
    let half : bit_or a b / 2 ≡ bit_or (a / 2) (b / 2) = omega (arith, or_last_bit a b) in
    ap (bit i) half ∙ bit-bit_or i (a / 2) (b / 2)

-- `~a` on `w` bits.
abbrev pub complement : ℕ → ℕ → ℕ
complement w a = 2 ^ w - 1 - a

pub bit-complement : (w i a : ℕ) → i < w → a < 2 ^ w → bit i (complement w a) ≡ 1 - bit i a
bit-complement zero i a h k = absurd (omega arith)
bit-complement (suc w) zero a h k = omega (arith, pow-suc 2 w)
bit-complement (suc w) (suc i) a h k =
    let half : complement (suc w) a / 2 ≡ complement w (a / 2) = omega (arith, pow-suc 2 w) in
    ap (bit i) half ∙ bit-complement w i (a / 2) (omega arith) (omega (arith, pow-suc 2 w))
