-- ===== src/Util/Hex.antt =====
-- `hexanizer` of util.hpp, and the reading of its two digits.
use black_circle.Prelude.{
  ℕ, zero, suc, ◌-◌, ◌/◌, ◌%◌, ◌^◌, ◌<◌, Bool, true, ◌&&◌, [], ◌∷◌, ◌++◌, Option, none, some, ◌≡◌,
  refl, arith, bit_and, Bytes, codes, leb, ◌==◌, if◌then◌else◌, all_below, All-append, AllBytes,
  all_below_sound,
}
use black_circle.Prelude.Bits.{and_15}

abbrev pub get_or : Bytes → ℕ → ℕ → ℕ
get_or [] i d = d
get_or (x ∷ xs) zero d = x
get_or (x ∷ xs) (suc i) d = get_or xs i d

abbrev hex : Bytes
hex = codes "0123456789ABCDEF"

-- `hex[i]`. The index is masked to four bits, so the default is never read.
unfoldable pub hex_digit : ℕ → ℕ
hex_digit i = get_or hex i 0

-- `operator ()` of a `hexanizer(head)`. An arithmetic shift of a negative `char` leaves the same low
-- four bits as a shift of its byte.
unfoldable pub hexanizer : Bytes → Bytes → ℕ → Bytes
hexanizer head s c =
    s ++ (head ++ (hex_digit (bit_and (c / 2 ^ 4) 0xF) ∷ hex_digit (bit_and c 0xF) ∷ []))

-- The value of an upper case hexadecimal digit.
abbrev pub hex_value : ℕ → Option ℕ
hex_value d =
    if leb b'0' d && leb d b'9'
    then some (d - b'0')
    else if leb b'A' d && leb d b'F'
    then some (d - 55)
    else none

is_digit_of : ℕ → Bool
is_digit_of i = elim (hex_value (hex_digit i)) [ some v ↦ v == i | none ↦ leb 1 0 ]

hex_table : all_below 16 is_digit_of ≡ true
unfolding all_below is_digit_of hex_digit
hex_table = refl

pub hex_value-hex_digit : (i : ℕ) → i < 16 → hex_value (hex_digit i) ≡ some i
unfolding is_digit_of
hex_value-hex_digit i h = ground (arith, all_below_sound 16 is_digit_of i hex_table h)

-- The digits of a byte, by arithmetic.
pub hexanizer_lem :
    (head s : Bytes) (c : ℕ)
    → c < 256
    → hexanizer head s c ≡ s ++ (head ++ (hex_digit (c / 16) ∷ hex_digit (c % 16) ∷ []))
unfolding hexanizer
hexanizer_lem head s c h =
    let high : c / 16 % 16 ≡ c / 16 = omega arith in rw (and_15 (c / 16), and_15 c, high)

hex_digit-IsByte : (i : ℕ) → i < 16 → hex_digit i < 256
hex_digit-IsByte i h = ground (arith, hex_value-hex_digit i h)

pub hexanizer-AllBytes :
    (head s : Bytes) (c : ℕ) → AllBytes head → AllBytes s → c < 256 → AllBytes (hexanizer head s c)
hexanizer-AllBytes head s c hh hs h =
    let digits = hex_digit (c / 16) ∷ hex_digit (c % 16) ∷ [] in
    let low = hex_digit-IsByte (c % 16) (omega arith) in
    let high = hex_digit-IsByte (c / 16) (omega arith) in
    rw (hexanizer_lem head s c h)
      (All-append _ s (head ++ digits) hs (All-append _ head digits hh (high, (low, tt))))
