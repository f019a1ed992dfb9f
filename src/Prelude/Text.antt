-- ===== src/Prelude/Text.antt =====
-- `std::string` as a list of bytes, its `==`, and its `<` as the order of a `std::map` key.
use Prim.Native.Char.{code}
use Prim.Native.String.{String}
use Prim.Native.Nat.{ℕ, ◌<◌}
use mathlib.Core.Path.{◌≡◌, refl}
use mathlib.Core.Bool.{Bool, true, false, ◌&&◌}
use mathlib.Core.List.{List, [], ◌∷◌}
use mathlib.Core.Logic.{◌↔◌, ◌⊎◌, inl, inr}
use native.Mathlib.Omega.{arith}
use black_circle.Prelude.Tests.{ltb, ◌==◌, if◌then◌else◌}
use black_circle.Prelude.Lists.{All}

abbrev pub Bytes : Type 0
Bytes = List ℕ

abbrev pub IsByte : ℕ → Type 0
IsByte c = c < 256

abbrev pub AllBytes : Bytes → Type 0
AllBytes = All IsByte

-- The code points of a literal: its bytes, since every literal of the program is ASCII.
abbrev pub codes : String → Bytes
codes String.[] = []
codes (String.◌∷◌ c s) = code c ∷ codes s

abbrev pub bytes_eq : Bytes → Bytes → Bool
bytes_eq [] [] = true
bytes_eq [] (_ ∷ _) = false
bytes_eq (_ ∷ _) [] = false
bytes_eq (x ∷ xs) (y ∷ ys) = x == y && bytes_eq xs ys

-- `std::string::compare` below zero: lexicographic, bytes as unsigned.
abbrev pub bytes_lt : Bytes → Bytes → Bool
bytes_lt [] [] = false
bytes_lt [] (_ ∷ _) = true
bytes_lt (_ ∷ _) [] = false
bytes_lt (x ∷ xs) (y ∷ ys) = if x == y then bytes_lt xs ys else ltb x y

pub bytes_eq_iff : (a b : Bytes) → (bytes_eq a b ≡ true) ↔ (a ≡ b)
bytes_eq_iff [] [] = ground arith
bytes_eq_iff [] (y ∷ b) = ground arith
bytes_eq_iff (x ∷ a) [] = ground arith
bytes_eq_iff (x ∷ a) (y ∷ b) = ground (arith, bytes_eq_iff a b)

pub bytes_eq_refl : (a : Bytes) → bytes_eq a a ≡ true
bytes_eq_refl a = (bytes_eq_iff a a).1 refl

pub bytes_lt_irrefl : (a : Bytes) → bytes_lt a a ≡ false
bytes_lt_irrefl [] = refl
bytes_lt_irrefl (x ∷ a) = ground (arith, bytes_lt_irrefl a)

pub bytes_lt_trans :
    (a b c : Bytes) → bytes_lt a b ≡ true → bytes_lt b c ≡ true → bytes_lt a c ≡ true
bytes_lt_trans [] [] c p q = q
bytes_lt_trans [] (y ∷ b) [] p q = q
bytes_lt_trans [] (y ∷ b) (z ∷ c) p q = refl
bytes_lt_trans (x ∷ a) [] c p q = ground arith
bytes_lt_trans (x ∷ a) (y ∷ b) [] p q = q
bytes_lt_trans (x ∷ a) (y ∷ b) (z ∷ c) p q = ground (arith, bytes_lt_trans a b c)

-- Two keys are equal, or one comes first.
pub bytes_trichotomy : (a b : Bytes) → (a ≡ b) ⊎ (bytes_lt a b ≡ true) ⊎ (bytes_lt b a ≡ true)
bytes_trichotomy [] [] = inl refl
bytes_trichotomy [] (y ∷ b) = inr (inl refl)
bytes_trichotomy (x ∷ a) [] = inr (inr refl)
bytes_trichotomy (x ∷ a) (y ∷ b) = ground (arith, bytes_trichotomy a b)
