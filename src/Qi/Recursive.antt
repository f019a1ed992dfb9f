-- ===== src/Qi/Recursive.antt =====
-- What json_parser_inst.cc uses of Boost.Spirit.Qi: rules over bytes, one of which refers to itself
-- and has an attribute of type `V`, as an interface with what its documentation says of each. Whether
-- such a rule ends is not known from the start, so a run is a relation between a text and its result.
pub mod Steps
use black_circle.Prelude.{
  ℕ, zero, suc, not, ◌+◌, ◌^◌, ◌≤◌, ◌<◌, Bool, true, false, ◌||◌, ◌&&◌, ◌≡◌, ◌≢◌, ◌⊎◌, List, [],
  ◌∷◌, ◌++◌, Option, none, some, Bytes, codes, All, length, leb, ◌==◌, if◌then◌else◌,
}
use black_circle.Prelude.Int.{ℤ, pos, negsuc}
use black_circle.Qi.{
  Parsed, matched, failed, threw, strip, is_one_of, pair_with, IsDigit, IsHexDigit, Stops, number,
}

-- `ascii::space`, and the text behind leading spaces.
abbrev pub is_ascii_space : ℕ → Bool
is_ascii_space c = c == 32 || (leb 9 c && leb c 13)

unfoldable pub trim : Bytes → Bytes
trim [] = []
trim (c ∷ s) = let rest = trim s in if is_ascii_space c then rest else c ∷ s

-- The next byte, if it passes a test.
abbrev pub next_byte : (ℕ → Bool) → Bytes → Parsed ℕ
next_byte p [] = failed
next_byte p (c ∷ s) = if p c then matched c s else failed

-- How a number begins: an integer, and one with a fraction, "inf" or "nan".
abbrev pub BeginsInt : ℕ → Type 0
BeginsInt c = IsDigit c ⊎ ((c ≡ b'+') ⊎ (c ≡ b'-'))

abbrev pub BeginsReal : ℕ → Type 0
BeginsReal c = BeginsInt c ⊎ ((c ≡ b'.') ⊎ (is_one_of (codes "iInN") c ≡ true))

-- The digits of a negative integer.
abbrev pub minus : ℕ → ℤ
minus zero = pos 0
minus (suc n) = negsuc n

pub record Rules (V D : Type 0) : Type 1 where
  pub Rule : Type 0 → Type 0
  -- `Runs v a s r`: where the recursive rule is defined as `v`, the rule `a` ends on `s` with `r`.
  pub Runs : {A : Type 0} → Rule V → Rule A → Bytes → Parsed A → Type 0
  -- The recursive rule.
  pub self : Rule V
  -- A literal, `char_("…")` and `ascii::char_ - …`, nothing, and the numbers.
  pub lit : Bytes → Rule (Unit {0})
  pub one_of : Bytes → Rule ℕ
  pub ascii_but : Bytes → Rule ℕ
  pub eps : Rule (Unit {0})
  pub hex4 : Rule ℕ
  pub int64 : Rule ℤ
  pub double : Rule D
  pub boolean : Rule Bool
  -- The `double` that a text of digits, a point and digits stands for.
  pub to_double : Bytes → D
  -- A primitive, or a `lexeme`, where `ascii::space` is skipped.
  pub skip : {A : Type 0} → Rule A → Rule A
  -- `a >> b`, `a > b`, `a | b`, `*a`, `!a` and `-a`, and a semantic action that sets `_val`, and
  -- `_pass` to false where it is `none`.
  pub seq : {A B : Type 0} → Rule A → Rule B → Rule (A × B)
  pub expect : {A B : Type 0} → Rule A → Rule B → Rule (A × B)
  pub alt : {A : Type 0} → Rule A → Rule A → Rule A
  pub many : {A : Type 0} → Rule A → Rule (List A)
  pub not_at : {A : Type 0} → Rule A → Rule (Unit {0})
  pub opt : {A : Type 0} → Rule (List A) → Rule (List A)
  pub action : {A B : Type 0} → (A → Option B) → Rule A → Rule B
  pub run-self : (v : Rule V) (s : Bytes) (r : Parsed V) → Runs v v s r → Runs v self s r
  pub run-lit : (v : Rule V) (w s : Bytes) → Runs v (lit w) s (strip w s)
  pub run-one_of : (v : Rule V) (cs s : Bytes) → Runs v (one_of cs) s (next_byte (is_one_of cs) s)
  pub run-ascii_but :
      (v : Rule V) (c : ℕ) (s : Bytes) (cs : Bytes)
      → Runs v
          (ascii_but cs)
          (c ∷ s)
          (if leb c 127 && not (is_one_of cs c) then matched c s else failed)
  pub run-eps : (v : Rule V) (s : Bytes) → Runs v eps s (matched tt s)
  -- Exactly four digits.
  pub run-hex4 :
      (v : Rule V) (w s : Bytes)
      → length w ≡ 4
      → All IsHexDigit w
      → Runs v hex4 (w ++ s) (matched (number 16 w) s)
  -- The longest number that fits, and no number.
  pub run-int64 :
      (v : Rule V) (w s : Bytes)
      → w ≢ []
      → All IsDigit w
      → Stops IsDigit s
      → number 10 w < 2 ^ 63
      → Runs v int64 (w ++ s) (matched (pos (number 10 w)) s)
  pub run-int64-minus :
      (v : Rule V) (w s : Bytes)
      → w ≢ []
      → All IsDigit w
      → Stops IsDigit s
      → number 10 w ≤ 2 ^ 63
      → Runs v int64 (b'-' ∷ (w ++ s)) (matched (minus (number 10 w)) s)
  pub run-int64-failed : (v : Rule V) (s : Bytes) → Stops BeginsInt s → Runs v int64 s failed
  pub run-double :
      (v : Rule V) (w x s : Bytes)
      → w ≢ []
      → x ≢ []
      → All IsDigit w
      → All IsDigit x
      → Stops (λ c. IsDigit c ⊎ (is_one_of (codes "eE") c ≡ true)) s
      → Runs v double (w ++ (b'.' ∷ (x ++ s))) (matched (to_double (w ++ (b'.' ∷ x))) s)
  pub run-double-failed : (v : Rule V) (s : Bytes) → Stops BeginsReal s → Runs v double s failed
  pub run-double-nan :
      (v : Rule V) (c : ℕ) (s : Bytes)
      → is_one_of (codes "aA") c ≡ false
      → Runs v double (b'n' ∷ c ∷ s) failed
  pub run-true : (v : Rule V) (s : Bytes) → Runs v boolean (codes "true" ++ s) (matched true s)
  pub run-false : (v : Rule V) (s : Bytes) → Runs v boolean (codes "false" ++ s) (matched false s)
  pub run-boolean-failed :
      (v : Rule V) (c : ℕ) (s : Bytes)
      → is_one_of (codes "tf") c ≡ false
      → Runs v boolean (c ∷ s) failed
  pub run-skip :
      {A : Type 0} (v : Rule V) (a : Rule A) (s : Bytes) (r : Parsed A)
      → Runs v a (trim s) r
      → Runs v (skip a) s r
  pub run-seq :
      {A B : Type 0} (v : Rule V) (a : Rule A) (b : Rule B) (s t : Bytes) (x : A) (r : Parsed B)
      → Runs v a s (matched x t)
      → Runs v b t r
      → Runs v (seq a b) s (pair_with failed x r)
  pub run-seq-failed :
      {A B : Type 0} (v : Rule V) (a : Rule A) (b : Rule B) (s : Bytes)
      → Runs v a s failed
      → Runs v (seq a b) s failed
  pub run-expect :
      {A B : Type 0} (v : Rule V) (a : Rule A) (b : Rule B) (s t : Bytes) (x : A) (r : Parsed B)
      → Runs v a s (matched x t)
      → Runs v b t r
      → Runs v (expect a b) s (pair_with threw x r)
  pub run-expect-failed :
      {A B : Type 0} (v : Rule V) (a : Rule A) (b : Rule B) (s : Bytes)
      → Runs v a s failed
      → Runs v (expect a b) s failed
  pub run-alt :
      {A : Type 0} (v : Rule V) (a b : Rule A) (s t : Bytes) (x : A)
      → Runs v a s (matched x t)
      → Runs v (alt a b) s (matched x t)
  pub run-alt-failed :
      {A : Type 0} (v : Rule V) (a b : Rule A) (s : Bytes) (r : Parsed A)
      → Runs v a s failed
      → Runs v b s r
      → Runs v (alt a b) s r
  pub run-many :
      {A : Type 0} (v : Rule V) (a : Rule A) (s t u : Bytes) (x : A) (xs : List A)
      → Runs v a s (matched x t)
      → length t < length s
      → Runs v (many a) t (matched xs u)
      → Runs v (many a) s (matched (x ∷ xs) u)
  pub run-many-failed :
      {A : Type 0} (v : Rule V) (a : Rule A) (s : Bytes)
      → Runs v a s failed
      → Runs v (many a) s (matched [] s)
  pub run-not_at :
      {A : Type 0} (v : Rule V) (a : Rule A) (s : Bytes)
      → Runs v a s failed
      → Runs v (not_at a) s (matched tt s)
  pub run-not_at-failed :
      {A : Type 0} (v : Rule V) (a : Rule A) (s t : Bytes) (x : A)
      → Runs v a s (matched x t)
      → Runs v (not_at a) s failed
  pub run-opt :
      {A : Type 0} (v : Rule V) (a : Rule (List A)) (s t : Bytes) (xs : List A)
      → Runs v a s (matched xs t)
      → Runs v (opt a) s (matched xs t)
  pub run-opt-failed :
      {A : Type 0} (v : Rule V) (a : Rule (List A)) (s : Bytes)
      → Runs v a s failed
      → Runs v (opt a) s (matched [] s)
  pub run-action :
      {A B : Type 0} (v : Rule V) (f : A → Option B) (a : Rule A) (s t : Bytes) (x : A) (y : B)
      → Runs v a s (matched x t)
      → f x ≡ some y
      → Runs v (action f a) s (matched y t)
  pub run-action-refused :
      {A B : Type 0} (v : Rule V) (f : A → Option B) (a : Rule A) (s t : Bytes) (x : A)
      → Runs v a s (matched x t)
      → f x ≡ none
      → Runs v (action f a) s failed
  pub run-action-failed :
      {A B : Type 0} (v : Rule V) (f : A → Option B) (a : Rule A) (s : Bytes)
      → Runs v a s failed
      → Runs v (action f a) s failed
