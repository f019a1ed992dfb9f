-- ===== src/Tests/Recursive.antt =====
-- Rules as functions: the interface of recursive rules can be met. A rule is a parser that takes the
-- meaning of the recursive rule, and a run is what it comes to when that is unrolled often enough.
use black_circle.Prelude.{
  sym, ◌∙◌, ℕ, zero, suc, ◌+◌, ◌^◌, ◌≤◌, ◌<◌, Bool, true, false, ◌&&◌, ◌≡◌, ◌≢◌, refl, arith, List,
  [], ◌∷◌, ◌++◌, Option, none, some, Bytes, codes, All, length, ◌==◌, if◌then◌else◌,
}
use black_circle.Prelude.Int.{ℤ, pos}
use black_circle.Qi.{Parsed, matched, failed, threw, strip, IsDigit, IsHexDigit, Stops, number}
use black_circle.Qi.Recursive.{minus, BeginsInt}
use black_circle.Tests.Peg.{
  Peg, is_digit, is_hex, take_while, number_of, take_while_lem, number_of_lem,
}

module _ (V : Type 0) where
  abbrev pub Open : Type 0 → Type 0
  Open A = Peg V → Peg A

  -- The recursive rule, unrolled.
  pub unroll : Open V → ℕ → Peg V
  unroll v zero s = threw
  unroll v (suc n) s = v (unroll v n) s

  abbrev pub Comes : {A : Type 0} → Open V → Open A → Bytes → Parsed A → Type 0
  Comes v a s r = (n : ℕ) × ((m : ℕ) → n ≤ m → a (unroll v m) s ≡ r)

  -- A run has one result.
  pub Comes-unique :
      {A : Type 0} (v : Open V) (a : Open A) (s : Bytes) (x y : Parsed A)
      → Comes v a s x
      → Comes v a s y
      → x ≡ y
  Comes-unique v a s x y (n, h) (k, g) = sym (h (n + k) (omega arith)) ∙ g (n + k) (omega arith)

  abbrev pub now : {A : Type 0} → Peg A → Open A
  now a p = a

  -- A rule that does not recur.
  pub at_once :
      {A : Type 0} (v : Open V) (a : Peg A) (s : Bytes) (r : Parsed A)
      → a s ≡ r
      → Comes v (now a) s r
  at_once v a s r e = (0, λ m h. e)

  pub self-Comes : (v : Open V) (s : Bytes) (r : Parsed V) → Comes v v s r → Comes v (λ p. p) s r
  unfolding unroll
  self-Comes v s r (n, h) = (suc n, later)
    where
      later : (m : ℕ) → suc n ≤ m → unroll v m s ≡ r
      later zero le = absurd (omega arith)
      later (suc m) le = h m (omega arith)

  -- Rules made of one, and of two.
  pub from_one :
      {A B : Type 0} (v : Open V) (a : Open A) (b : Open B) (s t : Bytes) (x : Parsed A)
      (y : Parsed B)
      → ((p : Peg V) → a p s ≡ x → b p t ≡ y)
      → Comes v a s x
      → Comes v b t y
  from_one v a b s t x y f (n, h) = (n, λ m le. f (unroll v m) (h m le))

  pub from_two :
      {A B C : Type 0} (v : Open V) (a : Open A) (b : Open B) (c : Open C) (s t u : Bytes)
      (x : Parsed A) (y : Parsed B) (z : Parsed C)
      → ((p : Peg V) → a p s ≡ x → b p t ≡ y → c p u ≡ z)
      → Comes v a s x
      → Comes v b t y
      → Comes v c u z
  from_two v a b c s t u x y z f (n, h) (k, g) =
      (n + k, λ m le. f (unroll v m) (h m (omega arith)) (g m (omega arith)))

abbrev pub either : {A : Type 0} → Parsed A → Parsed A → Parsed A
either (matched x t) r = matched x t
either failed r = r
either threw r = threw

abbrev pub without : {A : Type 0} → Bytes → Parsed A → Parsed (Unit {0})
without s (matched x t) = failed
without s failed = matched tt s
without s threw = threw

abbrev pub or_none : {A : Type 0} → Bytes → Parsed (List A) → Parsed (List A)
or_none s (matched xs t) = matched xs t
or_none s failed = matched [] s
or_none s threw = threw

abbrev pub accept : {B : Type 0} → Bytes → Option B → Parsed B
accept t (some y) = matched y t
accept t none = failed

abbrev pub act : {A B : Type 0} → (A → Option B) → Parsed A → Parsed B
act f (matched x t) = accept t (f x)
act f failed = failed
act f threw = threw

-- Four hexadecimal digits.
pub four : Peg ℕ
four (a ∷ b ∷ c ∷ d ∷ s) =
    if is_hex a && is_hex b && is_hex c && is_hex d
    then matched (number 16 (a ∷ b ∷ c ∷ d ∷ [])) s
    else failed
four _ = failed

hex_digit_lem : (c : ℕ) → IsHexDigit c → is_hex c ≡ true
hex_digit_lem c h = ground arith

pub four_lem :
    (w s : Bytes) → length w ≡ 4 → All IsHexDigit w → four (w ++ s) ≡ matched (number 16 w) s
unfolding four
four_lem [] s e h = absurd (omega arith)
four_lem (a ∷ []) s e h = absurd (omega arith)
four_lem (a ∷ b ∷ []) s e h = absurd (omega arith)
four_lem (a ∷ b ∷ c ∷ []) s e h = absurd (omega arith)
four_lem (a ∷ b ∷ c ∷ d ∷ []) s e h =
    rw (
      hex_digit_lem a h.0,
      hex_digit_lem b h.1.0,
      hex_digit_lem c h.1.1.0,
      hex_digit_lem d h.1.1.1.0,
    )
four_lem (a ∷ b ∷ c ∷ d ∷ f ∷ w) s e h = absurd (omega arith)

-- Integers with and without a sign.
abbrev pub signed_with : (ℕ → ℤ) → Parsed ℕ → Parsed ℤ
signed_with f (matched n t) = matched (f n) t
signed_with f failed = failed
signed_with f threw = threw

pub integer : Peg ℤ
integer [] = failed
integer (c ∷ s) =
    if c == b'-'
    then signed_with minus (number_of 10 (2 ^ 63 + 1) (take_while is_digit s))
    else signed_with pos (number_of 10 (2 ^ 63) (take_while is_digit (c ∷ s)))

take_digits :
    (w s : Bytes) → All IsDigit w → Stops IsDigit s → take_while is_digit (w ++ s) ≡ (w, s)
take_digits w s d e =
    take_while_lem is_digit IsDigit (λ c k. ground arith) (λ c k. ground arith) w s d e

pub integer_lem :
    (w s : Bytes)
    → w ≢ []
    → All IsDigit w
    → Stops IsDigit s
    → number 10 w < 2 ^ 63
    → integer (w ++ s) ≡ matched (pos (number 10 w)) s
unfolding integer
integer_lem [] s ne d e h = absurd (ne refl)
integer_lem (c ∷ w) s ne d e h =
    let no_sign : (c == b'-') ≡ false = ground arith in
    rw no_sign (rw (take_digits (c ∷ w) s d e) (rw (number_of_lem 10 (2 ^ 63) (c ∷ w) s ne h)))

pub integer-minus :
    (w s : Bytes)
    → w ≢ []
    → All IsDigit w
    → Stops IsDigit s
    → number 10 w ≤ 2 ^ 63
    → integer (b'-' ∷ (w ++ s)) ≡ matched (minus (number 10 w)) s
unfolding integer
integer-minus w s ne d e h =
    rw (take_digits w s d e) (rw (number_of_lem 10 (2 ^ 63 + 1) w s ne (omega arith)))

pub integer_failed : (s : Bytes) → Stops BeginsInt s → integer s ≡ failed
unfolding integer take_while number_of
integer_failed [] h = refl
integer_failed (c ∷ s) h =
    let no_sign : (c == b'-') ≡ false = ground (arith, h) in
    let no_digit : is_digit c ≡ false = ground (arith, h) in rw (no_sign, no_digit)

-- Digits, a point and digits.
abbrev point : Bytes → Bytes × Bytes → Parsed Bytes
point x ([], s) = failed
point x (c ∷ y, s) = matched (x ++ (b'.' ∷ c ∷ y)) s

abbrev pub fraction : Bytes × Bytes → Parsed Bytes
fraction ([], s) = failed
fraction (c ∷ x, []) = failed
fraction (c ∷ x, d ∷ s) = if d == b'.' then point (c ∷ x) (take_while is_digit s) else failed

pub decimal : Peg Bytes
decimal s = fraction (take_while is_digit s)

pub decimal_lem :
    (w x s : Bytes)
    → w ≢ []
    → x ≢ []
    → All IsDigit w
    → All IsDigit x
    → Stops IsDigit s
    → decimal (w ++ (b'.' ∷ (x ++ s))) ≡ matched (w ++ (b'.' ∷ x)) s
unfolding decimal
decimal_lem [] x s ne me d f e = absurd (ne refl)
decimal_lem (c ∷ w) [] s ne me d f e = absurd (me refl)
decimal_lem (c ∷ w) (g ∷ x) s ne me d f e =
    rw (take_digits (c ∷ w) (b'.' ∷ ((g ∷ x) ++ s)) d (λ i. omega arith))
      (rw (take_digits (g ∷ x) s f e))

pub decimal_failed : (c : ℕ) (s : Bytes) → ¬ IsDigit c → decimal (c ∷ s) ≡ failed
unfolding decimal take_while
decimal_failed c s h = let no_digit : is_digit c ≡ false = ground (arith, h) in rw no_digit

pub decimal_nil : decimal [] ≡ failed
unfolding decimal take_while
decimal_nil = refl

unfoldable pub yes_or_no : Peg Bool
yes_or_no s =
    either (act (λ u. some true) (strip (codes "true") s))
      (act (λ u. some false) (strip (codes "false") s))
