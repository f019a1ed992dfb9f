-- ===== src/Tests/Peg.antt =====
-- Parsers as functions: the interface of Boost.Spirit.Qi can be met.
use black_circle.Prelude.{
  ℕ, zero, suc, ◌+◌, ◌^◌, ◌<◌, Bool, true, false, ◌&&◌, ◌||◌, ◌≡◌, ◌≢◌, ◌⊎◌, refl, ap, arith, List,
  [], ◌∷◌, ◌++◌, inl, inr, Bool-cases, Bytes, All, length, leb, ltb, if◌then◌else◌,
}
use black_circle.Prelude.Int.{ℤ, pos}
use black_circle.Qi.{
  Qi, Parsed, matched, failed, threw, strip, span, some_of, behind, prepend, IsDigit, IsHexDigit,
  Stops, number,
}

abbrev pub Peg : Type 0 → Type 0
Peg A = Bytes → Parsed A

abbrev pub is_digit : ℕ → Bool
is_digit c = leb b'0' c && leb c b'9'

abbrev pub is_hex : ℕ → Bool
is_hex c = is_digit c || ((leb b'A' c && leb c b'F') || (leb b'a' c && leb c b'f'))

unfoldable pub take_while : (ℕ → Bool) → Bytes → Bytes × Bytes
take_while p [] = ([], [])
take_while p (c ∷ s) =
    let rest = take_while p s in if p c then (c ∷ rest.0, rest.1) else ([], c ∷ s)

pub take_while_lem :
    (p : ℕ → Bool) (P : ℕ → Type 0)
    → ((c : ℕ) → P c → p c ≡ true)
    → ((c : ℕ) → ¬ P c → p c ≡ false)
    → (w s : Bytes) → All P w
    → Stops P s
    → take_while p (w ++ s) ≡ (w, s)
unfolding take_while
take_while_lem p P yes' no' [] [] h e = refl
take_while_lem p P yes' no' [] (c ∷ s) h e = rw (no' c e)
take_while_lem p P yes' no' (c ∷ w) s h e = rw (yes' c h.0, take_while_lem p P yes' no' w s h.1 e)

-- The longest number, below a bound.
unfoldable pub number_of : ℕ → ℕ → Bytes × Bytes → Parsed ℕ
number_of base bound ([], s) = failed
number_of base bound (c ∷ w, s) =
    if ltb (number base (c ∷ w)) bound then matched (number base (c ∷ w)) s else failed

pub number_of_lem :
    (base bound : ℕ) (w s : Bytes)
    → w ≢ []
    → number base w < bound
    → number_of base bound (w, s) ≡ matched (number base w) s
unfolding number_of
number_of_lem base bound [] s ne h = absurd (ne refl)
number_of_lem base bound (c ∷ w) s ne h = ground arith

pub signed : Parsed ℕ → Parsed ℤ
signed (matched n s) = matched (pos n) s
signed failed = failed
signed threw = threw

pub one : (ℕ → Bool) → Peg ℕ
one p [] = failed
one p (c ∷ s) = if p c then matched c s else failed

pub many_fuel : {A : Type 0} → ℕ → Peg A → Peg (List A)
many_fuel zero a s = failed
many_fuel (suc f) a s = elim (a s) [
  | failed ↦ matched [] s
  | threw ↦ threw
  | matched x t ↦ if ltb (length t) (length s) then prepend x (many_fuel f a t) else failed
]

Parsed-cases :
    {A : Type 0} (r : Parsed A)
    → ((x : A) × (t : Bytes) × (r ≡ matched x t)) ⊎ ((r ≡ failed) ⊎ (r ≡ threw))
Parsed-cases (matched x t) = inl (x, t, refl)
Parsed-cases failed = inr (inl refl)
Parsed-cases threw = inr (inr refl)

many_enough :
    {A : Type 0} (a : Peg A) (f g : ℕ) (s : Bytes)
    → length s < f
    → length s < g
    → many_fuel f a s ≡ many_fuel g a s
unfolding many_fuel
many_enough a zero g s hf hg = absurd (omega arith)
many_enough a (suc f) zero s hf hg = absurd (omega arith)
many_enough a (suc f) (suc g) s hf hg = elim (Parsed-cases (a s)) [
  | inl (x, t, e) ↦
      rw (e, many_fuel)
        (elim (Bool-cases (ltb (length t) (length s))) [
          | inl l ↦ rw l (ap (prepend x) (many_enough a f g t (ground arith) (ground arith)))
          | inr l ↦ rw l
        ])
  | inr (inl e) ↦ rw (e, many_fuel)
  | inr (inr e) ↦ rw (e, many_fuel)
]

pub many_peg : {A : Type 0} → Peg A → Peg (List A)
many_peg a s = many_fuel (length s + 1) a s

pub many_failed : {A : Type 0} (a : Peg A) (s : Bytes) → a s ≡ failed → many_peg a s ≡ matched [] s
unfolding many_peg many_fuel
many_failed a s e = let n : length s + 1 ≡ suc (length s) = omega arith in rw n (rw (e, many_fuel))

pub many_matched :
    {A : Type 0} (a : Peg A) (s t : Bytes) (x : A)
    → a s ≡ matched x t
    → length t < length s
    → many_peg a s ≡ prepend x (many_peg a t)
unfolding many_peg many_fuel
many_matched a s t x e h =
    let n : length s + 1 ≡ suc (length s) = omega arith in
    let l : ltb (length t) (length s) ≡ true = ground arith in
    rw n (
      rw (e, many_fuel)
        (rw l
          (ap (prepend x) (many_enough a (length s) (length t + 1) t (omega arith) (omega arith)))))

pub int_lem :
    (w s : Bytes)
    → w ≢ []
    → All IsDigit w
    → Stops IsDigit s
    → number 10 w < 2 ^ 31
    → signed (number_of 10 (2 ^ 31) (take_while is_digit (w ++ s))) ≡ matched (pos (number 10 w)) s
unfolding signed
int_lem w s ne d e h =
    rw (take_while_lem is_digit IsDigit (λ c k. ground arith) (λ c k. ground arith) w s d e)
      (rw (number_of_lem 10 (2 ^ 31) w s ne h))

pub hex_lem :
    (w s : Bytes)
    → w ≢ []
    → All IsHexDigit w
    → Stops IsHexDigit s
    → number 16 w < 2 ^ 32
    → number_of 16 (2 ^ 32) (take_while is_hex (w ++ s)) ≡ matched (number 16 w) s
hex_lem w s ne d e h =
    rw (take_while_lem is_hex IsHexDigit (λ c k. ground arith) (λ c k. ground arith) w s d e)
      (number_of_lem 16 (2 ^ 32) w s ne h)

pub digit_lem : (c : ℕ) (s : Bytes) → IsDigit c → one is_digit (c ∷ s) ≡ matched c s
unfolding one
digit_lem c s h = ground arith

abbrev pub peg : Qi
peg = record {
  Rule = Peg;
  run = λ a s. a s;
  lit = strip;
  some_but = λ cs s. some_of (span cs s);
  many_but = λ cs s. matched (span cs s).0 (span cs s).1;
  digit = one is_digit;
  int = λ s. signed (number_of 10 (2 ^ 31) (take_while is_digit s));
  hex = λ s. number_of 16 (2 ^ 32) (take_while is_hex s);
  seq = λ a b s. behind failed (a s) b;
  expect = λ a b s. behind threw (a s) b;
  many = λ a. many_peg a;
  run-lit = λ w s. refl;
  run-some_but = λ cs s. refl;
  run-many_but = λ cs s. refl;
  run-digit = digit_lem;
  run-int = int_lem;
  run-hex = hex_lem;
  run-seq = λ a b s. refl;
  run-expect = λ a b s. refl;
  run-many-failed = λ a s e. many_failed a s e;
  run-many-matched = λ a s t x e h. many_matched a s t x e h;
}
