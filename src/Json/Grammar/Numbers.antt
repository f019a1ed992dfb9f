-- ===== src/Json/Grammar/Numbers.antt =====
-- How JSON numbers are read.
use black_circle.Prelude.{
  ℕ, ◌^◌, ◌≤◌, ◌<◌, true, false, ◌⊎◌, ◌≡◌, refl, sym, subst, arith, [], ◌∷◌, ◌++◌, Bytes, codes,
}
use black_circle.Prelude.Int.{ℤ, pos}
use black_circle.Json.{Value, int, double}
use black_circle.Json.Grammar.{int_, value_, past_int_}
use black_circle.Json.Grammar.Doc.{IsNumber}
use black_circle.Json.Grammar.Pieces.{set_runs, set_stuck}
use black_circle.Json.Grammar.Choice.{token_runs, token_stuck, past_string}
use black_circle.Qi.{matched, failed, is_one_of, IsDigit, Stops, number}
use black_circle.Qi.Recursive.{Rules, is_ascii_space, minus}
use black_circle.Qi.Recursive.Steps.{Blank, skip_runs}

-- A text that begins with white space `w` and the end of a value.
pub record IsEnd (w s : Bytes) : Type 0 where
  pub next : ℕ
  pub after : Bytes
  pub text : s ≡ w ++ (next ∷ after)
  pub ends : is_one_of (codes ",]}") next ≡ true

-- Neither white space nor the end of a value is of a kind.
Stops-IsEnd :
    (P : ℕ → Type 0) (w : Bytes) (c : ℕ) (t : Bytes)
    → ((d : ℕ) → is_ascii_space d ≡ true → ¬ P d)
    → ¬ P c
    → Blank w
    → Stops P (w ++ (c ∷ t))
Stops-IsEnd P [] c t h k b = k
Stops-IsEnd P (d ∷ w) c t h k b = h d b.0

module _ {D : Type 0} (q : Rules (Value D) D) (w : Bytes) (blank : Blank w) (s : Bytes)
    (e : IsEnd w s) where
  open q use {Rule, Runs, self, lit, seq, not_at, skip, int64}

  digits-Stops : Stops IsDigit s
  digits-Stops =
      rw e.text
        (Stops-IsEnd IsDigit w e.next e.after (λ d h. ground arith) (ground (arith, e.ends)) blank)

  exponent-Stops : Stops (λ c. IsDigit c ⊎ (is_one_of (codes "eE") c ≡ true)) s
  exponent-Stops = rw e.text (
      Stops-IsEnd (λ c. IsDigit c ⊎ (is_one_of (codes "eE") c ≡ true)) w e.next e.after
        (λ d h. ground arith) (ground (arith, e.ends)) blank)

  no_point : Runs (value_ q) (not_at (skip (lit (codes ".")))) s (matched tt s)
  no_point = q.run-not_at (value_ q) _ s (
      subst (λ t. Runs (value_ q) (skip (lit (codes "."))) t failed) (sym e.text)
        (token_stuck q w blank b'.' e.next e.after (ground (arith, e.ends))
          (ground (arith, e.ends))))

  -- An integer behind white space.
  integer_runs :
      (c : ℕ) (x : Bytes) (z : ℤ)
      → is_ascii_space c ≡ false
      → is_one_of (codes "[\"") c ≡ false
      → Runs (value_ q) int64 (c ∷ (x ++ s)) (matched z s)
      → Runs (value_ q) self (w ++ (c ∷ (x ++ s))) (matched (int z) s)
  integer_runs c x z k f h = past_string q w blank c (x ++ s) k (matched (int z) s) f (
      q.run-alt (value_ q) (int_ q) (past_int_ q) _ s (int z) (
        set_runs q (value_ q) (λ p. int p.0) _ _ s (z, tt)
          (q.run-seq (value_ q) (skip int64) _ _ s z (matched tt s)
            (skip_runs q (value_ q) int64 w c (x ++ s) _ blank k h) no_point)))

  pub natural_runs :
      (x : Bytes)
      → IsNumber x
      → number 10 x < 2 ^ 63
      → Runs (value_ q) self (w ++ (x ++ s)) (matched (int (pos (number 10 x))) s)
  natural_runs [] (ne, d) h = absurd (ne refl)
  natural_runs (c ∷ x) (ne, d) h =
      integer_runs c x (pos (number 10 (c ∷ x))) (ground (arith, d.0)) (ground (arith, d.0))
        (q.run-int64 (value_ q) (c ∷ x) s ne d digits-Stops h)

  pub negative_runs :
      (x : Bytes)
      → IsNumber x
      → number 10 x ≤ 2 ^ 63
      → Runs (value_ q) self (w ++ (b'-' ∷ (x ++ s))) (matched (int (minus (number 10 x))) s)
  negative_runs x (ne, d) h =
      integer_runs b'-' x (minus (number 10 x)) refl refl
        (q.run-int64-minus (value_ q) x s ne d digits-Stops h)

  -- The integer that a number with a fraction begins with is refused.
  pub real_runs :
      (x y : Bytes)
      → IsNumber x
      → number 10 x < 2 ^ 63
      → IsNumber y
      → Runs
          (value_ q)
          self
          (w ++ (x ++ (b'.' ∷ (y ++ s))))
          (matched (double (q.to_double (x ++ (b'.' ∷ y)))) s)
  real_runs [] y (ne, d) h n = absurd (ne refl)
  real_runs (c ∷ x) y (ne, d) h (yne, m) =
      let rest = b'.' ∷ (y ++ s) in
      let k : is_ascii_space c ≡ false = ground (arith, d.0) in
      past_string q w blank c (x ++ rest) k
        (matched (double (q.to_double (c ∷ (x ++ (b'.' ∷ y))))) s) (ground (arith, d.0))
        (q.run-alt-failed (value_ q) (int_ q) (past_int_ q) _ _
          (set_stuck q (value_ q) _ _ _ (
            q.run-seq (value_ q) (skip int64) _ _ rest (pos (number 10 (c ∷ x))) failed
              (skip_runs q (value_ q) int64 w c (x ++ rest) _ blank k
                (q.run-int64 (value_ q) (c ∷ x) rest ne d (λ i. omega arith) h))
              (q.run-not_at-failed (value_ q) _ rest (y ++ s) tt
                (token_runs q [] tt b'.' (y ++ s) refl))))
          (q.run-alt (value_ q) _ _ _ s _ (
            set_runs q (value_ q) double (skip q.double) _ s (q.to_double (c ∷ (x ++ (b'.' ∷ y)))) (
              skip_runs q (value_ q) q.double w c (x ++ rest) _ blank k
                (q.run-double (value_ q) (c ∷ x) y s ne yne d m exponent-Stops)))))
