-- ===== src/Json/Grammar/Lists.antt =====
-- How lists with commas are read, and the pairs of an object.
use black_circle.Prelude.{
  ℕ, ◌≤◌, false, ◌≡◌, refl, ap, subst, arith, List, [], ◌∷◌, ◌++◌, map, Bytes, codes, length,
  length-append, All,
}
use black_circle.Json.{Value}
use black_circle.Json.Grammar.{inner, commas, value_, string_, value_pair}
use black_circle.Json.Grammar.Choice.{token_runs, token_stuck}
use black_circle.Json.Grammar.Doc.{Piece, bytes_of, quote, IsPiece}
use black_circle.Json.Grammar.Numbers.{IsEnd}
use black_circle.Json.Grammar.Pieces.{set_runs}
use black_circle.Json.Grammar.Strings.{string_runs}
use black_circle.Qi.{matched, failed, is_one_of}
use black_circle.Qi.Recursive.{Rules, is_ascii_space}
use black_circle.Qi.Recursive.Steps.{Blank}

-- An attribute behind a comma.
abbrev pub tag : {A : Type 0} → A → Unit {0} × A
tag x = (tt, x)

untag : {A : Type 0} (xs : List A) → map (λ p. p.1) (map tag xs) ≡ xs
untag [] = refl
untag (x ∷ xs) = ap (◌∷◌ x) (untag xs)

module _ {D : Type 0} (q : Rules (Value D) D) (w : Bytes) (blank : Blank w) where
  open q use {Rule, Runs, self, lit, seq, expect, many, opt, skip, to_double}

  abbrev v : Rule (Value D)
  v = value_ q

  pub comma-IsEnd : (s t : Bytes) → s ≡ w ++ (b',' ∷ t) → IsEnd w s
  comma-IsEnd s t e = record { next = b','; after = t; text = e; ends = refl }

  -- A list with its brackets `o` and `c`: empty, and with a first item.
  pub empty_runs :
      {A : Type 0} (o c : ℕ) (a : Rule (List A)) (s : Bytes)
      → is_ascii_space o ≡ false
      → is_ascii_space c ≡ false
      → Runs v a (w ++ (c ∷ s)) failed
      → Runs v
          (inner q (expect (expect (skip (lit (o ∷ []))) (opt a)) (skip (lit (c ∷ [])))))
          (w ++ (o ∷ (w ++ (c ∷ s))))
          (matched [] s)
  empty_runs o c a s ko kc h =
      set_runs q v _ _ _ s ((tt, []), tt)
        (q.run-expect v _ (skip (lit (c ∷ []))) _ (w ++ (c ∷ s)) (tt, []) (matched tt s)
          (q.run-expect v (skip (lit (o ∷ []))) (opt a) _ (w ++ (c ∷ s)) tt
            (matched [] (w ++ (c ∷ s))) (token_runs q w blank o (w ++ (c ∷ s)) ko)
            (q.run-opt-failed v a _ h))
          (token_runs q w blank c s kc))

  pub full_runs :
      {A : Type 0} (o c : ℕ) (a : Rule A) (t u s : Bytes) (x : A) (xs : List A)
      → is_ascii_space o ≡ false
      → is_ascii_space c ≡ false
      → Runs v a t (matched x u)
      → Runs v (many (seq (skip (lit (codes ","))) a)) u (matched (map tag xs) (w ++ (c ∷ s)))
      → Runs v
          (inner q (expect (expect (skip (lit (o ∷ []))) (opt (commas q a))) (skip (lit (c ∷ [])))))
          (w ++ (o ∷ t))
          (matched (x ∷ xs) s)
  full_runs o c a t u s x xs ko kc h more =
      let close = w ++ (c ∷ s) in
      let items : Runs v (commas q a) t (matched (x ∷ xs) close) =
        subst (λ l. Runs v (commas q a) t (matched (x ∷ l) close)) (untag xs)
          (set_runs q v (λ p. p.0 ∷ map (λ r. r.1) p.1) _ t close (x, map tag xs)
            (q.run-seq v a _ t u x (matched (map tag xs) close) h more)) in
      set_runs q v _ _ _ s ((tt, x ∷ xs), tt)
        (q.run-expect v _ (skip (lit (c ∷ []))) _ close (tt, x ∷ xs) (matched tt s)
          (q.run-expect v (skip (lit (o ∷ []))) (opt (commas q a)) _ t tt (matched (x ∷ xs) close)
            (token_runs q w blank o t ko) (q.run-opt v (commas q a) t close (x ∷ xs) items))
          (token_runs q w blank c s kc))

  -- One more item behind a comma, and none.
  pub next_runs :
      {A : Type 0} (a : Rule A) (t u s : Bytes) (x : A) (xs : List A)
      → Runs v a t (matched x u)
      → length u ≤ length t
      → Runs v (many (seq (skip (lit (codes ","))) a)) u (matched (map tag xs) s)
      → Runs v
          (many (seq (skip (lit (codes ","))) a))
          (w ++ (b',' ∷ t))
          (matched (map tag (x ∷ xs)) s)
  next_runs a t u s x xs h less more =
      q.run-many v (seq (skip (lit (codes ","))) a) (w ++ (b',' ∷ t)) u s (tt, x) (map tag xs)
        (q.run-seq v (skip (lit (codes ","))) a _ t tt (matched x u)
          (token_runs q w blank b',' t refl) h)
        (omega (arith, length-append w (b',' ∷ t))) more

  pub last_runs :
      {A : Type 0} (a : Rule A) (c : ℕ) (s : Bytes)
      → is_ascii_space c ≡ false
      → is_one_of (codes ",") c ≡ false
      → Runs v (many (seq (skip (lit (codes ","))) a)) (w ++ (c ∷ s)) (matched [] (w ++ (c ∷ s)))
  last_runs a c s k e =
      q.run-many-failed v (seq (skip (lit (codes ","))) a) _
        (q.run-seq-failed v (skip (lit (codes ","))) a _ (token_stuck q w blank b',' c s k e))

  pub pair_runs :
      (k : List Piece) (t s : Bytes) (x : Value D)
      → All IsPiece k
      → Runs v self t (matched x s)
      → Runs v (value_pair q) (quote w k ++ (w ++ (b':' ∷ t))) (matched (bytes_of k, x) s)
  unfolding value_pair
  pair_runs k t s x h r =
      set_runs q v (λ p. (p.0.0, p.1)) _ _ s ((bytes_of k, tt), x)
        (q.run-expect v (expect (string_ q) (skip (lit (codes ":")))) self _ t (bytes_of k, tt)
          (matched x s)
          (q.run-expect v (string_ q) (skip (lit (codes ":"))) _ (w ++ (b':' ∷ t)) (bytes_of k)
            (matched tt t) (string_runs q v w k (w ++ (b':' ∷ t)) blank h)
            (token_runs q w blank b':' t refl))
          r)
