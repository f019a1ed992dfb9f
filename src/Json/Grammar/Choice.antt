-- ===== src/Json/Grammar/Choice.antt =====
-- Which alternative of `value_` reads a text, by the first byte behind white space.
use black_circle.Prelude.{ℕ, Bool, false, inl, ◌≡◌, refl, arith, [], ◌∷◌, ◌++◌, Bytes, codes}
use black_circle.Json.{Value, string, double, bool, null}
use black_circle.Json.Grammar.{
  set, int_, string_, object_, array_, value_, past_int_, past_object_, commas, value_pair,
}
use black_circle.Json.Grammar.Pieces.{set_runs, set_stuck}
use black_circle.Json.Grammar.Strings.{string_stuck}
use black_circle.Qi.{Parsed, matched, failed, strip, is_one_of}
use black_circle.Qi.Recursive.{Rules, is_ascii_space, BeginsInt, BeginsReal}
use black_circle.Qi.Recursive.Steps.{Blank, lit_runs, lit_stuck, skip_runs}

module _ {D : Type 0} (q : Rules (Value D) D) (w : Bytes) (blank : Blank w) where
  open q use {Rule, Runs, self, lit, expect, alt, skip, opt, boolean}

  abbrev v : Rule (Value D)
  v = value_ q

  pub token_runs :
      (c : ℕ) (s : Bytes)
      → is_ascii_space c ≡ false
      → Runs v (skip (lit (c ∷ []))) (w ++ (c ∷ s)) (matched tt s)
  token_runs c s k = skip_runs q v _ w c s _ blank k (lit_runs q v (c ∷ []) s)

  pub token_stuck :
      (d c : ℕ) (s : Bytes)
      → is_ascii_space c ≡ false
      → is_one_of (d ∷ []) c ≡ false
      → Runs v (skip (lit (d ∷ []))) (w ++ (c ∷ s)) failed
  unfolding strip
  token_stuck d c s k e =
      skip_runs q v _ w c s failed blank k (lit_stuck q v (d ∷ []) (c ∷ s) (ground arith))

  -- The text behind the white space begins with `c`.
  module _ (c : ℕ) (s : Bytes) (k : is_ascii_space c ≡ false) where
    pub array_stuck : is_one_of (codes "[") c ≡ false → Runs v (array_ q) (w ++ (c ∷ s)) failed
    unfolding array_
    array_stuck e = set_stuck q v _ _ _ (
        set_stuck q v _ _ _ (
          q.run-expect-failed v _ (skip (lit (codes "]"))) _ (
            q.run-expect-failed v (skip (lit (codes "["))) (opt (commas q self)) _
              (token_stuck b'[' c s k e))))

    pub object_stuck : is_one_of (codes "{") c ≡ false → Runs v (object_ q) (w ++ (c ∷ s)) failed
    unfolding object_
    object_stuck e = set_stuck q v _ _ _ (
        set_stuck q v _ _ _ (
          q.run-expect-failed v _ (skip (lit (codes "}"))) _ (
            q.run-expect-failed v (skip (lit (codes "{"))) (opt (commas q (value_pair q))) _
              (token_stuck b'{' c s k e))))

    int_stuck : ¬ BeginsInt c → Runs v (int_ q) (w ++ (c ∷ s)) failed
    int_stuck e = set_stuck q v _ _ _ (
        q.run-seq-failed v (skip q.int64) _ _
          (skip_runs q v _ w c s failed blank k (q.run-int64-failed v (c ∷ s) e)))

    double_stuck :
        Runs v q.double (c ∷ s) failed
        → Runs v (set q {B = Value D} double (skip q.double)) (w ++ (c ∷ s)) failed
    double_stuck h = set_stuck q v _ _ _ (skip_runs q v _ w c s failed blank k h)

    bool_stuck :
        is_one_of (codes "tf") c ≡ false
        → Runs v (set q {B = Value D} bool (skip boolean)) (w ++ (c ∷ s)) failed
    bool_stuck e =
        set_stuck q v _ _ _ (skip_runs q v _ w c s failed blank k (q.run-boolean-failed v c s e))

    -- The alternatives behind the strings, and those behind the numbers.
    pub past_string :
        (r : Parsed (Value D))
        → is_one_of (codes "[\"") c ≡ false
        → Runs v (alt (int_ q) (past_int_ q)) (w ++ (c ∷ s)) r
        → Runs v self (w ++ (c ∷ s)) r
    unfolding value_
    past_string r e h = q.run-self v _ r (
        q.run-alt-failed v _ _ _ r (array_stuck (ground arith)) (
          q.run-alt-failed v _ _ _ r
            (set_stuck q v _ _ _ (string_stuck q v w c s blank k (ground arith))) h))

    pub past_numbers :
        (r : Parsed (Value D))
        → is_one_of (codes "[\"") c ≡ false
        → ¬ BeginsInt c
        → Runs v q.double (c ∷ s) failed
        → Runs v (alt (object_ q) (past_object_ q)) (w ++ (c ∷ s)) r
        → Runs v self (w ++ (c ∷ s)) r
    past_numbers r e n d h =
        past_string r e
          (q.run-alt-failed v _ _ _ r (int_stuck n) (q.run-alt-failed v _ _ _ r (double_stuck d) h))

    pub past_object :
        (r : Parsed (Value D))
        → is_one_of (codes "{[\"") c ≡ false
        → ¬ BeginsInt c
        → Runs v q.double (c ∷ s) failed
        → Runs v (past_object_ q) (w ++ (c ∷ s)) r
        → Runs v self (w ++ (c ∷ s)) r
    past_object r e n d h =
        past_numbers r (ground arith) n d
          (q.run-alt-failed v _ _ _ r (object_stuck (ground arith)) h)

    pub choose_string :
        (x : Value D) (t : Bytes)
        → is_one_of (codes "[") c ≡ false
        → Runs v (set q string (string_ q)) (w ++ (c ∷ s)) (matched x t)
        → Runs v self (w ++ (c ∷ s)) (matched x t)
    unfolding value_
    choose_string x t e h =
        q.run-self v _ _ (q.run-alt-failed v _ _ _ _ (array_stuck e) (q.run-alt v _ _ _ t x h))

    pub choose_object :
        (x : Value D) (t : Bytes)
        → is_one_of (codes "[\"") c ≡ false
        → ¬ BeginsReal c
        → Runs v (object_ q) (w ++ (c ∷ s)) (matched x t)
        → Runs v self (w ++ (c ∷ s)) (matched x t)
    choose_object x t e n h =
        past_numbers (matched x t) e (λ i. n (inl i)) (q.run-double-failed v (c ∷ s) n)
          (q.run-alt v _ _ _ t x h)

    pub choose_bool :
        (b : Bool) (t : Bytes)
        → is_one_of (codes "{[\"") c ≡ false
        → ¬ BeginsReal c
        → Runs v boolean (c ∷ s) (matched b t)
        → Runs v self (w ++ (c ∷ s)) (matched (bool b) t)
    choose_bool b t e n h =
        past_object (matched (bool b) t) e (λ i. n (inl i)) (q.run-double-failed v (c ∷ s) n)
          (q.run-alt v _ _ _ t (bool b)
            (set_runs q v bool (skip boolean) _ t b (skip_runs q v _ w c s _ blank k h)))

  pub null_runs : (s : Bytes) → Runs v self (w ++ (codes "null" ++ s)) (matched null s)
  null_runs s =
      past_object b'n' (codes "ull" ++ s) refl (matched null s) refl (λ i. omega arith)
        (q.run-double-nan v b'u' (codes "ll" ++ s) refl)
        (q.run-alt-failed v _ _ _ (matched null s) (bool_stuck b'n' (codes "ull" ++ s) refl refl) (
          set_runs q v (λ u. null) (skip (lit (codes "null"))) _ s tt
            (skip_runs q v _ w b'n' (codes "ull" ++ s) _ blank refl
              (lit_runs q v (codes "null") s))))

  -- No value begins with a `]`.
  pub self_stuck : (s : Bytes) → Runs v self (w ++ (b']' ∷ s)) failed
  unfolding strip
  self_stuck s =
      past_object b']' s refl failed refl (λ i. omega arith)
        (q.run-double-failed v (b']' ∷ s) (λ i. ground (arith, i)))
        (q.run-alt-failed v _ _ _ failed (bool_stuck b']' s refl refl) (
          set_stuck q v _ _ _ (
            skip_runs q v _ w b']' s failed blank refl
              (lit_stuck q v (codes "null") (b']' ∷ s) refl))))

  pub choose_array :
      (s t : Bytes) (x : Value D) → Runs v (array_ q) s (matched x t) → Runs v self s (matched x t)
  unfolding value_
  choose_array s t x h = q.run-self v _ _ (q.run-alt v _ _ _ t x h)
