-- ===== src/Tests/Rules.antt =====
-- An instance of the interface of recursive rules.
use black_circle.Prelude.{
  ℕ, true, false, not, ◌&&◌, ◌≡◌, ◌⊎◌, refl, ◌∙◌, arith, List, [], ◌∷◌, ◌++◌, inl, Bytes, codes,
  leb,
}
use black_circle.Qi.{matched, failed, threw, strip, is_one_of, behind, pair_with, IsDigit, Stops}
use black_circle.Qi.Recursive.{Rules, trim, next_byte, BeginsReal}
use black_circle.Tests.Peg.{many_peg, many_failed, many_matched}
use black_circle.Tests.Recursive.{
  Open, Comes, at_once, self-Comes, from_one, from_two, either, without, or_none, act, four,
  four_lem, integer, integer_lem, integer-minus, integer_failed, decimal, decimal_lem,
  decimal_failed, decimal_nil, yes_or_no,
}

module _ (V : Type 0) where
  abbrev seq : {A B : Type 0} → Open V A → Open V B → Open V (A × B)
  seq a b p s = behind failed (a p s) (b p)

  abbrev expect : {A B : Type 0} → Open V A → Open V B → Open V (A × B)
  expect a b p s = behind threw (a p s) (b p)

  abbrev many : {A : Type 0} → Open V A → Open V (List A)
  many a p s = many_peg (a p) s

  pub not_failed :
      (c : ℕ) (s : Bytes) → is_one_of (codes "tf") c ≡ false → yes_or_no (c ∷ s) ≡ failed
  unfolding yes_or_no strip
  not_failed c s e = ground arith

  pub is_true : (s : Bytes) → yes_or_no (codes "true" ++ s) ≡ matched true s
  unfolding yes_or_no strip
  is_true s = refl

  pub is_false : (s : Bytes) → yes_or_no (codes "false" ++ s) ≡ matched false s
  unfolding yes_or_no strip
  is_false s = refl

  pub no_decimal : (s : Bytes) → Stops BeginsReal s → decimal s ≡ failed
  no_decimal [] h = decimal_nil
  no_decimal (c ∷ s) h = decimal_failed c s (λ i. h (inl (inl i)))

  -- What ends a number with an exponent ends one without.
  pub weaker :
      (s : Bytes) → Stops (λ c. IsDigit c ⊎ (is_one_of (codes "eE") c ≡ true)) s → Stops IsDigit s
  weaker [] h = tt
  weaker (c ∷ s) h = λ i. h (inl i)

  abbrev pub rules : Rules V Bytes
  rules = record {
    Rule = Open V;
    Runs = λ v a s r. Comes V v a s r;
    self = λ p. p;
    lit = λ w p. strip w;
    one_of = λ cs p. next_byte (is_one_of cs);
    ascii_but = λ cs p. next_byte (λ c. leb c 127 && not (is_one_of cs c));
    eps = λ p s. matched tt s;
    hex4 = λ p. four;
    int64 = λ p. integer;
    double = λ p. decimal;
    boolean = λ p. yes_or_no;
    to_double = λ w. w;
    skip = λ a p s. a p (trim s);
    seq = seq;
    expect = expect;
    alt = λ a b p s. either (a p s) (b p s);
    many = many;
    not_at = λ a p s. without s (a p s);
    opt = λ a p s. or_none s (a p s);
    action = λ f a p s. act f (a p s);
    run-self = λ v s r h. self-Comes V v s r h;
    run-lit = λ v w s. at_once V v (strip w) s _ refl;
    run-one_of = λ v cs s. at_once V v (next_byte (is_one_of cs)) s _ refl;
    run-ascii_but =
        λ v c s cs. at_once V v (next_byte (λ c. leb c 127 && not (is_one_of cs c))) (c ∷ s) _ refl;
    run-eps = λ v s. at_once V v (λ s. matched tt s) s _ refl;
    run-hex4 = λ v w s e h. at_once V v four (w ++ s) _ (four_lem w s e h);
    run-int64 = λ v w s n d e h. at_once V v integer (w ++ s) _ (integer_lem w s n d e h);
    run-int64-minus = λ v w s n d e h. at_once V v integer _ _ (integer-minus w s n d e h);
    run-int64-failed = λ v s h. at_once V v integer s _ (integer_failed s h);
    run-double =
        λ v w x s n m d f e. at_once V v decimal _ _ (decimal_lem w x s n m d f (weaker s e));
    run-double-failed = λ v s h. at_once V v decimal s _ (no_decimal s h);
    run-double-nan =
        λ v c s e. at_once V v decimal _ _ (decimal_failed b'n' (c ∷ s) (λ i. omega arith));
    run-true = λ v s. at_once V v yes_or_no _ _ (is_true s);
    run-false = λ v s. at_once V v yes_or_no _ _ (is_false s);
    run-boolean-failed = λ v c s e. at_once V v yes_or_no _ _ (not_failed c s e);
    run-skip = λ v a s r h. from_one V v a (λ p s. a p (trim s)) (trim s) s r r (λ p e. e) h;
    run-seq = λ v a b s t x r h k.
        from_two V v a b (seq a b) s t s (matched x t) r (pair_with failed x r) (λ p e f. rw (e, f))
          h k;
    run-seq-failed = λ v a b s h. from_one V v a (seq a b) s s failed failed (λ p e. rw e) h;
    run-expect = λ v a b s t x r h k.
        from_two V v a b (expect a b) s t s (matched x t) r (pair_with threw x r)
          (λ p e f. rw (e, f)) h k;
    run-expect-failed = λ v a b s h. from_one V v a (expect a b) s s failed failed (λ p e. rw e) h;
    run-alt = λ v a b s t x h.
        from_one V v a (λ p s. either (a p s) (b p s)) s s (matched x t) (matched x t) (λ p e. rw e)
          h;
    run-alt-failed = λ v a b s r h k.
        from_two V v a b (λ p s. either (a p s) (b p s)) s s s failed r r (λ p e f. rw (e, f)) h k;
    run-many = λ v a s t u x xs h l k.
        from_two V v a (many a) (many a) s t s (matched x t) (matched xs u) (matched (x ∷ xs) u)
          (λ p e f. many_matched (a p) s t x e l ∙ rw f) h k;
    run-many-failed = λ v a s h.
        from_one V v a (many a) s s failed (matched [] s) (λ p e. many_failed (a p) s e) h;
    run-not_at = λ v a s h.
        from_one V v a (λ p s. without s (a p s)) s s failed (matched tt s) (λ p e. rw e) h;
    run-not_at-failed = λ v a s t x h.
        from_one V v a (λ p s. without s (a p s)) s s (matched x t) failed (λ p e. rw e) h;
    run-opt = λ v a s t xs h.
        from_one V v a (λ p s. or_none s (a p s)) s s (matched xs t) (matched xs t) (λ p e. rw e) h;
    run-opt-failed = λ v a s h.
        from_one V v a (λ p s. or_none s (a p s)) s s failed (matched [] s) (λ p e. rw e) h;
    run-action = λ v f a s t x y h k.
        from_one V v a (λ p s. act f (a p s)) s s (matched x t) (matched y t) (λ p e. rw (e, k)) h;
    run-action-refused = λ v f a s t x h k.
        from_one V v a (λ p s. act f (a p s)) s s (matched x t) failed (λ p e. rw (e, k)) h;
    run-action-failed =
        λ v f a s h. from_one V v a (λ p s. act f (a p s)) s s failed failed (λ p e. rw e) h;
  }
