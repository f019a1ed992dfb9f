-- ===== src/Qi/Rules.antt =====
-- Rules that follow from the interface: what a grammar reads of a text that is put together as the
-- grammar says.
use black_circle.Prelude.{
  ◌<◌, true, false, ◌≡◌, ◌≢◌, refl, ap, ◌∙◌, arith, List, [], ◌∷◌, ◌++◌, append_assoc, map, Bytes,
  All, length, length-append,
}
use black_circle.Qi.{matched, failed, strip, is_one_of, span, some_of, prepend, Qi}

-- The bytes of a word are none of `cs`.
abbrev pub IsWord : Bytes → Bytes → Type 0
IsWord cs w = All (λ c. is_one_of cs c ≡ false) w

-- The text goes on with a byte of `cs`.
abbrev pub Ends : Bytes → Bytes → Type 0
Ends cs [] = Unit
Ends cs (c ∷ s) = is_one_of cs c ≡ true

pub strip_lem : (w s : Bytes) → strip w (w ++ s) ≡ matched tt s
unfolding strip
strip_lem [] s = refl
strip_lem (c ∷ w) s = ground (arith, strip_lem w s)

pub span_lem : (cs w s : Bytes) → IsWord cs w → Ends cs s → span cs (w ++ s) ≡ (w, s)
unfolding span
span_lem cs [] [] h e = refl
span_lem cs [] (c ∷ s) h e = rw e
span_lem cs (c ∷ w) s h e = rw (h.0, span_lem cs w s h.1 e)

-- Texts one after the other.
unfoldable pub print_all : {B : Type 0} → (B → Bytes) → List B → Bytes
print_all print [] = []
print_all print (x ∷ xs) = print x ++ print_all print xs

module _ (q : Qi) where
  open q use {Rule, run, lit, some_but, many_but, seq, expect, many}

  pub lit_matched : (w s : Bytes) → run (lit w) (w ++ s) ≡ matched tt s
  lit_matched w s = q.run-lit w (w ++ s) ∙ strip_lem w s

  pub word_matched :
      (cs w s : Bytes) → w ≢ [] → IsWord cs w → Ends cs s → run (some_but cs) (w ++ s) ≡ matched w s
  word_matched cs [] s ne h e = absurd (ne refl)
  word_matched cs (c ∷ w) s ne h e =
      q.run-some_but cs (c ∷ (w ++ s)) ∙ ap some_of (span_lem cs (c ∷ w) s h e)

  pub many_but_matched :
      (cs w s : Bytes) → IsWord cs w → Ends cs s → run (many_but cs) (w ++ s) ≡ matched w s
  many_but_matched cs w s h e =
      q.run-many_but cs (w ++ s) ∙ ap (λ (p : Bytes × Bytes). matched p.0 p.1) (span_lem cs w s h e)

  module _ {A B : Type 0} (a : Rule A) (b : Rule B) {s t u : Bytes} {x : A} {y : B} where
    pub seq_matched :
        run a s ≡ matched x t → run b t ≡ matched y u → run (seq a b) s ≡ matched (x, y) u
    seq_matched f g = q.run-seq a b s ∙ rw f (rw g)

    pub expect_matched :
        run a s ≡ matched x t → run b t ≡ matched y u → run (expect a b) s ≡ matched (x, y) u
    expect_matched f g = q.run-expect a b s ∙ rw f (rw g)

  module _ {A B : Type 0} (a : Rule A) (b : Rule B) {s : Bytes} where
    pub seq_failed : run a s ≡ failed → run (seq a b) s ≡ failed
    seq_failed f = q.run-seq a b s ∙ rw f

    pub seq_stuck :
        {t : Bytes} {x : A} → run a s ≡ matched x t → run b t ≡ failed → run (seq a b) s ≡ failed
    seq_stuck f g = q.run-seq a b s ∙ rw f (rw g)

    pub expect_failed : run a s ≡ failed → run (expect a b) s ≡ failed
    expect_failed f = q.run-expect a b s ∙ rw f

  -- `*a` on the texts of some values, one after the other, with a text behind them on which `a`
  -- fails.
  module _ {A B : Type 0} (a : Rule A) (print : B → Bytes) (value : B → A) (Good : B → Type 0) where
    pub many_matched :
        ((x : B) (s : Bytes) → Good x → run a (print x ++ s) ≡ matched (value x) s)
        → ((x : B) → Good x → 0 < length (print x))
        → (rest : Bytes) → run a rest ≡ failed
        → (xs : List B) → All Good xs
        → run (many a) (print_all print xs ++ rest) ≡ matched (map value xs) rest
    unfolding print_all
    many_matched reads longer rest stop [] h = q.run-many-failed a rest stop
    many_matched reads longer rest stop (x ∷ xs) h =
        let s = print_all print xs ++ rest in
        ap (run (many a)) (append_assoc (print x) (print_all print xs) rest)
        ∙ q.run-many-matched a (print x ++ s) s (value x) (reads x s h.0)
            (omega (arith, longer x h.0, length-append (print x) s))
        ∙ ap (prepend (value x)) (many_matched reads longer rest stop xs h.1)
