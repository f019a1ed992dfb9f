-- ===== src/Qi/Recursive/Steps.antt =====
-- Runs of rules that are put together, and of rules behind white space.
use black_circle.Prelude.{ℕ, true, false, ◌≡◌, subst, [], ◌∷◌, ◌++◌, Bytes, All}
use black_circle.Qi.{Parsed, matched, failed, strip, is_one_of}
use black_circle.Qi.Rules.{strip_lem}
use black_circle.Qi.Recursive.{Rules, is_ascii_space, trim}

abbrev pub Blank : Bytes → Type 0
Blank = All (λ c. is_ascii_space c ≡ true)

-- White space is skipped, and what follows it is kept if it is none.
pub trim-append :
    (w : Bytes) (c : ℕ) (s : Bytes)
    → Blank w
    → is_ascii_space c ≡ false
    → trim (w ++ (c ∷ s)) ≡ c ∷ s
unfolding trim
trim-append [] c s h k = rw k
trim-append (d ∷ w) c s h k = rw (h.0, trim-append w c s h.1 k)

module _ {V D : Type 0} (q : Rules V D) (v : q.Rule V) where
  open q use {Rule, Runs, lit, one_of, skip, seq, expect, alt, action}

  pub lit_runs : (w s : Bytes) → Runs v (lit w) (w ++ s) (matched tt s)
  lit_runs w s = subst (Runs v (lit w) (w ++ s)) (strip_lem w s) (q.run-lit v w (w ++ s))

  pub lit_stuck : (w s : Bytes) → strip w s ≡ failed → Runs v (lit w) s failed
  lit_stuck w s e = subst (Runs v (lit w) s) e (q.run-lit v w s)

  pub one_of_runs :
      (cs : Bytes) (c : ℕ) (s : Bytes)
      → is_one_of cs c ≡ true
      → Runs v (one_of cs) (c ∷ s) (matched c s)
  one_of_runs cs c s e = subst (Runs v (one_of cs) (c ∷ s)) (rw e) (q.run-one_of v cs (c ∷ s))

  pub one_of_stuck :
      (cs : Bytes) (c : ℕ) (s : Bytes) → is_one_of cs c ≡ false → Runs v (one_of cs) (c ∷ s) failed
  one_of_stuck cs c s e = subst (Runs v (one_of cs) (c ∷ s)) (rw e) (q.run-one_of v cs (c ∷ s))

  pub skip_runs :
      {A : Type 0} (a : Rule A) (w : Bytes) (c : ℕ) (s : Bytes) (r : Parsed A)
      → Blank w
      → is_ascii_space c ≡ false
      → Runs v a (c ∷ s) r
      → Runs v (skip a) (w ++ (c ∷ s)) r
  skip_runs a w c s r h k run = q.run-skip v a (w ++ (c ∷ s)) r (rw (trim-append w c s h k) run)
