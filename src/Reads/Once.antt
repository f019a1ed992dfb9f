-- ===== src/Reads/Once.antt =====
-- How often a thread's handler is posted.
use black_circle.Prelude.{
  ℕ, ◌+◌, ◌≤◌, ◌≡◌, refl, sym, ap, ◌∙◌, subst, arith, Bool, true, false, not, ◌&&◌, List, [], ◌∷◌,
  none, ◌==◌, if◌then◌else◌,
}
use black_circle.Reads.{
  Phase, unborn, waiting, reading, ended, has_read, locked, posting, Owner, alive, entered,
  signalled, marked, destroyed, Status, moved, completion, Label, Step, starts, stops, skips,
  begins, begins_at_once, reads, acquires, gives_up, passes, posts, enters, signals, marks, leaves,
  Steps, here, next, stream_descriptor, Posted,
}
use black_circle.Prelude.Int.{ℤ, pos, negsuc}
use black_circle.Reads.Locks.{Locked, Step-Locked}

-- How often the handler of a thread was posted.
abbrev pub times : ℕ → List Posted → ℕ
times i [] = 0
times i (p ∷ ps) = if p.handler == i then times i ps + 1 else times i ps

abbrev pub is_ended : Phase → Bool
is_ended unborn = false
is_ended waiting = false
is_ended reading = false
is_ended ended = true
is_ended (has_read r) = false
is_ended (locked r) = false
is_ended (posting r) = false

-- Whether `ev` was set; one wait may have taken it since.
abbrev pub is_warned : Owner → Bool
is_warned alive = false
is_warned entered = false
is_warned signalled = true
is_warned marked = true
is_warned destroyed = true

abbrev pub one_if : Bool → ℕ
one_if true = 1
one_if false = 0

-- A handler is posted once, by a thread at its end; a thread that ends without does so
-- behind `SetEvent`.
pub record Once (s : Status) : Type 0 where
  pub at_most : (i : ℕ) → times i s.posted ≤ one_if (is_ended (s.threads i))
  pub at_least :
      (i : ℕ) → one_if (is_ended (s.threads i) && not (is_warned s.owner)) ≤ times i s.posted
  pub warns : (s.ev && not (is_warned s.owner)) ≡ false

moved-Once :
    (s : Status) (i : ℕ) (p q : Phase)
    → s.threads i ≡ q
    → is_ended q ≡ false
    → is_ended p ≡ false
    → Once s
    → Once (moved i p s)
moved-Once s i p q e f g h = record {
  at_most = λ j. let b = h.at_most j in let o = ap is_ended e ∙ f in ground arith;
  at_least = λ j. let b = h.at_least j in let o = ap is_ended e ∙ f in ground arith;
  warns = h.warns;
}

-- A thread that ends because of the destructor.
told-Once : (s : Status) (i : ℕ) → is_warned s.owner ≡ true → Once s → Once (moved i ended s)
told-Once s i e h = record {
  at_most = λ j. let b = h.at_most j in ground arith;
  at_least = λ j. let b = h.at_least j in ground arith;
  warns = h.warns;
}

-- `dead` is set behind `ev`.
dead_warned : (s : Status) → Locked s → s.dead ≡ true → is_warned s.owner ≡ true
dead_warned s k e = let d = k.dies in ground arith

-- `ev` is set by the destructor alone.
event_warned : (s : Status) → Once s → s.ev ≡ true → is_warned s.owner ≡ true
event_warned s h e = let w = h.warns in ground arith

handler-completion : (i e : ℕ) (r : ℤ) → (completion i e r).handler ≡ i
unfolding completion
handler-completion i e (pos n) = refl
handler-completion i e (negsuc n) = refl

posted-Once :
    (s : Status) (i e : ℕ) (r : ℤ)
    → s.threads i ≡ posting r
    → Once s
    → Once (record (moved i ended s) { mtx = none; posted = completion i e r ∷ s.posted })
posted-Once s i e r f h = record {
  at_most = λ j.
      let b = h.at_most j in
      let o = ap is_ended f in let c = handler-completion i e r in ground arith;
  at_least = λ j. let b = h.at_least j in let c = handler-completion i e r in ground arith;
  warns = h.warns;
}

pub stream_descriptor-Once : Once (stream_descriptor [])
stream_descriptor-Once = record {
  at_most = λ i. omega arith;
  at_least = λ i. omega arith;
  warns = refl;
}

module _ (console : Bool) where
  Step-Once : {l : Label} (s t : Status) → Step console s t l → Locked s → Once s → Once t
  Step-Once s t (starts i o f g) k h =
      subst Once (sym g) (moved-Once s i waiting unborn f refl refl h)
  Step-Once s t (stops i c e f g) k h =
      let m = told-Once s i (event_warned s h e) h in
      subst Once (sym g) (record { at_most = m.at_most; at_least = m.at_least; warns = refl })
  Step-Once s t (skips i c e f g) k h = subst Once (sym g) h
  Step-Once s t (begins i c e f g) k h =
      subst Once (sym g) (moved-Once s i reading waiting f refl refl h)
  Step-Once s t (begins_at_once i c f g) k h =
      subst Once (sym g) (moved-Once s i reading waiting f refl refl h)
  Step-Once s t (reads i r f g) k h =
      subst Once (sym g) (moved-Once s i (has_read r) reading f refl refl h)
  Step-Once s t (acquires i r f e g) k h =
      let m = moved-Once s i (locked r) (has_read r) f refl refl h in
      subst Once (sym g) (record { at_most = m.at_most; at_least = m.at_least; warns = m.warns })
  Step-Once s t (gives_up i r f e g) k h =
      let m = told-Once s i (dead_warned s k e) h in
      subst Once (sym g) (record { at_most = m.at_most; at_least = m.at_least; warns = m.warns })
  Step-Once s t (passes i r f e g) k h =
      subst Once (sym g) (moved-Once s i (posting r) (locked r) f refl refl h)
  Step-Once s t (posts i e r f g) k h = subst Once (sym g) (posted-Once s i e r f h)
  Step-Once s t (enters o e g) k h = subst Once (sym g) (record {
    at_most = h.at_most;
    at_least = λ j. let b = h.at_least j in ground arith;
    warns = let w = h.warns in ground arith;
  })
  Step-Once s t (signals o g) k h = subst Once (sym g) (record {
    at_most = h.at_most;
    at_least = λ j. let b = h.at_least j in ground arith;
    warns = let w = h.warns in ground arith;
  })
  Step-Once s t (marks o g) k h = subst Once (sym g) (record {
    at_most = h.at_most;
    at_least = λ j. let b = h.at_least j in ground arith;
    warns = let w = h.warns in ground arith;
  })
  Step-Once s t (leaves o g) k h = subst Once (sym g) (record {
    at_most = h.at_most;
    at_least = λ j. let b = h.at_least j in ground arith;
    warns = let w = h.warns in ground arith;
  })

  pub Steps-Once :
      (t : Status) {ls : List Label} (s : Status)
      → Steps console t s ls
      → Locked s
      → Once s
      → Once t
  Steps-Once t s here k h = h
  Steps-Once t s (next {m = m} a b) k h =
      Steps-Once t m b (Step-Locked console s m a k) (Step-Once s m a k h)
