-- ===== src/Reads/Locks.antt =====
-- The mutex is held by whoever is behind it, and nothing is posted once `dead` is set.
use black_circle.Prelude.{
  ℕ, ◌≡◌, refl, sym, ap, ◌∙◌, subst, arith, Bool, true, false, ◌&&◌, List, ◌∷◌, Option, none, some,
  ◌==◌,
}
use black_circle.Reads.{
  Phase, unborn, waiting, reading, ended, has_read, locked, posting, Owner, alive, entered,
  signalled, marked, destroyed, Holder, thread, destructor, Status, moved, completion, Label, Step,
  starts, stops, skips, begins, begins_at_once, reads, acquires, gives_up, passes, posts, enters,
  signals, marks, leaves, Steps, here, next, stream_descriptor, Posted,
}

-- Whether a thread has the lock.
abbrev pub inside : Phase → Bool
inside unborn = false
inside waiting = false
inside reading = false
inside ended = false
inside (has_read r) = false
inside (locked r) = true
inside (posting r) = true

abbrev pub is_posting : Phase → Bool
is_posting unborn = false
is_posting waiting = false
is_posting reading = false
is_posting ended = false
is_posting (has_read r) = false
is_posting (locked r) = false
is_posting (posting r) = true

-- Whether the destructor has the lock.
abbrev pub in_destructor : Owner → Bool
in_destructor alive = false
in_destructor entered = true
in_destructor signalled = true
in_destructor marked = true
in_destructor destroyed = false

abbrev pub is_dead : Owner → Bool
is_dead alive = false
is_dead entered = false
is_dead signalled = false
is_dead marked = true
is_dead destroyed = true

abbrev pub is_thread : ℕ → Option Holder → Bool
is_thread i none = false
is_thread i (some (thread j)) = i == j
is_thread i (some destructor) = false

abbrev pub is_destructor : Option Holder → Bool
is_destructor none = false
is_destructor (some (thread j)) = false
is_destructor (some destructor) = true

pub record Locked (s : Status) : Type 0 where
  pub by_thread : (i : ℕ) → inside (s.threads i) ≡ is_thread i s.mtx
  pub by_owner : in_destructor s.owner ≡ is_destructor s.mtx
  pub dies : s.dead ≡ is_dead s.owner
  pub lives : (i : ℕ) → is_posting (s.threads i) && s.dead ≡ false

is_thread_holder : (i : ℕ) (m : Option Holder) → is_thread i m ≡ true → m ≡ some (thread i)
is_thread_holder i none h = cc
is_thread_holder i (some (thread j)) h =
    let same : j ≡ i = ground arith in ap (λ x. some (thread x)) same
is_thread_holder i (some destructor) h = cc

-- Who is behind the lock holds it.
pub held_by :
    (s : Status) (i : ℕ) → Locked s → inside (s.threads i) ≡ true → s.mtx ≡ some (thread i)
held_by s i h e = is_thread_holder i s.mtx (sym (h.by_thread i) ∙ e)

outside :
    (s : Status) (p : Phase) (i : ℕ)
    → s.threads i ≡ p
    → inside p ≡ false
    → inside (s.threads i) ≡ false
outside s p i e f = ap inside e ∙ f

moved-Locked :
    (s : Status) (i : ℕ) (p q : Phase)
    → s.threads i ≡ q
    → inside q ≡ false
    → inside p ≡ false
    → Locked s
    → Locked (moved i p s)
moved-Locked s i p q e out out_p h = record {
  by_thread = λ j. let b = h.by_thread j in let o = outside s q i e out in ground arith;
  by_owner = h.by_owner;
  dies = h.dies;
  lives = λ j. let b = h.lives j in ground arith;
}

-- A thread that leaves the lock.
released-Locked :
    (s : Status) (i : ℕ) (posted : List Posted)
    → inside (s.threads i) ≡ true
    → Locked s
    → Locked (record (moved i ended s) { mtx = none; posted = posted })
released-Locked s i posted e h =
    let held = held_by s i h e in
    record {
      by_thread = λ j. let b = h.by_thread j in ground arith;
      by_owner = ground arith;
      dies = h.dies;
      lives = λ j. let b = h.lives j in ground arith;
    }

module _ (console : Bool) where
  pub Step-Locked : {l : Label} (s t : Status) → Step console s t l → Locked s → Locked t
  Step-Locked s t (starts i o f g) h =
      subst Locked (sym g) (moved-Locked s i waiting unborn f refl refl h)
  Step-Locked s t (stops i c e f g) h =
      let m = moved-Locked s i ended waiting f refl refl h in
      subst Locked (sym g)
        (record { by_thread = m.by_thread; by_owner = m.by_owner; dies = m.dies; lives = m.lives })
  Step-Locked s t (skips i c e f g) h = subst Locked (sym g) h
  Step-Locked s t (begins i c e f g) h =
      subst Locked (sym g) (moved-Locked s i reading waiting f refl refl h)
  Step-Locked s t (begins_at_once i c f g) h =
      subst Locked (sym g) (moved-Locked s i reading waiting f refl refl h)
  Step-Locked s t (reads i r f g) h =
      subst Locked (sym g) (moved-Locked s i (has_read r) reading f refl refl h)
  Step-Locked s t (acquires i r f e g) h = subst Locked (sym g) (record {
    by_thread = λ j. let b = h.by_thread j in ground arith;
    by_owner = ground arith;
    dies = h.dies;
    lives = λ j. let b = h.lives j in ground arith;
  })
  Step-Locked s t (gives_up i r f e g) h =
      subst Locked (sym g) (released-Locked s i s.posted (ap inside f) h)
  Step-Locked s t (passes i r f e g) h = subst Locked (sym g) (record {
    by_thread = λ j. let b = h.by_thread j in let now = ap inside f in ground arith;
    by_owner = h.by_owner;
    dies = h.dies;
    lives = λ j. let b = h.lives j in ground arith;
  })
  Step-Locked s t (posts i e r f g) h =
      subst Locked (sym g) (released-Locked s i (completion i e r ∷ s.posted) (ap inside f) h)
  Step-Locked s t (enters o e g) h = subst Locked (sym g) (record {
    by_thread = λ j. let b = h.by_thread j in ground arith;
    by_owner = refl;
    dies = ground arith;
    lives = h.lives;
  })
  Step-Locked s t (signals o g) h = subst Locked (sym g) (record {
    by_thread = h.by_thread;
    by_owner = ground arith;
    dies = ground arith;
    lives = h.lives;
  })
  Step-Locked s t (marks o g) h = subst Locked (sym g) (record {
    by_thread = h.by_thread;
    by_owner = ground arith;
    dies = refl;
    lives = λ j. let b = h.by_thread j in ground arith;
  })
  Step-Locked s t (leaves o g) h = subst Locked (sym g) (record {
    by_thread = λ j. let b = h.by_thread j in ground arith;
    by_owner = refl;
    dies = ground arith;
    lives = h.lives;
  })

  pub Steps-Locked :
      (t : Status) {ls : List Label} (s : Status) → Steps console t s ls → Locked s → Locked t
  Steps-Locked t s here h = h
  Steps-Locked t s (next {m = m} a b) h = Steps-Locked t m b (Step-Locked s m a h)

pub stream_descriptor-Locked : (posted : List Posted) → Locked (stream_descriptor posted)
stream_descriptor-Locked posted = record {
  by_thread = λ i. refl;
  by_owner = refl;
  dies = refl;
  lives = λ i. refl;
}
