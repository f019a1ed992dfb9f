-- ===== src/Reads/Ends.antt =====
-- The destructor waits for no `read`.
use black_circle.Prelude.{
  ℕ, ◌+◌, ◌≤◌, ◌≡◌, refl, arith, Bool, true, false, List, [], ◌∷◌, Option, none, some, length, All,
  ◌==◌,
}
use black_circle.Reads.{
  Phase, unborn, waiting, reading, ended, has_read, locked, posting, Owner, alive, entered,
  signalled, marked, destroyed, Holder, thread, destructor, Status, moved, completion, Label, enter,
  signal, mark, leave, pass, give_up, post, Step, passes, posts, enters, signals, marks, leaves,
  Steps, here, next, stream_descriptor, Posted,
}
use black_circle.Prelude.Int.{ℤ}
use black_circle.Reads.Locks.{inside, Locked, Steps-Locked, stream_descriptor-Locked}

-- The steps of the destructor, and those of a thread that has the lock.
abbrev pub is_short : Label → Bool
is_short enter = true
is_short signal = true
is_short mark = true
is_short leave = true
is_short (pass i) = true
is_short (give_up i) = true
is_short (post i e) = true
is_short _ = false

-- From `s` the destructor can return, by `n` such steps at most.
record Ends (console : Bool) (s : Status) (n : ℕ) : Type 0 where
  labels : List Label
  last : Status
  steps : Steps console last s labels
  gone : last.owner ≡ destroyed
  few : length labels ≤ n
  short : All (λ l. is_short l ≡ true) labels

module _ (console : Bool) where
  after_step :
      {l : Label} (s t : Status) (n : ℕ)
      → Step console s t l
      → is_short l ≡ true
      → Ends console t n
      → Ends console s (n + 1)
  after_step {l} s t n a f h = record {
    labels = l ∷ h.labels;
    last = h.last;
    steps = next a h.steps;
    gone = h.gone;
    few = let b = h.few in omega arith;
    short = (f, h.short);
  }

  from_destroyed : (s : Status) → s.owner ≡ destroyed → Ends console s 0
  from_destroyed s e = record {
    labels = [];
    last = s;
    steps = here;
    gone = e;
    few = omega arith;
    short = tt;
  }

  from_marked : (s : Status) → s.owner ≡ marked → Ends console s 1
  from_marked s e =
      let t = record s { owner = destroyed; mtx = none } in
      after_step s t 0 (leaves e refl) refl (from_destroyed t refl)

  from_signalled : (s : Status) → s.owner ≡ signalled → Ends console s 2
  from_signalled s e =
      let t = record s { owner = marked; dead = true } in
      after_step s t 1 (marks e refl) refl (from_marked t refl)

  from_entered : (s : Status) → s.owner ≡ entered → Ends console s 3
  from_entered s e =
      let t = record s { owner = signalled; ev = true } in
      after_step s t 2 (signals e refl) refl (from_signalled t refl)

  from_free : (s : Status) → s.owner ≡ alive → s.mtx ≡ none → Ends console s 4
  from_free s e f =
      let t = record s { owner = entered; mtx = some destructor } in
      after_step s t 3 (enters e f refl) refl (from_entered t refl)

  from_posting :
      (s : Status) (i : ℕ) (r : ℤ) → s.owner ≡ alive → s.threads i ≡ posting r → Ends console s 5
  from_posting s i r e f =
      let t = record (moved i ended s) { mtx = none; posted = completion i 0 r ∷ s.posted } in
      after_step s t 4 (posts i 0 r f refl) refl (from_free t e refl)

  from_locked :
      (s : Status) (i : ℕ) (r : ℤ)
      → s.owner ≡ alive
      → s.dead ≡ false
      → s.threads i ≡ locked r
      → Ends console s 6
  from_locked s i r e d f =
      let t = moved i (posting r) s in
      after_step s t 5 (passes i r f d refl) refl
        (from_posting t i r e (let same : (i == i) ≡ true = ground arith in rw same refl))

  within : (s : Status) (n : ℕ) → n ≤ 6 → Ends console s n → Ends console s 6
  within s n few h = record {
    labels = h.labels;
    last = h.last;
    steps = h.steps;
    gone = h.gone;
    few = let b = h.few in omega arith;
    short = h.short;
  }

  -- A thread that has the lock while the object lives gives it back.
  from_inside :
      (s : Status) (i : ℕ) (p : Phase)
      → s.owner ≡ alive
      → s.dead ≡ false
      → s.threads i ≡ p
      → inside p ≡ true
      → Ends console s 6
  from_inside s i unborn e d f h = cc
  from_inside s i waiting e d f h = cc
  from_inside s i reading e d f h = cc
  from_inside s i ended e d f h = cc
  from_inside s i (has_read r) e d f h = cc
  from_inside s i (locked r) e d f h = from_locked s i r e d f
  from_inside s i (posting r) e d f h = within s 5 (omega arith) (from_posting s i r e f)

  from_alive :
      (s : Status) (m : Option Holder) → Locked s → s.owner ≡ alive → s.mtx ≡ m → Ends console s 6
  from_alive s none h e f = within s 4 (omega arith) (from_free s e f)
  from_alive s (some destructor) h e f = let b = h.by_owner in ground arith
  from_alive s (some (thread i)) h e f =
      from_inside s i (s.threads i) e (let d = h.dies in ground arith) refl
        (let b = h.by_thread i in ground arith)

  ends : (s : Status) (o : Owner) → Locked s → s.owner ≡ o → Ends console s 6
  ends s alive h e = from_alive s s.mtx h e refl
  ends s entered h e = within s 3 (omega arith) (from_entered s e)
  ends s signalled h e = within s 2 (omega arith) (from_signalled s e)
  ends s marked h e = within s 1 (omega arith) (from_marked s e)
  ends s destroyed h e = within s 0 (omega arith) (from_destroyed s e)

-- Whatever the threads have come to, and however many of them wait or read: at most six steps, of
-- the destructor and of the thread that has the lock and none of them a `read`, let the destructor
-- return.
pub destructor_returns :
    (console : Bool) (s : Status) (posted : List Posted) (ls : List Label)
    → Steps console s (stream_descriptor posted) ls
    → (t : Status) × (ms : List Label) × Steps console t s ms
      × (t.owner ≡ destroyed)
      × (length ms ≤ 6)
      × All (λ l. is_short l ≡ true) ms
destructor_returns console s posted ls a =
    let h = Steps-Locked console s (stream_descriptor posted) a (stream_descriptor-Locked posted) in
    let e = ends console s s.owner h refl in (e.last, e.labels, e.steps, e.gone, e.few, e.short)
