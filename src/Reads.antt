-- ===== src/Reads.antt =====
-- `stream_descriptor_impl` of console.cc, which reads a descriptor on a thread of its own, for a
-- platform whose Asio has no stream descriptors. The steps of the threads and of the destructor
-- interleave.
pub mod Locks
pub mod Once
pub mod Posts
pub mod Ends
use black_circle.Prelude.{
  ℕ, ◌≡◌, Bool, true, false, List, [], ◌∷◌, Option, none, some, ◌==◌, if◌then◌else◌,
}
use black_circle.Prelude.Int.{ℤ, pos, negsuc}

-- Where a thread stands in `thread_handler`: not started; in the loop over the console's events; in
-- `read`; behind it, with the result; with the lock; with the lock and `dead` found false; at the
-- end.
pub data Phase : Type 0 where
  unborn waiting reading ended : Phase
  has_read locked posting : ℤ → Phase

-- Where `~stream_descriptor_impl` stands: not called; with the lock; behind `SetEvent`; behind
-- `dead = true`; returned.
pub data Owner : Type 0 where
  alive entered signalled marked destroyed : Owner

-- Who has the mutex.
pub data Holder : Type 0 where
  thread : ℕ → Holder
  destructor : Holder

-- The handler of a thread, with the error code and the number of bytes that it is called with.
pub record Posted : Type 0 where
  pub handler : ℕ
  pub ec : ℕ
  pub transferred : ℕ

-- `object_status`, with the threads and what was posted to `io`, the last first.
pub record Status : Type 0 where
  pub dead : Bool
  pub ev : Bool
  pub mtx : Option Holder
  pub threads : ℕ → Phase
  pub owner : Owner
  pub posted : List Posted

abbrev pub put : ℕ → Phase → (ℕ → Phase) → ℕ → Phase
put i p threads j = if j == i then p else threads j

abbrev pub moved : ℕ → Phase → Status → Status
moved i p s = record s { threads = put i p s.threads }

-- What is posted for the result of `read`, with `last_error` of `GetLastError`.
unfoldable pub completion : ℕ → ℕ → ℤ → Posted
completion i last_error (pos n) = record { handler = i; ec = 0; transferred = n }
completion i last_error (negsuc n) = record { handler = i; ec = last_error; transferred = 0 }

-- The constructor, with what `posted` holds already.
abbrev pub stream_descriptor : List Posted → Status
stream_descriptor posted = record {
  dead = false;
  ev = false;
  mtx = none;
  threads = λ i. unborn;
  owner = alive;
  posted = posted;
}

-- One step, by its label. `console` is that the descriptor is a console (`GetFileType`), and that the
-- loop over its events is compiled, as it is not on Cygwin. `begin` is a wait that ends by a key, or
-- for no input, and `other` by an event that is no key; a wait with both signals takes `ev`, the first.
-- A wait does not fail. The event resets itself: the wait that takes it finds it cleared, so that
-- one thread at most is stopped, and the others go on to read.
pub data Label : Type 0 where
  start stop other begin acquire give_up pass : ℕ → Label
  read : ℕ → ℤ → Label
  post : ℕ → ℕ → Label
  enter signal mark leave : Label

pub data Step (console : Bool) (s t : Status) : Label → Type 0 where
  starts :
      (i : ℕ)
      → s.owner ≡ alive
      → s.threads i ≡ unborn
      → t ≡ moved i waiting s
      → Step console s t (start i)
  stops :
      (i : ℕ)
      → console ≡ true
      → s.ev ≡ true
      → s.threads i ≡ waiting
      → t ≡ record (moved i ended s) { ev = false }
      → Step console s t (stop i)
  skips :
      (i : ℕ)
      → console ≡ true
      → s.ev ≡ false
      → s.threads i ≡ waiting
      → t ≡ s
      → Step console s t (other i)
  begins :
      (i : ℕ)
      → console ≡ true
      → s.ev ≡ false
      → s.threads i ≡ waiting
      → t ≡ moved i reading s
      → Step console s t (begin i)
  begins_at_once :
      (i : ℕ)
      → console ≡ false
      → s.threads i ≡ waiting
      → t ≡ moved i reading s
      → Step console s t (begin i)
  reads :
      (i : ℕ) (r : ℤ)
      → s.threads i ≡ reading
      → t ≡ moved i (has_read r) s
      → Step console s t (read i r)
  acquires :
      (i : ℕ) (r : ℤ)
      → s.threads i ≡ has_read r
      → s.mtx ≡ none
      → t ≡ record (moved i (locked r) s) { mtx = some (thread i) }
      → Step console s t (acquire i)
  gives_up :
      (i : ℕ) (r : ℤ)
      → s.threads i ≡ locked r
      → s.dead ≡ true
      → t ≡ record (moved i ended s) { mtx = none }
      → Step console s t (give_up i)
  passes :
      (i : ℕ) (r : ℤ)
      → s.threads i ≡ locked r
      → s.dead ≡ false
      → t ≡ moved i (posting r) s
      → Step console s t (pass i)
  posts :
      (i e : ℕ) (r : ℤ)
      → s.threads i ≡ posting r
      → t ≡ record (moved i ended s) { mtx = none; posted = completion i e r ∷ s.posted }
      → Step console s t (post i e)
  enters :
      s.owner ≡ alive
      → s.mtx ≡ none
      → t ≡ record s { owner = entered; mtx = some destructor }
      → Step console s t enter
  signals :
      s.owner ≡ entered → t ≡ record s { owner = signalled; ev = true } → Step console s t signal
  marks : s.owner ≡ signalled → t ≡ record s { owner = marked; dead = true } → Step console s t mark
  leaves :
      s.owner ≡ marked → t ≡ record s { owner = destroyed; mtx = none } → Step console s t leave

-- The steps with these labels lead from `s` to `t`.
pub data Steps (console : Bool) (t : Status) : Status → List Label → Type 0 where
  here : Steps console t t []
  next :
      {s m : Status} {l : Label} {ls : List Label}
      → Step console s m l
      → Steps console t m ls
      → Steps console t s (l ∷ ls)
