-- ===== src/Reads/Posts.antt =====
-- Which handlers are posted, and that none is once the object is gone.
use black_circle.Prelude.{
  ℕ, ◌≤◌, ◌≡◌, refl, sym, ap, ◌∙◌, subst, arith, Bool, true, false, not, ◌&&◌, List, [],
  if◌then◌else◌,
}
use black_circle.Reads.{
  Owner, alive, entered, signalled, marked, destroyed, Status, Label, Step, starts, stops, skips,
  begins, begins_at_once, reads, acquires, gives_up, passes, posts, enters, signals, marks, leaves,
  Steps, here, next, stream_descriptor,
}
use black_circle.Reads.Locks.{
  Locked, Step-Locked, Steps-Locked, stream_descriptor-Locked, is_posting,
}
use black_circle.Reads.Once.{times, is_ended, is_warned, one_if, stream_descriptor-Once, Steps-Once}

-- `t` follows `s` with `dead` set and nothing posted.
abbrev Silent : Status → Status → Type 0
Silent s t = (t.dead ≡ true) × (t.posted ≡ s.posted)

module _ (console : Bool) where
  dead-Step :
      {l : Label} (s t : Status) → Step console s t l → Locked s → s.dead ≡ true → Silent s t
  dead-Step s t (starts i o f g) k d = subst (Silent s) (sym g) (d, refl)
  dead-Step s t (stops i c e f g) k d = subst (Silent s) (sym g) (d, refl)
  dead-Step s t (skips i c e f g) k d = subst (Silent s) (sym g) (d, refl)
  dead-Step s t (begins i c e f g) k d = subst (Silent s) (sym g) (d, refl)
  dead-Step s t (begins_at_once i c f g) k d = subst (Silent s) (sym g) (d, refl)
  dead-Step s t (reads i r f g) k d = subst (Silent s) (sym g) (d, refl)
  dead-Step s t (acquires i r f e g) k d = subst (Silent s) (sym g) (d, refl)
  dead-Step s t (gives_up i r f e g) k d = subst (Silent s) (sym g) (d, refl)
  dead-Step s t (passes i r f e g) k d = cc
  dead-Step s t (posts i e r f g) k d = let b = k.lives i in let p = ap is_posting f in ground arith
  dead-Step s t (enters o e g) k d = subst (Silent s) (sym g) (d, refl)
  dead-Step s t (signals o g) k d = subst (Silent s) (sym g) (d, refl)
  dead-Step s t (marks o g) k d = subst (Silent s) (sym g) (refl, refl)
  dead-Step s t (leaves o g) k d = subst (Silent s) (sym g) (d, refl)

  dead-Steps :
      (t : Status) {ls : List Label} (s : Status)
      → Steps console t s ls
      → Locked s
      → s.dead ≡ true
      → t.posted ≡ s.posted
  dead-Steps t s here k d = refl
  dead-Steps t s (next {m = m} a b) k d =
      let (still, same) = dead-Step s m a k d in
      dead-Steps t m b (Step-Locked console s m a k) still ∙ same

abbrev pub is_destroyed : Owner → Bool
is_destroyed alive = false
is_destroyed entered = false
is_destroyed signalled = false
is_destroyed marked = false
is_destroyed destroyed = true

destroyed_silent :
    (console : Bool) (s t : Status) (o : Owner) (ms : List Label)
    → Steps console t s ms
    → Locked s
    → s.owner ≡ o
    → (if is_destroyed o then t.posted else s.posted) ≡ s.posted
destroyed_silent console s t alive ms a h e = refl
destroyed_silent console s t entered ms a h e = refl
destroyed_silent console s t signalled ms a h e = refl
destroyed_silent console s t marked ms a h e = refl
destroyed_silent console s t destroyed ms a h e =
    dead-Steps console t s a h (let d = h.dies in ground arith)

-- However the steps of the threads and of the destructor interleave, where no wait of a thread fails:
-- a thread's handler is posted at most once, and not before the thread is over; if it is over while the
-- destructor has not yet set its event (which one wait at most takes), the handler has been posted; and once the destructor has
-- returned no handler is posted any more, whatever the threads go on to do.
pub posts_once :
    (console : Bool) (s t : Status) (ls ms : List Label) (i : ℕ)
    → Steps console s (stream_descriptor []) ls
    → Steps console t s ms
    → (times i s.posted ≤ one_if (is_ended (s.threads i)))
      × (one_if (is_ended (s.threads i) && not (is_warned s.owner)) ≤ times i s.posted)
      × ((if is_destroyed s.owner then t.posted else s.posted) ≡ s.posted)
posts_once console s t ls ms i a b =
    let locks = Steps-Locked console s (stream_descriptor []) a (stream_descriptor-Locked []) in
    let h =
      Steps-Once console s (stream_descriptor []) a (stream_descriptor-Locked [])
        stream_descriptor-Once in
    (h.at_most i, h.at_least i, destroyed_silent console s t s.owner ms b locks refl)
