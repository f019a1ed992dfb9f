-- ===== src/Tests/Reads.antt =====
-- A thread that reads three bytes, and one that is in `read` when the object is destroyed.
use black_circle.Prelude.{
  ◌≤◌, ◌≡◌, refl, true, false, not, ◌&&◌, List, [], ◌∷◌, none, some, length, All,
}
use black_circle.Prelude.Int.{pos}
use black_circle.Reads.{
  ended, waiting, reading, has_read, locked, posting, destroyed, thread, Status, moved, completion,
  Label, start, begin, read, acquire, give_up, pass, post, enter, signal, mark, leave, starts,
  begins_at_once, reads, acquires, gives_up, passes, posts, enters, signals, marks, leaves, Steps,
  here, next, stream_descriptor,
}
use black_circle.Reads.Once.{times, is_ended, is_warned, one_if}
use black_circle.Reads.Posts.{posts_once}
use black_circle.Reads.Ends.{is_short, destructor_returns}

abbrev begun : Status
begun = moved 7 reading (moved 7 waiting (stream_descriptor []))

abbrev with_lock : Status
with_lock = record (moved 7 (locked (pos 3)) (moved 7 (has_read (pos 3)) begun)) {
  mtx = some (thread 7);
}

abbrev posted_7 : Status
posted_7 = record (moved 7 ended (moved 7 (posting (pos 3)) with_lock)) {
  mtx = none;
  posted = completion 7 0 (pos 3) ∷ [];
}

abbrev beginning : List Label
beginning = start 7 ∷ begin 7 ∷ []

begun-Steps : Steps false begun (stream_descriptor []) beginning
begun-Steps = next (starts 7 refl refl refl) (next (begins_at_once 7 refl refl refl) here)

posted-Steps :
    Steps false posted_7
      (stream_descriptor [])
      (start 7 ∷ begin 7 ∷ read 7 (pos 3) ∷ acquire 7 ∷ pass 7 ∷ post 7 0 ∷ [])
posted-Steps = next (starts 7 refl refl refl) (
    next (begins_at_once 7 refl refl refl) (
      next (reads 7 (pos 3) refl refl) (
        next (acquires 7 (pos 3) refl refl refl)
          (next (passes 7 (pos 3) refl refl refl) (next (posts 7 0 (pos 3) refl refl) here)))))

-- The object, destroyed while the thread 7 is in `read`.
abbrev gone : Status
gone = record begun { dead = true; ev = true; mtx = none; owner = destroyed }

abbrev gone_later : Status
gone_later = record gone {
  threads = (moved 7 ended (moved 7 (locked (pos 3)) (moved 7 (has_read (pos 3)) gone))).threads;
}

gone-Steps :
    Steps false gone (stream_descriptor []) (start 7 ∷ begin 7 ∷ enter ∷ signal ∷ mark ∷ leave ∷ [])
gone-Steps = next (starts 7 refl refl refl) (
    next (begins_at_once 7 refl refl refl) (
      next (enters refl refl refl)
        (next (signals refl refl) (next (marks refl refl) (next (leaves refl refl) here)))))

-- `read` fills its buffer after the destruction, and only then is `dead` looked at.
late-Steps : Steps false gone_later gone (read 7 (pos 3) ∷ acquire 7 ∷ give_up 7 ∷ [])
late-Steps =
    next (reads 7 (pos 3) refl refl)
      (next (acquires 7 (pos 3) refl refl refl) (next (gives_up 7 (pos 3) refl refl refl) here))

posts_once_example :
    (times 7 gone.posted ≤ one_if (is_ended (gone.threads 7)))
    × (one_if (is_ended (gone.threads 7) && not (is_warned gone.owner)) ≤ times 7 gone.posted)
    × (gone_later.posted ≡ gone.posted)
posts_once_example =
    posts_once false gone gone_later (start 7 ∷ begin 7 ∷ enter ∷ signal ∷ mark ∷ leave ∷ [])
      (read 7 (pos 3) ∷ acquire 7 ∷ give_up 7 ∷ []) 7 gone-Steps late-Steps

destructor_returns_example :
    (t : Status) × (ms : List Label) × Steps false t begun ms
    × (t.owner ≡ destroyed)
    × (length ms ≤ 6)
    × All (λ l. is_short l ≡ true) ms
destructor_returns_example = destructor_returns false begun [] beginning begun-Steps
