-- ===== src/Tests/Devices.antt =====
-- A process with a terminal, of which the program's input and output are taken.
use black_circle.Prelude.{
  ℕ, ◌+◌, ◌≡◌, ◌≢◌, refl, subst, arith, Bool, true, false, Option, none, some, ◌==◌, ◌&&◌, ◌||◌,
  if◌then◌else◌,
}
use black_circle.Devices.{Pipe, Posix, piped_stdio, unpiped, unhandled, has_pipes}
use black_circle.Devices.Stdio.{unpiped-piped_stdio}

data File : Type 0 where
  terminal : File
  reads writes : ℕ → File

-- The descriptors, all of those from `next` on free; a call that finds them open fails.
record Files : Type 0 where
  at : ℕ → Option File
  next : ℕ

abbrev is_none : Option File → Bool
is_none none = true
is_none (some f) = false

is_none_free : (o : Option File) → is_none o ≡ true → o ≡ none
is_none_free none h = refl
is_none_free (some f) h = cc

abbrev with_file : ℕ → Option File → Files → ℕ → Files
with_file fd f t next = record { at = λ x. if x == fd then f else t.at x; next = next }

abbrev pipe_if : Bool → Files → Pipe Files
pipe_if false t = record { table = t; ok = false; reader = 0; writer = 0 }
pipe_if true t = record {
  table =
      with_file t.next (some (reads t.next))
        (with_file (t.next + 1) (some (writes t.next)) t (t.next + 2)) (t.next + 2);
  ok = true;
  reader = t.next;
  writer = t.next + 1;
}

abbrev pipe_free : Files → Bool
pipe_free t = is_none (t.at t.next) && is_none (t.at (t.next + 1))

abbrev dup_if : Option File → ℕ → Files → Files × Option ℕ
dup_if none fd t = (with_file t.next (t.at fd) t (t.next + 1), some t.next)
dup_if (some f) fd t = (t, none)

abbrev dup2_if : Option File → ℕ → Files → Files
dup2_if none b t = t
dup2_if (some f) b t = with_file b (some f) t t.next

abbrev dup2_file : Option ℕ → ℕ → Files → Files
dup2_file none b t = t
dup2_file (some a) b t = dup2_if (t.at a) b t

abbrev close_file : Option ℕ → Files → Files
close_file none t = t
close_file (some a) t = with_file a none t t.next

pipe_if_opens :
    (b : Bool) (t : Files)
    → pipe_free t ≡ b
    → (pipe_if b t).ok ≡ true
    → (p : ℕ) × ((pipe_if b t).reader ≢ (pipe_if b t).writer)
      × (t.at (pipe_if b t).reader ≡ none)
      × (t.at (pipe_if b t).writer ≡ none)
      × ((x : ℕ)
          → (pipe_if b t).table.at x ≡ (
              if x == (pipe_if b t).reader
              then some (reads p)
              else (if x == (pipe_if b t).writer then some (writes p) else t.at x)))
pipe_if_opens false t e ok = cc
pipe_if_opens true t e ok = (
  t.next,
  omega arith,
  is_none_free (t.at t.next) (ground arith),
  is_none_free (t.at (t.next + 1)) (ground arith),
  λ x. refl,
)

dup_if_opens :
    (o : Option File) (t : Files) (fd d : ℕ)
    → t.at t.next ≡ o
    → (dup_if o fd t).1 ≡ some d
    → (t.at d ≡ none) × ((x : ℕ) → (dup_if o fd t).0.at x ≡ (if x == d then t.at fd else t.at x))
dup_if_opens none t fd d free e =
    let same : t.next ≡ d = cc in
    subst
      (λ d.
        (t.at d ≡ none)
        × ((x : ℕ) → (dup_if none fd t).0.at x ≡ (if x == d then t.at fd else t.at x)))
      same (free, λ x. refl)
dup_if_opens (some f) t fd d free e = cc

dup2_file_sets :
    (t : Files) (a b x : ℕ) (f : File)
    → t.at a ≡ some f
    → (dup2_file (some a) b t).at x ≡ (if x == b then some f else t.at x)
dup2_file_sets t a b x f e = rw e refl

dup2_file_fails : (t : Files) (a b x : ℕ) → t.at a ≡ none → (dup2_file (some a) b t).at x ≡ t.at x
dup2_file_fails t a b x e = rw e refl

abbrev process : Posix Files File
process = record {
  file_at = λ t. t.at;
  read_end = reads;
  write_end = writes;
  pipe = λ t. pipe_if (pipe_free t) t;
  dup = λ fd t. dup_if (t.at t.next) fd t;
  dup2 = dup2_file;
  close = close_file;
  pipe_opens = λ t ok. pipe_if_opens (pipe_free t) t refl ok;
  dup_opens = λ t fd d e. dup_if_opens (t.at t.next) t fd d refl e;
  dup2_sets = dup2_file_sets;
  dup2_fails = dup2_file_fails;
  close_clears = λ t a x. refl;
}

-- 0, 1 and 2 are the terminal.
abbrev at_first : Files
at_first = record { at = λ x. if x == 0 || x == 1 || x == 2 then some terminal else none; next = 3 }

unpiped_run :
    (unpiped process (piped_stdio process at_first).1 (piped_stdio process at_first).0).at 1
    ≡ some terminal
unfolding unpiped piped_stdio
unpiped_run = refl

-- The program opens the descriptor 9 while the pipes are there.
abbrev later : Files
later = with_file 9 (some terminal) (piped_stdio process at_first).0 10

unpiped-piped_stdio_example :
    let (v, ps) = piped_stdio process at_first in
    ((p : ℕ) × (v.at 1 ≡ some (writes p)) × (v.at ps.piped_stdout ≡ some (reads p)))
    × ((q : ℕ) × (v.at 0 ≡ some (reads q)) × (v.at ps.piped_stdin ≡ some (writes q)))
    × ((x : ℕ)
        → (unpiped process ps later).at x ≡ (
            if x == 0
            then some terminal
            else (if x == 1
                then some terminal
                else (if x == ps.piped_stdout || x == 5 || x == ps.piped_stdin || x == 8
                    then none
                    else later.at x))))
    × ((owns : Bool) (x : ℕ)
        → (unhandled process owns ps v).at x ≡ (if owns && x == 0 then v.at 0 else at_first.at x))
unfolding piped_stdio has_pipes
unpiped-piped_stdio_example =
    unpiped-piped_stdio process at_first later 5 8 terminal terminal refl refl refl refl refl refl
      refl
