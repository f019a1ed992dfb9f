-- ===== src/Devices.antt =====
-- What console.cc does to the process's descriptors: `piped_stdio` puts pipes in the place of the
-- standard input and output while it lives.
pub mod Redirect
pub mod Restored
pub mod Stdio
pub mod Termios
use black_circle.Prelude.{
  ℕ, ◌≡◌, ◌≢◌, Bool, true, false, Option, none, some, ◌==◌, ◌&&◌, if◌then◌else◌,
}

-- What `pipe` leaves: the descriptors, whether it succeeded, and the two numbers in the array.
pub record Pipe (Table : Type 0) : Type 0 where
  pub table : Table
  pub ok : Bool
  pub reader : ℕ
  pub writer : ℕ

-- POSIX: a process's table of descriptors, what each one is open for, and the calls on it. A number
-- is `none` for -1, where the calls fail.
pub record Posix (Table File : Type 0) : Type 0 where
  pub file_at : Table → ℕ → Option File
  pub read_end : ℕ → File
  pub write_end : ℕ → File
  pub pipe : Table → Pipe Table
  pub dup : ℕ → Table → Table × Option ℕ
  pub dup2 : Option ℕ → ℕ → Table → Table
  pub close : Option ℕ → Table → Table
  -- "shall create a pipe and place two file descriptors [...] that refer to the open file
  -- descriptions for the read and write ends of the pipe": the lowest ones that are not open.
  pub pipe_opens :
      (t : Table)
      → (pipe t).ok ≡ true
      → (p : ℕ) × ((pipe t).reader ≢ (pipe t).writer)
        × (file_at t (pipe t).reader ≡ none)
        × (file_at t (pipe t).writer ≡ none)
        × ((x : ℕ)
            → file_at (pipe t).table x ≡ (
                if x == (pipe t).reader
                then some (read_end p)
                else (if x == (pipe t).writer then some (write_end p) else file_at t x)))
  pub dup_opens :
      (t : Table) (fd d : ℕ)
      → (dup fd t).1 ≡ some d
      → (file_at t d ≡ none)
        × ((x : ℕ) → file_at (dup fd t).0 x ≡ (if x == d then file_at t fd else file_at t x))
  pub dup2_sets :
      (t : Table) (a b x : ℕ) (f : File)
      → file_at t a ≡ some f
      → file_at (dup2 (some a) b t) x ≡ (if x == b then some f else file_at t x)
  -- A descriptor that is not open is not duplicated.
  pub dup2_fails :
      (t : Table) (a b x : ℕ) → file_at t a ≡ none → file_at (dup2 (some a) b t) x ≡ file_at t x
  pub close_clears :
      (t : Table) (a x : ℕ) → file_at (close (some a) t) x ≡ (if x == a then none else file_at t x)

pub record PipedStdio : Type 0 where
  pub piped_stdout : ℕ
  pub true_stdout : Option ℕ
  pub piped_stdin : ℕ
  pub true_stdin : Option ℕ

module _ {Table File : Type 0} (os : Posix Table File) where
  open os use {pipe, dup, dup2, close}

  -- `true_… = dup(fd); dup2(end, fd); close(end);`.
  unfoldable pub replace_end : ℕ → ℕ → Table → Table × Option ℕ
  replace_end fd end t = let d = dup fd t in (close (some end) (dup2 (some end) fd d.0), d.1)

  -- The constructor, which looks at no result. `fileno(stdin)` is 0, `fileno(stdout)` 1.
  unfoldable pub piped_stdio : Table → Table × PipedStdio
  unfolding replace_end
  piped_stdio t =
      let out = pipe t in
      let stdout = replace_end 1 out.writer out.table in
      let in_ = pipe stdout.0 in
      let stdin = replace_end 0 in_.reader in_.table in
      (
        stdin.0,
        record {
          piped_stdout = out.reader;
          true_stdout = stdout.1;
          piped_stdin = in_.writer;
          true_stdin = stdin.1;
        },
      )

  -- `dup2(true_…, fd); close(true_…); close(piped_…);`.
  unfoldable pub restore : ℕ → Option ℕ → ℕ → Table → Table
  restore fd original piped t = close (some piped) (close original (dup2 original fd t))

  -- The destructor.
  unfoldable pub unpiped : PipedStdio → Table → Table
  unfolding restore
  unpiped ps t = restore 0 ps.true_stdin ps.piped_stdin (restore 1 ps.true_stdout ps.piped_stdout t)

  -- The end of `~output_handler_impl`, which destroys `ist`, `ost` and then `ps`. `owns` is that
  -- the destructor of `stream_descriptor` closes its descriptor: that of Asio does, the one of
  -- console.cc not.
  unfoldable pub unhandled : Bool → PipedStdio → Table → Table
  unfolding unpiped
  unhandled false ps t = unpiped ps t
  unhandled true ps t = unpiped ps (close (some ps.piped_stdout) (close ps.true_stdin t))

  -- Whether both calls of `pipe` succeed.
  unfoldable pub has_pipes : Table → Bool
  unfolding replace_end
  has_pipes t = let out = pipe t in out.ok && (pipe (replace_end 1 out.writer out.table).0).ok
