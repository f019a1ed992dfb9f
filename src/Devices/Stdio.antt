-- ===== src/Devices/Stdio.antt =====
-- Between its constructor and its destructor `piped_stdio` has the program read and write pipes;
-- afterwards all is as before.
use black_circle.Prelude.{
  ℕ, ◌≡◌, sym, arith, Bool, true, none, some, ◌==◌, ◌||◌, ◌&&◌, if◌then◌else◌,
}
use black_circle.Devices.{Posix, replace_end, piped_stdio, unpiped, unhandled, has_pipes}
use black_circle.Devices.Redirect.{replace_end-Redirected, swapped}
use black_circle.Devices.Restored.{half_way, at_end, file_at-restored, file_at-unhandled}

module _ {Table File : Type 0} (os : Posix Table File) where
  open os use {file_at, pipe}

  -- If both pipes and both copies can be made, and the program has its standard input and output:
  -- while `piped_stdio` lives its output goes to the pipe that is read at `piped_stdout`, and its
  -- input comes from the one that is written at `piped_stdin`. From any later table in which the
  -- copies are still as they were, the destructor puts both descriptors back, closes its four and
  -- changes no other. At the end of `output_handler_impl`, from the constructor's table, all is as
  -- at first if the streams leave their descriptors open; if they close them the standard input
  -- alone is not put back, and stays the pipe.
  pub unpiped-piped_stdio :
      (t w : Table) (a b : ℕ) (f0 f1 : File)
      → let (v, ps) = piped_stdio os t in
        file_at t 0 ≡ some f0
        → file_at t 1 ≡ some f1
        → has_pipes os t ≡ true
        → ps.true_stdout ≡ some a
        → ps.true_stdin ≡ some b
        → file_at w a ≡ file_at v a
        → file_at w b ≡ file_at v b
        → ((p : ℕ) × (file_at v 1 ≡ some (os.write_end p))
            × (file_at v ps.piped_stdout ≡ some (os.read_end p)))
          × ((q : ℕ) × (file_at v 0 ≡ some (os.read_end q))
              × (file_at v ps.piped_stdin ≡ some (os.write_end q)))
          × ((x : ℕ)
              → file_at (unpiped os ps w) x ≡ (
                  if x == 0
                  then some f0
                  else (if x == 1
                      then some f1
                      else (if x == ps.piped_stdout || x == a || x == ps.piped_stdin || x == b
                          then none
                          else file_at w x))))
          × ((owns : Bool) (x : ℕ)
              → file_at (unhandled os owns ps v) x
                ≡ (if owns && x == 0 then file_at v 0 else file_at t x))
  unfolding piped_stdio unpiped unhandled has_pipes
  unpiped-piped_stdio t w a b f0 f1 in_0 in_1 ok made_a made_b same_a same_b =
      let out = pipe t in
      let u = (replace_end os 1 out.writer out.table).0 in
      let in_ = pipe u in
      let v = (replace_end os 0 in_.reader in_.table).0 in
      let (p, ne, no_r, no_w, at) = os.pipe_opens t (ground arith) in
      let (q, ne2, no_r2, no_w2, at2) = os.pipe_opens u (ground arith) in
      let first =
        replace_end-Redirected os t 1 out.writer out.reader a out.table (os.write_end p)
          (os.read_end p) f1 in_1 no_w no_r (λ e. ne (sym e)) at made_a in
      let second =
        replace_end-Redirected os u 0 in_.reader in_.writer b in_.table (os.read_end q)
          (os.write_end q) f0 (half_way os first in_0 in_1).0 no_r2 no_w2 ne2
          (λ x.
            swapped os u in_.table in_.reader in_.writer (os.read_end q) (os.write_end q) ne2 x
              (at2 x))
          made_b in
      let (at_0, at_1, at_po, at_pi, at_a, at_b) = at_end os first in_0 in_1 second in
      (
        (p, at_1, at_po),
        (q, at_0, at_pi),
        λ x. rw (made_a, made_b) (file_at-restored os first in_0 in_1 second w x same_a same_b),
        λ owns x. rw (made_a, made_b) (file_at-unhandled os first in_0 in_1 second owns x),
      )
