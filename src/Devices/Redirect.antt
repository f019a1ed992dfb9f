-- ===== src/Devices/Redirect.antt =====
-- One half of `piped_stdio`: a descriptor that is replaced by the end of a pipe, and put back.
use black_circle.Prelude.{ℕ, ◌≡◌, ◌≢◌, refl, arith, false, none, some, ◌==◌, if◌then◌else◌}
use black_circle.Devices.{Posix, replace_end, restore}

differs : (a b : ℕ) → a ≢ b → (a == b) ≡ false
differs a b ne = ground arith

module _ {Table File : Type 0} (os : Posix Table File) where
  open os use {file_at, pipe, dup, dup2, close}

  pub apart : (t : Table) (a b : ℕ) {f : File} → file_at t a ≡ some f → file_at t b ≡ none → a ≢ b
  apart t a b open_a free_b e = cc

  file_at-replace_end :
      (t : Table) (fd end d x : ℕ) (f g : File)
      → file_at t fd ≡ some f
      → file_at t end ≡ some g
      → fd ≢ end
      → (replace_end os fd end t).1 ≡ some d
      → file_at (replace_end os fd end t).0 x ≡ (
          if x == end
          then none
          else (if x == fd then some g else (if x == d then some f else file_at t x)))
  unfolding replace_end
  file_at-replace_end t fd end d x f g open_fd open_end ne e =
      let (free, dup_at) = os.dup_opens t fd d e in
      let end_at : file_at (dup fd t).0 end ≡ some g =
        rw (dup_at end, differs end d (apart t end d open_end free)) open_end in
      rw
        (
          os.close_clears (dup2 (some end) fd (dup fd t).0) end x,
          os.dup2_sets (dup fd t).0 end fd x g end_at,
          dup_at x,
        )
        (ground arith)

  dup_free : (fd end d : ℕ) (t : Table) → (replace_end os fd end t).1 ≡ some d → file_at t d ≡ none
  unfolding replace_end
  dup_free fd end d t e = (os.dup_opens t fd d e).0

  pub file_at-restore :
      (t : Table) (fd d piped x : ℕ) (f : File)
      → file_at t d ≡ some f
      → file_at (restore os fd (some d) piped t) x ≡ (
          if x == piped
          then none
          else (if x == d then none else (if x == fd then some f else file_at t x)))
  unfolding restore
  file_at-restore t fd d piped x f open_d =
      rw
        (
          os.close_clears (close (some d) (dup2 (some d) fd t)) piped x,
          os.close_clears (dup2 (some d) fd t) d x,
          os.dup2_sets t d fd x f open_d,
        )
        refl

  -- If the copy is closed already.
  pub file_at-restore_closed :
      (t : Table) (fd d piped x : ℕ)
      → file_at t d ≡ none
      → file_at (restore os fd (some d) piped t) x
        ≡ (if x == piped then none else (if x == d then none else file_at t x))
  unfolding restore
  file_at-restore_closed t fd d piped x closed =
      rw
        (
          os.close_clears (close (some d) (dup2 (some d) fd t)) piped x,
          os.close_clears (dup2 (some d) fd t) d x,
          os.dup2_fails t d fd x closed,
        )
        refl

  pub file_at-close_both :
      (t : Table) (a b x : ℕ)
      → file_at (close (some a) (close (some b) t)) x
        ≡ (if x == a then none else (if x == b then none else file_at t x))
  file_at-close_both t a b x =
      rw (os.close_clears (close (some b) t) a x, os.close_clears t b x) refl

  -- From `t` to `u`, the descriptor `fd` of `f` is replaced by `given`, while `kept` is open for
  -- `other` and `d` for `f`; neither of them was open.
  pub record Redirected (t u : Table) (fd kept d : ℕ) (given other f : File) : Type 0 where
    pub new_kept : file_at t kept ≡ none
    pub new_dup : file_at t d ≡ none
    pub separate : kept ≢ d
    pub now :
        (x : ℕ)
        → file_at u x ≡ (
            if x == fd
            then some given
            else (if x == kept then some other else (if x == d then some f else file_at t x)))

  pub replace_end-Redirected :
      (t : Table) (fd end kept d : ℕ) (t1 : Table) (given other f : File)
      → file_at t fd ≡ some f
      → file_at t end ≡ none
      → file_at t kept ≡ none
      → end ≢ kept
      → ((x : ℕ)
          → file_at t1 x
            ≡ (if x == kept then some other else (if x == end then some given else file_at t x)))
      → (replace_end os fd end t1).1 ≡ some d
      → Redirected t (replace_end os fd end t1).0 fd kept d given other f
  replace_end-Redirected t fd end kept d t1 given other f open_fd no_end no_kept ne at e =
      let fd_kept = apart t fd kept open_fd no_kept in
      let fd_end = apart t fd end open_fd no_end in
      let at_kept : file_at t1 kept ≡ some other = rw (at kept) (ground arith) in
      let at_end : file_at t1 end ≡ some given = rw (at end) (ground arith) in
      let at_fd : file_at t1 fd ≡ some f = rw (at fd) (ground arith) in
      let free = dup_free fd end d t1 e in
      let kept_d = apart t1 kept d at_kept free in
      let end_d = apart t1 end d at_end free in
      record {
        new_kept = no_kept;
        new_dup = still_free d free (at d);
        separate = kept_d;
        now = λ x.
            after x (file_at-replace_end t1 fd end d x f given at_fd at_end fd_end e) (at x) fd_kept
              fd_end kept_d end_d;
      }
    where
      still_free :
          (x : ℕ)
          → file_at t1 x ≡ none
          → file_at t1 x
            ≡ (if x == kept then some other else (if x == end then some given else file_at t x))
          → file_at t x ≡ none
      still_free x h now = ground arith

      after :
          (x : ℕ)
          → file_at (replace_end os fd end t1).0 x ≡ (
              if x == end
              then none
              else (if x == fd then some given else (if x == d then some f else file_at t1 x)))
          → file_at t1 x
            ≡ (if x == kept then some other else (if x == end then some given else file_at t x))
          → fd ≢ kept
          → fd ≢ end
          → kept ≢ d
          → end ≢ d
          → file_at (replace_end os fd end t1).0 x ≡ (
              if x == fd
              then some given
              else (if x == kept then some other else (if x == d then some f else file_at t x)))
      after x made before a b c g = ground arith

  pub swapped :
      (t t1 : Table) (r w : ℕ) (given other : File)
      → r ≢ w
      → (x : ℕ)
      → file_at t1 x ≡ (if x == r then some given else (if x == w then some other else file_at t x))
      → file_at t1 x ≡ (if x == w then some other else (if x == r then some given else file_at t x))
  swapped t t1 r w given other ne x h = ground arith
