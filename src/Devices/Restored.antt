-- ===== src/Devices/Restored.antt =====
-- Both halves of `piped_stdio`, one after the other: what is open then, and after the destructors.
use black_circle.Prelude.{
  ℕ, ◌≡◌, ◌≢◌, refl, ◌∙◌, arith, Bool, true, false, none, some, ◌==◌, ◌||◌, ◌&&◌, if◌then◌else◌,
}
use black_circle.Devices.{Posix, restore, unpiped, unhandled}
use black_circle.Devices.Redirect.{
  apart, file_at-restore, file_at-restore_closed, file_at-close_both, Redirected,
}

module _ {Table File : Type 0} (os : Posix Table File) where
  open os use {file_at, pipe, close}

  -- Two replacements, of 1 and then of 0, undone in the same order.
  module _ {t u : Table} {po a : ℕ} {given1 other1 f0 f1 : File}
      (first : Redirected os t u 1 po a given1 other1 f1) (open_0 : file_at t 0 ≡ some f0)
      (open_1 : file_at t 1 ≡ some f1) where
    po_old : (0 ≢ po) × (1 ≢ po) × (0 ≢ a) × (1 ≢ a)
    po_old = (
      apart os t 0 po open_0 first.new_kept,
      apart os t 1 po open_1 first.new_kept,
      apart os t 0 a open_0 first.new_dup,
      apart os t 1 a open_1 first.new_dup,
    )

    -- What is open half-way.
    pub half_way :
        (file_at u 0 ≡ some f0)
        × (file_at u 1 ≡ some given1)
        × (file_at u po ≡ some other1)
        × (file_at u a ≡ some f1)
    half_way =
        let (zero_po, one_po, zero_a, one_a) = po_old in
        let separate = first.separate in
        (
          rw (first.now 0) (ground arith),
          rw (first.now 1) refl,
          rw (first.now po) (ground arith),
          rw (first.now a) (ground arith),
        )

    new_again : (x : ℕ) → file_at u x ≡ none → (0 ≢ x) × (1 ≢ x) × (po ≢ x) × (a ≢ x)
    new_again x free =
        let (at_0, at_1, at_po, at_a) = half_way in
        (
          apart os u 0 x at_0 free,
          apart os u 1 x at_1 free,
          apart os u po x at_po free,
          apart os u a x at_a free,
        )

    free_before : (x : ℕ) → file_at u x ≡ none → file_at t x ≡ none
    free_before x free = let now = first.now x in ground arith

    module _ {v : Table} {pi b : ℕ} {given0 other0 : File}
        (second : Redirected os u v 0 pi b given0 other0 f0) where
      -- What is open at the end.
      pub at_end :
          (file_at v 0 ≡ some given0)
          × (file_at v 1 ≡ some given1)
          × (file_at v po ≡ some other1)
          × (file_at v pi ≡ some other0)
          × (file_at v a ≡ some f1)
          × (file_at v b ≡ some f0)
      at_end =
          let (at_0, at_1, at_po, at_a) = half_way in
          let (zero_pi, one_pi, po_pi, a_pi) = new_again pi second.new_kept in
          let (zero_b, one_b, po_b, a_b) = new_again b second.new_dup in
          let (zero_po, one_po, zero_a, one_a) = po_old in
          let separate = second.separate in
          (
            rw (second.now 0) refl,
            rw (second.now 1) (ground arith),
            rw (second.now po) (ground arith),
            rw (second.now pi) (ground arith),
            rw (second.now a) (ground arith),
            rw (second.now b) (ground arith),
          )

      abbrev pub restored : Table → Table
      restored x = restore os 0 (some b) pi (restore os 1 (some a) po x)

      pub file_at-restored :
          (w : Table) (x : ℕ)
          → file_at w a ≡ file_at v a
          → file_at w b ≡ file_at v b
          → file_at (restored w) x ≡ (
              if x == 0
              then some f0
              else (if x == 1
                  then some f1
                  else (if x == po || x == a || x == pi || x == b then none else file_at w x)))
      file_at-restored w x same_a same_b =
          let (zero_pi, one_pi, po_pi, a_pi) = new_again pi second.new_kept in
          let (zero_b, one_b, po_b, a_b) = new_again b second.new_dup in
          let (zero_po, one_po, zero_a, one_a) = po_old in
          let y = restore os 1 (some a) po w in
          let in_w_a : file_at w a ≡ some f1 = same_a ∙ at_end.4 in
          let in_w_b : file_at w b ≡ some f0 = same_b ∙ at_end.5 in
          let in_y_b : file_at y b ≡ some f0 =
            rw (file_at-restore os w 1 a po b f1 in_w_a) (ground arith) in
          rw (file_at-restore os y 0 b pi x f0 in_y_b, file_at-restore os w 1 a po x f1 in_w_a)
            (ground arith)

      -- Where nothing happened in between, all is as at first.
      restored_again : (x : ℕ) → file_at (restored v) x ≡ file_at t x
      restored_again x =
          let free_po = first.new_kept in
          let free_a = first.new_dup in
          let free_pi = free_before pi second.new_kept in
          let free_b = free_before b second.new_dup in
          rw (file_at-restored v x refl refl, second.now x, first.now x) (ground arith)

      -- With the descriptors of both streams closed before, the standard input is not put back.
      restored_owned :
          (x : ℕ)
          → file_at (restored (close (some po) (close (some b) v))) x
            ≡ (if x == 0 then file_at v 0 else file_at t x)
      restored_owned x =
          let (zero_pi, one_pi, po_pi, a_pi) = new_again pi second.new_kept in
          let (zero_b, one_b, po_b, a_b) = new_again b second.new_dup in
          let (zero_po, one_po, zero_a, one_a) = po_old in
          let free_po = first.new_kept in
          let free_a = first.new_dup in
          let free_pi = free_before pi second.new_kept in
          let free_b = free_before b second.new_dup in
          let w = close (some po) (close (some b) v) in
          let y = restore os 1 (some a) po w in
          let separate = first.separate in
          let in_v_0 = at_end.0 in
          let in_v_a = at_end.4 in
          let in_w_a : file_at w a ≡ some f1 = rw (file_at-close_both os v po b a) (ground arith) in
          let in_w_b : file_at w b ≡ none = rw (file_at-close_both os v po b b) (ground arith) in
          let closed : file_at y b ≡ none =
            rw (file_at-restore os w 1 a po b f1 in_w_a) (ground arith) in
          rw
            (
              file_at-restore_closed os y 0 b pi x closed,
              file_at-restore os w 1 a po x f1 in_w_a,
              file_at-close_both os v po b x,
              second.now x,
              first.now x,
            )
            (ground arith)

      pub file_at-unhandled :
          (owns : Bool) (x : ℕ)
          → file_at
              (unhandled os owns
                (record {
                  piped_stdout = po;
                  true_stdout = some a;
                  piped_stdin = pi;
                  true_stdin = some b;
                })
                v)
              x
            ≡ (if owns && x == 0 then file_at v 0 else file_at t x)
      unfolding unhandled unpiped
      file_at-unhandled false x = restored_again x
      file_at-unhandled true x = restored_owned x
