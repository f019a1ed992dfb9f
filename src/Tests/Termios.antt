-- ===== src/Tests/Termios.antt =====
-- A terminal whose modes are changed and put back.
use black_circle.Prelude.{ℕ, ◌≡◌, refl, arith, [], ◌==◌}
use black_circle.Devices.Termios.{
  Termios, Masks, Tty, raw, raw_termios, cooked, cleared, input_mask, local_mask, control_mask,
  cooked-raw_termios,
}
use black_circle.Prelude.Bits.{bit}
use Prim.Native.Nat.{max}

-- A terminal: its attributes and the number of the descriptor that is open for it.
record Terminal : Type 0 where
  attributes : Termios
  fd : ℕ

abbrev terminal_calls : Tty Terminal
terminal_calls = record {
  open_tty = λ s. (s, 3);
  tcgetattr = λ fd s. s.attributes;
  tcsetattr = λ fd m s. record s { attributes = m };
  close = λ fd s. s;
  refers = λ s fd. fd == s.fd;
  mode = λ s. s.attributes;
  opens = λ s. refl;
  gets = λ fd s e. refl;
  sets = λ fd m s e. refl;
  closes = λ fd s. refl;
}

-- The masks of Linux.
abbrev linux : Masks
linux = record {
  ignbrk = 1;
  brkint = 2;
  parmrk = 8;
  istrip = 32;
  ixon = 1024;
  opost = 1;
  echo = 8;
  icanon = 2;
  iexten = 32768;
  csize = 48;
  parenb = 256;
  cs8 = 48;
}

abbrev sane : Termios
sane = record { c_iflag = 17664; c_oflag = 5; c_cflag = 191; c_lflag = 35387; c_cc = [] }

raw_run :
    raw linux sane
    ≡ record { c_iflag = 16640; c_oflag = 4; c_cflag = 191; c_lflag = 2609; c_cc = [] }
unfolding raw
raw_run = refl

abbrev console : Terminal
console = record { attributes = sane; fd = 3 }

cooked-raw_termios_example :
    let (v, r) = raw_termios terminal_calls linux console in
    (bit 3 v.attributes.c_iflag ≡ cleared (bit 3 17664) (bit 3 (input_mask linux)))
    × (bit 3 v.attributes.c_oflag ≡ cleared (bit 3 5) (bit 3 1))
    × (bit 3 v.attributes.c_lflag ≡ cleared (bit 3 35387) (bit 3 (local_mask linux)))
    × (bit 3 v.attributes.c_cflag
        ≡ max (cleared (bit 3 191) (bit 3 (control_mask linux))) (bit 3 48))
    × (v.attributes.c_cc ≡ [])
    × ((cooked terminal_calls r console).attributes ≡ sane)
unfolding raw_termios
cooked-raw_termios_example =
    cooked-raw_termios terminal_calls linux console console 3 (omega arith) (omega arith)
      (omega arith) (omega arith) (omega arith) refl refl
