-- ===== src/Devices/Termios.antt =====
-- `raw_termios` of console.cc: the terminal gives every byte at once, without an echo, while it
-- lives.
use black_circle.Prelude.{ℕ, ◌-◌, ◌^◌, ◌<◌, ◌≡◌, refl, ap, ◌∙◌, Bool, true, bit_and, bit_or, List}
use black_circle.Prelude.Bits.{bit, complement, bit-bit_and, bit-bit_or, bit-complement}
use Prim.Native.Nat.{min, max}

-- `termios`: four words of 32 bits, and the control characters.
pub record Termios : Type 0 where
  pub c_iflag : ℕ
  pub c_oflag : ℕ
  pub c_cflag : ℕ
  pub c_lflag : ℕ
  pub c_cc : List ℕ

-- The masks that termios.h defines, as far as the constructor names them.
pub record Masks : Type 0 where
  pub ignbrk : ℕ
  pub brkint : ℕ
  pub parmrk : ℕ
  pub istrip : ℕ
  pub ixon : ℕ
  pub opost : ℕ
  pub echo : ℕ
  pub icanon : ℕ
  pub iexten : ℕ
  pub csize : ℕ
  pub parenb : ℕ
  pub cs8 : ℕ

-- POSIX: descriptors for the terminal (`refers`), its attributes (`mode`), and the calls on them.
pub record Tty (State : Type 0) : Type 0 where
  pub open_tty : State → State × ℕ
  pub tcgetattr : ℕ → State → Termios
  pub tcsetattr : ℕ → Termios → State → State
  pub close : ℕ → State → State
  pub refers : State → ℕ → Bool
  pub mode : State → Termios
  pub opens : (s : State) → mode (open_tty s).0 ≡ mode s
  pub gets : (fd : ℕ) (s : State) → refers s fd ≡ true → tcgetattr fd s ≡ mode s
  pub sets : (fd : ℕ) (m : Termios) (s : State) → refers s fd ≡ true → mode (tcsetattr fd m s) ≡ m
  pub closes : (fd : ℕ) (s : State) → mode (close fd s) ≡ mode s

-- `IGNBRK | BRKINT | PARMRK | ISTRIP | IXON`, `ECHO | ICANON | IEXTEN` and `CSIZE | PARENB`.
abbrev pub input_mask : Masks → ℕ
input_mask k = bit_or (bit_or (bit_or (bit_or k.ignbrk k.brkint) k.parmrk) k.istrip) k.ixon

abbrev pub local_mask : Masks → ℕ
local_mask k = bit_or (bit_or k.echo k.icanon) k.iexten

abbrev pub control_mask : Masks → ℕ
control_mask k = bit_or k.csize k.parenb

-- What the constructor makes of the terminal's attributes.
unfoldable pub raw : Masks → Termios → Termios
raw k t = record t {
  c_iflag = bit_and t.c_iflag (complement 32 (input_mask k));
  c_oflag = bit_and t.c_oflag (complement 32 k.opost);
  c_lflag = bit_and t.c_lflag (complement 32 (local_mask k));
  c_cflag = bit_or (bit_and t.c_cflag (complement 32 (control_mask k))) k.cs8;
}

-- `raw_termios` without `nt`, which is not used again.
pub record RawTermios : Type 0 where
  pub ot : Termios
  pub no : ℕ

module _ {State : Type 0} (os : Tty State) where
  -- The constructor.
  unfoldable pub raw_termios : Masks → State → State × RawTermios
  unfolding raw
  raw_termios k s =
      let (s1, fd) = os.open_tty s in
      let ot = os.tcgetattr fd s1 in (os.tcsetattr fd (raw k ot) s1, record { ot = ot; no = fd })

  -- The destructor.
  unfoldable pub cooked : RawTermios → State → State
  cooked r s = os.close r.no (os.tcsetattr r.no r.ot s)

-- A bit that is cleared where the mask has it.
abbrev pub cleared : ℕ → ℕ → ℕ
cleared b m = min b (1 - m)

bit-cleared :
    (i a m : ℕ)
    → i < 32
    → m < 2 ^ 32
    → bit i (bit_and a (complement 32 m)) ≡ cleared (bit i a) (bit i m)
bit-cleared i a m h k =
    bit-bit_and i a (complement 32 m) ∙ ap (min (bit i a)) (bit-complement 32 i m h k)

-- If the terminal can be opened and the masks are words: the constructor clears, bit by bit, those
-- of the masks in the four words, sets CS8, and leaves the control characters; and the destructor
-- sets the attributes back to those before the constructor, whatever they were changed to in
-- between.
pub cooked-raw_termios :
    {State : Type 0} (os : Tty State) (k : Masks) (s w : State) (i : ℕ)
    → let (v, r) = raw_termios os k s in
      let old = os.mode s in
      i < 32
      → input_mask k < 2 ^ 32
      → k.opost < 2 ^ 32
      → local_mask k < 2 ^ 32
      → control_mask k < 2 ^ 32
      → os.refers (os.open_tty s).0 r.no ≡ true
      → os.refers w r.no ≡ true
      → (bit i (os.mode v).c_iflag ≡ cleared (bit i old.c_iflag) (bit i (input_mask k)))
        × (bit i (os.mode v).c_oflag ≡ cleared (bit i old.c_oflag) (bit i k.opost))
        × (bit i (os.mode v).c_lflag ≡ cleared (bit i old.c_lflag) (bit i (local_mask k)))
        × (bit i (os.mode v).c_cflag
            ≡ max (cleared (bit i old.c_cflag) (bit i (control_mask k))) (bit i k.cs8))
        × ((os.mode v).c_cc ≡ old.c_cc)
        × (os.mode (cooked os r w) ≡ old)
unfolding raw_termios cooked raw
cooked-raw_termios os k s w i h in_ out loc con opened still =
    let (s1, fd) = os.open_tty s in
    let found : os.tcgetattr fd s1 ≡ os.mode s = os.gets fd s1 opened ∙ os.opens s in
    let now : os.mode (os.tcsetattr fd (raw k (os.tcgetattr fd s1)) s1) ≡ raw k (os.mode s) =
      os.sets fd (raw k (os.tcgetattr fd s1)) s1 opened ∙ ap (raw k) found in
    (
      rw now (bit-cleared i (os.mode s).c_iflag (input_mask k) h in_),
      rw now (bit-cleared i (os.mode s).c_oflag k.opost h out),
      rw now (bit-cleared i (os.mode s).c_lflag (local_mask k) h loc),
      rw now (
          bit-bit_or i (bit_and (os.mode s).c_cflag (complement 32 (control_mask k))) k.cs8
          ∙ ap (λ x. max x (bit i k.cs8))
              (bit-cleared i (os.mode s).c_cflag (control_mask k) h con)),
      rw now refl,
      rw
          (
            os.closes fd (os.tcsetattr fd (os.tcgetattr fd s1) w),
            os.sets fd (os.tcgetattr fd s1) w still,
          )
          found,
    )
