-- ===== src/Conversion.antt =====
-- conversion.cc where iconv does the work. The three loops differ in the types of their texts alone:
-- a `vector<wchar_t>` is taken as the bytes that iconv reads and writes.
pub mod Ends
pub mod Skips
pub mod Windows
use black_circle.Prelude.{
  ℕ, zero, suc, ◌+◌, ◌-◌, ◌≤◌, Bool, true, false, not, ◌&&◌, refl, arith, ◌||◌, ◌≡◌, ◌≢◌, List, [],
  ◌∷◌, ◌++◌, Option, none, some, Bytes, codes, length, drop, if◌then◌else◌, ◌==◌,
}

abbrev pub is_nil : Bytes → Bool
is_nil [] = true
is_nil (c ∷ s) = false

-- What one call of `iconv` does: whether it returned a count (`r >= 0`), the input from `inbuf` on
-- afterwards, what it wrote, and the shift state that it keeps.
pub record Call (S : Type 0) : Type 0 where
  pub ok : Bool
  pub rest : Bytes
  pub out : Bytes
  pub state : S

-- A conversion descriptor, with what iconv documents of a call: it reads from the front, it stays
-- within the output buffer, and it reads to the end if it does not report an error.
pub record Iconv : Type 1 where
  pub State : Type 0
  pub start : State
  pub call : State → Bytes → ℕ → Call State
  pub reads :
      (st : State) (s : Bytes) (room : ℕ) → (read : Bytes) × (s ≡ read ++ (call st s room).rest)
  pub fits : (st : State) (s : Bytes) (room : ℕ) → length (call st s room).out ≤ room
  pub done :
      (st : State) (s : Bytes) (room : ℕ) → (call st s room).ok ≡ true → (call st s room).rest ≡ []

-- A descriptor that was opened reports an error at a byte that it does not read.
abbrev pub IsOpened : Iconv → Type 0
IsOpened cd =
    (st : cd.State) (s : Bytes) (room : ℕ)
    → (cd.call st s room).ok ≡ false
    → (cd.call st s room).rest ≢ []

-- `(iconv_t)-1`, on which every call fails with `EBADF` and reads nothing.
abbrev pub unopened : Iconv
unopened = record {
  State = Unit {0};
  start = tt;
  call = λ st s room. record { ok = false; rest = s; out = []; state = st };
  reads = λ st s room. ([], refl);
  fits = λ st s room. omega arith;
  done = λ st s room h. cc;
}

-- `array<char, 1024> buf`.
abbrev pub buf_size : ℕ
buf_size = 1024

-- The size of a `wchar_t`.
abbrev pub wchar_size : ℕ
wchar_size = 4

module _ (cd : Iconv) where
  open cd use {State, start, call}

  -- `if (r<0) ++inbuf, --inbytesleft`.
  abbrev pub next_input : Call State → Bytes
  next_input c = if c.ok then c.rest else drop 1 c.rest

  -- Whether `--inbytesleft` wraps round: the call failed with no byte left. The loop then goes on
  -- for `SIZE_MAX` bytes more, behind the text.
  abbrev pub wraps : Call State → Bool
  wraps c = not c.ok && is_nil c.rest

  -- The `do … while (inbytesleft > 0)`, with fuel; `none` is that the fuel ran out, or that the loop
  -- leaves the text.
  pub convert_loop : ℕ → State → Bytes → Bytes → Option Bytes
  convert_loop zero st s ret = none
  convert_loop (suc fuel) st s ret =
      let c = call st s buf_size in
      let more = convert_loop fuel c.state (next_input c) (ret ++ c.out) in
      if wraps c then none else elim (next_input c) [ [] ↦ some (ret ++ c.out) | _ ∷ _ ↦ more ]

  -- A round reads or passes over a byte at least, but for the one round on the empty text.
  unfoldable pub narrow_to_narrow : Bytes → Option Bytes
  unfolding convert_loop
  narrow_to_narrow s = convert_loop (length s + 1) start s []

-- `narrow_to_wide` and `wide_to_narrow` run the same loop. The source takes `&seq.front()` of an
-- empty vector too, an address that iconv is told to read no byte of.
abbrev pub narrow_to_wide : Iconv → Bytes → Option Bytes
narrow_to_wide = narrow_to_narrow

abbrev pub wide_to_narrow : Iconv → Bytes → Option Bytes
wide_to_narrow = narrow_to_narrow

pub data IoEncoding : Type 0 where
  enc_utf_8 enc_system : IoEncoding

-- `iconv_open(to, from)`, `none` where it fails; "" names the encoding of the locale.
pub record IconvLibrary : Type 1 where
  pub iconv_open : Bytes → Bytes → Option Iconv
  pub opened : (to from : Bytes) (cd : Iconv) → iconv_open to from ≡ some cd → IsOpened cd

-- The descriptor that the program goes on with; it does not look whether it was opened.
abbrev pub descriptor : Option Iconv → Iconv
descriptor none = unopened
descriptor (some cd) = cd

abbrev pub name_of : IoEncoding → Bytes
name_of enc_utf_8 = codes "UTF-8"
name_of enc_system = []

module _ (lib : IconvLibrary) where
  open lib use {iconv_open}

  unfoldable pub extern_to_wide : IoEncoding → Bytes → Option Bytes
  extern_to_wide coding s =
      narrow_to_wide (descriptor (iconv_open (codes "wchar_t") (name_of coding))) s

  unfoldable pub wide_to_extern : IoEncoding → Bytes → Option Bytes
  wide_to_extern coding s =
      wide_to_narrow (descriptor (iconv_open (name_of coding) (codes "wchar_t"))) s

  unfoldable pub utf8_to_extern : IoEncoding → Bytes → Option Bytes
  utf8_to_extern enc_utf_8 s = some s
  utf8_to_extern enc_system [] = some []
  utf8_to_extern enc_system (c ∷ s) =
      narrow_to_narrow (descriptor (iconv_open [] (codes "UTF-8"))) (c ∷ s)

  unfoldable pub extern_to_utf8 : IoEncoding → Bytes → Option Bytes
  extern_to_utf8 enc_utf_8 s = some s
  extern_to_utf8 enc_system [] = some []
  extern_to_utf8 enc_system (c ∷ s) =
      narrow_to_narrow (descriptor (iconv_open (codes "UTF-8") [])) (c ∷ s)
