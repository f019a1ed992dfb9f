-- ===== src/Json/Utf8/Encode.antt =====
-- The encoder against RFC 3629: where it agrees, and the two ranges where a byte is missing.
use black_circle.Prelude.{
  ℕ, zero, suc, ◌+◌, ◌/◌, ◌%◌, ◌^◌, ◌≤◌, ◌<◌, ◌≡◌, ◌⊎◌, inl, inr, refl, ap, arith, ◌↔◌, length,
  drop, [], ◌∷◌, some, ◌∙◌, none, bit_and, bit_or, Bytes, ltb, leb, Bool, Bool-cases, ◌&&◌, ◌||◌,
  if◌then◌else◌,
}
use black_circle.Prelude.Bits.{or_low, and_7, and_15, and_31, and_63}
use black_circle.Json.Utf8.{push_loop, head_byte, shifts, ucn_to_utf8}

cont : (code : ℕ) → bit_or 0x80 (bit_and code 0x3F) ≡ 128 + code % 64
cont code = rw (and_63 code) (or_low 6 2 (code % 64) (omega arith))

-- The loop ends by its test on every `uint32_t`.
pub push_loop_ends : (code : ℕ) → code < 2 ^ 32 → (push_loop shifts code []).0 < 0x80
unfolding push_loop
push_loop_ends code h = ground arith

-- The UTF-8 form of a scalar value.
unfoldable pub utf8 : ℕ → Bytes
utf8 code =
    if ltb code 0x80
    then code ∷ []
    else if ltb code 0x800
    then (0xC0 + code / 64) ∷ (0x80 + code % 64) ∷ []
    else if ltb code 0x10000
    then (0xE0 + code / 4096) ∷ (0x80 + code / 64 % 64) ∷ (0x80 + code % 64) ∷ []
    else (0xF0 + code / 262144)
      ∷ (0x80 + code / 4096 % 64)
      ∷ (0x80 + code / 64 % 64)
      ∷ (0x80 + code % 64)
      ∷ []

-- A Unicode scalar value.
abbrev pub IsScalar : ℕ → Type 0
IsScalar code = (code < 0xD800) ⊎ (0xE000 ≤ code) × (code < 0x110000)

-- The loop stops as soon as seven bits are left, but the head byte of a longer form has room for
-- four or three: these values lose a byte.
abbrev pub IsShort : ℕ → Type 0
IsShort code = (0x800 ≤ code) × (code < 0x2000) ⊎ (0x10000 ≤ code) × (code < 0x80000)

head_byte-2 : (code : ℕ) → 0x80 ≤ code → code < 0x800 → head_byte code ≡ 0xC0 + code / 64
unfolding head_byte
head_byte-2 code lo hi =
    let masked = and_31 (code / 64) in
    let joined = or_low 5 6 (code / 64 % 32) (omega arith) in ground arith

head_byte-3 : (code : ℕ) → 0x800 ≤ code → code < 0x10000 → head_byte code ≡ 0xE0 + code / 4096
unfolding head_byte
head_byte-3 code lo hi =
    let masked = and_15 (code / 4096) in
    let joined = or_low 4 14 (code / 4096 % 16) (omega arith) in ground arith

head_byte-4 : (code : ℕ) → 0x10000 ≤ code → code < 0x110000 → head_byte code ≡ 0xF0 + code / 262144
unfolding head_byte
head_byte-4 code lo hi =
    let masked = and_7 (code / 262144) in
    let joined = or_low 3 30 (code / 262144 % 8) (omega arith) in ground arith

loop-0 : (f code : ℕ) (seq : Bytes) → code < 0x80 → push_loop f code seq ≡ (code, seq)
unfolding push_loop
loop-0 zero code seq h = refl
loop-0 (suc f) code seq h = ground arith

loop_step :
    (f code : ℕ) (seq : Bytes)
    → 0x80 ≤ code
    → push_loop (suc f) code seq ≡ push_loop f (code / 64) ((128 + code % 64) ∷ seq)
unfolding push_loop
loop_step f code seq h = ground (arith, cont code)

loop-1 :
    (f code : ℕ) (seq : Bytes)
    → 0x80 ≤ code
    → code < 0x2000
    → push_loop (suc f) code seq ≡ (code / 64, (128 + code % 64) ∷ seq)
loop-1 f code seq lo hi = loop_step f code seq lo ∙ loop-0 f (code / 64) _ (omega arith)

loop-2 :
    (f code : ℕ) (seq : Bytes)
    → 0x2000 ≤ code
    → code < 0x80000
    → push_loop (suc (suc f)) code seq
      ≡ (code / 64 / 64, (128 + code / 64 % 64) ∷ (128 + code % 64) ∷ seq)
loop-2 f code seq lo hi =
    loop_step (suc f) code seq (omega arith) ∙ loop-1 f (code / 64) _ (omega arith) (omega arith)

loop-3 :
    (f code : ℕ) (seq : Bytes)
    → 0x80000 ≤ code
    → code < 0x2000000
    → push_loop (suc (suc (suc f))) code seq ≡ (
      code / 64 / 64 / 64,
      (128 + code / 64 / 64 % 64) ∷ (128 + code / 64 % 64) ∷ (128 + code % 64) ∷ seq,
    )
loop-3 f code seq lo hi =
    loop_step (suc (suc f)) code seq (omega arith)
    ∙ loop-2 f (code / 64) _ (omega arith) (omega arith)

-- The bytes that the encoder makes where it does not refuse.
bytes_of : ℕ → Bytes
bytes_of code = head_byte code ∷ (push_loop shifts code []).1

ucn_to_utf8-scalar : (code : ℕ) → IsScalar code → ucn_to_utf8 code ≡ some (bytes_of code)
unfolding ucn_to_utf8 bytes_of
ucn_to_utf8-scalar code s = ground arith

form-1 : (code : ℕ) → code < 0x80 → bytes_of code ≡ utf8 code
unfolding bytes_of utf8 head_byte
form-1 code h = rw (loop-0 5 code [] h) (ground arith)

form-2 : (code : ℕ) → 0x80 ≤ code → code < 0x800 → bytes_of code ≡ utf8 code
unfolding bytes_of utf8
form-2 code lo hi = rw (loop-1 4 code [] lo (omega arith), head_byte-2 code lo hi) (ground arith)

form-3 : (code : ℕ) → 0x2000 ≤ code → code < 0x10000 → bytes_of code ≡ utf8 code
unfolding bytes_of utf8
form-3 code lo hi =
    rw (loop-2 3 code [] lo (omega arith), head_byte-3 code (omega arith) hi) (ground arith)

form-4 : (code : ℕ) → 0x80000 ≤ code → code < 0x110000 → bytes_of code ≡ utf8 code
unfolding bytes_of utf8
form-4 code lo hi =
    rw (loop-3 2 code [] lo (omega arith), head_byte-4 code (omega arith) hi) (ground arith)

-- A scalar value outside the ranges of `IsShort` is encoded as RFC 3629 says.
pub ucn_to_utf8-utf8 :
    (code : ℕ) → IsScalar code → ¬ IsShort code → ucn_to_utf8 code ≡ some (utf8 code)
ucn_to_utf8-utf8 code s h =
    rw (ucn_to_utf8-scalar code s)
      (ground (arith, form-1 code, form-2 code, form-3 code, form-4 code))

short-3 :
    (code : ℕ)
    → 0x800 ≤ code
    → code < 0x2000
    → bytes_of code ≡ (0xE0 + code / 4096) ∷ (128 + code % 64) ∷ []
unfolding bytes_of
short-3 code lo hi = rw (loop-1 4 code [] (omega arith) hi, head_byte-3 code lo (omega arith))

short-4 :
    (code : ℕ)
    → 0x10000 ≤ code
    → code < 0x80000
    → bytes_of code ≡ (0xF0 + code / 262144) ∷ (128 + code / 64 % 64) ∷ (128 + code % 64) ∷ []
unfolding bytes_of
short-4 code lo hi = rw (loop-2 3 code [] (omega arith) hi, head_byte-4 code lo (omega arith))

-- In the ranges of `IsShort` the first continuation byte is missing, so the result is not UTF-8: of
-- a form of three bytes the head and the last byte are written, of a form of four the head and the
-- last two.
pub ucn_to_utf8_short :
    (code : ℕ)
    → IsShort code
    → (s : Bytes) × (ucn_to_utf8 code ≡ some s)
      × (length s + 1 ≡ length (utf8 code))
      × (s ≡ head_byte code ∷ drop 2 (utf8 code))
unfolding utf8
ucn_to_utf8_short code (inl h) = (
  (0xE0 + code / 4096) ∷ (128 + code % 64) ∷ [],
  ucn_to_utf8-scalar code (omega arith) ∙ ap some (short-3 code h.0 h.1),
  ground arith,
  ground (arith, head_byte-3 code),
)
ucn_to_utf8_short code (inr h) = (
  (0xF0 + code / 262144) ∷ (128 + code / 64 % 64) ∷ (128 + code % 64) ∷ [],
  ucn_to_utf8-scalar code (omega arith) ∙ ap some (short-4 code h.0 h.1),
  ground arith,
  ground (arith, head_byte-4 code),
)

-- The values that are refused are exactly the surrogates.
pub ucn_to_utf8_refuses : (code : ℕ) → (ucn_to_utf8 code ≡ none) ↔ (0xD800 ≤ code) × (code < 0xE000)
unfolding ucn_to_utf8
ucn_to_utf8_refuses code = (λ h. ground arith, λ h. ground arith)

abbrev pub is_surrogate : ℕ → Bool
is_surrogate code = leb 0xD800 code && ltb code 0xE000

abbrev pub is_short : ℕ → Bool
is_short code = leb 0x800 code && ltb code 0x2000 || leb 0x10000 code && ltb code 0x80000

-- Of the values below 0x110000 exactly the surrogates are refused. The others are encoded as RFC
-- 3629 says, but for U+0800 to U+1FFF and U+10000 to U+7FFFF, where the byte behind the head is
-- missing, so that the result is one byte short and not UTF-8.
pub ucn_to_utf8_lem :
    (code : ℕ)
    → code < 0x110000
    → ucn_to_utf8 code ≡ (
        if is_surrogate code
        then none
        else (if is_short code
            then some (head_byte code ∷ drop 2 (utf8 code))
            else some (utf8 code)))
ucn_to_utf8_lem code h = elim (Bool-cases (is_surrogate code)) [
  | inl held ↦ rw held ((ucn_to_utf8_refuses code).1 (ground arith))
  | inr valid ↦ rw valid (elim (Bool-cases (is_short code)) [
    | inl held ↦ let (t, e, l, d) = ucn_to_utf8_short code (ground arith) in rw held (e ∙ ap some d)
    | inr other ↦ rw other (ucn_to_utf8-utf8 code (ground arith) (ground arith))
  ])
]
