-- ===== src/Json/Utf8.antt =====
-- `ucn_to_utf8_t` of json_parser_inst.cc: a code point as UTF-8.
pub mod Encode
use black_circle.Prelude.{
  ℕ, zero, suc, ◌/◌, ◌%◌, ◌^◌, ◌&&◌, List, [], ◌∷◌, Option, none, some, bit_and, bit_or, Bytes, leb,
  ltb, if◌then◌else◌,
}

-- `while (code >= 0x80)` over `code` and the deque `seq`, with fuel.
unfoldable pub push_loop : ℕ → ℕ → Bytes → ℕ × Bytes
push_loop zero code seq = (code, seq)
push_loop (suc fuel) code seq =
    let rest = push_loop fuel (code / 2 ^ 6) (bit_or 0x80 (bit_and code 0x3F) ∷ seq) in
    if leb 0x80 code then rest else (code, seq)

-- The chain of `else if`s that sets `head`, after the test for a surrogate.
unfoldable pub head_byte : ℕ → ℕ
head_byte code =
    if leb 0x04000000 code
    then bit_or 0xFC (bit_and (code / 2 ^ 30) 0x01)
    else if leb 0x00200000 code
    then bit_or 0xF8 (bit_and (code / 2 ^ 24) 0x03)
    else if leb 0x00010000 code
    then bit_or 0xF0 (bit_and (code / 2 ^ 18) 0x07)
    else if leb 0x00000800 code
    then bit_or 0xE0 (bit_and (code / 2 ^ 12) 0x0F)
    else if leb 0x00000080 code
    then bit_or 0xC0 (bit_and (code / 2 ^ 6) 0x1F)
    else code % 256

-- A `uint32_t` is below 0x80 after five shifts at most (`push_loop_ends`).
abbrev pub shifts : ℕ
shifts = 5

-- `none` is a result of `false`, which leaves `res` as it was.
unfoldable pub ucn_to_utf8 : ℕ → Option Bytes
ucn_to_utf8 code =
    if leb 0xD800 code && ltb code 0xE000
    then none
    else some (head_byte code ∷ (push_loop shifts code []).1)
