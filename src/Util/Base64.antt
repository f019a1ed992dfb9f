-- ===== src/Util/Base64.antt =====
-- `base64_encoder` of util.hpp. The program encodes a `vector<unsigned char>`, so each `*ite` is a
-- byte; `end - ite` is the list of the bytes left.
pub mod Decode
mod Rounds
use black_circle.Prelude.{
  ℕ, zero, suc, ◌+◌, ◌*◌, ◌-◌, ◌/◌, ◌%◌, ◌^◌, [], ◌∷◌, ◌++◌, bit_and, bit_or, Bytes, leb, ltb, ◌==◌,
  length, if◌then◌else◌,
}

-- `c < 0` is a byte of 128 or more.
pub base64_convert_single : ℕ → ℕ
base64_convert_single c =
    if leb 128 c
    then b'='
    else if ltb c 26
    then b'A' + c
    else if ltb c 52
    then b'a' + c - 26
    else if ltb c 62
    then b'0' + c - 52
    else if c == 62
    then b'+'
    else if c == 63
    then b'/'
    else b'='

-- The variables that the inner `for` changes.
pub record Group : Type 0 where
  pub tmp : ℕ
  pub pad : ℕ
  pub rest : Bytes

abbrev shl8 : ℕ → ℕ
shl8 tmp = (tmp * 2 ^ 8) % 2 ^ 32

-- The inner `for`, by the rounds left.
pub read_group : ℕ → ℕ → ℕ → Bytes → Group
read_group zero tmp pad rest = record { tmp = tmp; pad = pad; rest = rest }
read_group (suc n) tmp pad [] = read_group n (shl8 tmp) (pad + 1) []
read_group (suc n) tmp pad (c ∷ rest) = read_group n (bit_or (shl8 tmp) c) pad rest

-- The four characters that a round of the `while` appends.
pub emit_group : ℕ → ℕ → Bytes
emit_group tmp pad =
    base64_convert_single (bit_and (tmp / 2 ^ 18) 0x3F)
    ∷ base64_convert_single (bit_and (tmp / 2 ^ 12) 0x3F)
    ∷ (if ltb 1 pad then b'=' else base64_convert_single (bit_and (tmp / 2 ^ 6) 0x3F))
    ∷ (if ltb 0 pad then b'=' else base64_convert_single (bit_and tmp 0x3F))
    ∷ []

-- `while (ite != end)`, with one unit of fuel for each round.
pub encode_loop : ℕ → Bytes → Bytes → Bytes
encode_loop fuel [] ret = ret
encode_loop zero (c ∷ src) ret = ret
encode_loop (suc fuel) (c ∷ src) ret =
    let g = read_group 3 0 0 (c ∷ src) in encode_loop fuel g.rest (ret ++ emit_group g.tmp g.pad)

-- A round takes at least one byte, so the length is fuel enough (`base64_decode-base64_encode`).
unfoldable pub base64_encode : Bytes → Bytes
unfolding encode_loop read_group emit_group base64_convert_single
base64_encode src = encode_loop (length src) src []
