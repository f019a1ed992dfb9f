-- ===== src/Util/Base64/Decode.antt =====
-- Base64 against the decoder of RFC 4648.
use black_circle.Prelude.{
  false, All-append, ℕ, zero, suc, ◌+◌, ◌*◌, ◌-◌, ◌/◌, ◌%◌, ◌^◌, ◌<◌, [], ◌∷◌, ◌++◌, Option, none,
  some, ◌≡◌, refl, arith, bit_and, length, Bytes, AllBytes, leb, ltb, ◌==◌, ◌&&◌, if◌then◌else◌,
}
use black_circle.Util.Base64.{
  base64_convert_single, read_group, emit_group, encode_loop, base64_encode,
}
use black_circle.Util.Base64.Rounds.{sixth, encoded, base64_encode-encoded}

-- The value of a character of the alphabet.
sextet : ℕ → Option ℕ
sextet c =
    if leb b'A' c && leb c b'Z'
    then some (c - b'A')
    else if leb b'a' c && leb c b'z'
    then some (c - b'a' + 26)
    else if leb b'0' c && leb c b'9'
    then some (c - b'0' + 52)
    else if c == b'+'
    then some 62
    else if c == b'/'
    then some 63
    else none

sextet-base64_convert_single : (v : ℕ) → v < 64 → sextet (base64_convert_single v) ≡ some v
unfolding sextet base64_convert_single
sextet-base64_convert_single v h = ground arith

-- The bytes that four characters stand for, and whether padding has ended the text.
abbrev quad : ℕ → ℕ → ℕ → ℕ → Option Bytes
quad x y c d =
    if c == b'='
    then (if d == b'=' then some ((x * 4 + y / 16) ∷ []) else none)
    else elim (sextet c) [
      | none ↦ none
      | some z ↦
          if d == b'='
          then some ((x * 4 + y / 16) ∷ (y % 16 * 16 + z / 4) ∷ [])
          else elim (sextet d) [
            | none ↦ none
            | some w ↦ some ((x * 4 + y / 16) ∷ (y % 16 * 16 + z / 4) ∷ (z % 4 * 64 + w) ∷ [])
          ]
    ]

quartet : ℕ → ℕ → ℕ → ℕ → Option Bytes
quartet a b c d = elim (sextet a) [
  | none ↦ none
  | some x ↦ elim (sextet b) [ none ↦ none | some y ↦ quad x y c d ]
]

-- Four characters at a time; after a padded group nothing may follow.
pub base64_decode : Bytes → Option Bytes
base64_decode [] = some []
base64_decode (a ∷ b ∷ c ∷ d ∷ r) =
    let more = base64_decode r in
    elim (quartet a b c d) [
      | none ↦ none
      | some s ↦ elim more [
        | none ↦ none
        | some t ↦ if d == b'=' && ltb 0 (length r) then none else some (s ++ t)
      ]
    ]
base64_decode _ = none

sixth-ne-pad : (v : ℕ) → v < 64 → (base64_convert_single v == b'=') ≡ false
unfolding base64_convert_single
sixth-ne-pad v h = ground arith

module _ (a : ℕ) (ha : a < 256) where
  quartet-1 : quartet (sixth (a / 4)) (sixth (a % 4 * 16)) b'=' b'=' ≡ some (a ∷ [])
  unfolding quartet
  quartet-1 = ground (
    arith,
    sextet-base64_convert_single (a / 4) (omega arith),
    sextet-base64_convert_single (a % 4 * 16) (omega arith),
  )

  module _ (b : ℕ) (hb : b < 256) where
    quartet-2 :
        quartet (sixth (a / 4)) (sixth (a % 4 * 16 + b / 16)) (sixth (b % 16 * 4)) b'='
        ≡ some (a ∷ b ∷ [])
    unfolding quartet
    quartet-2 = ground (
      arith,
      sextet-base64_convert_single (a / 4) (omega arith),
      sextet-base64_convert_single (a % 4 * 16 + b / 16) (omega arith),
      sextet-base64_convert_single (b % 16 * 4) (omega arith),
      sixth-ne-pad (b % 16 * 4) (omega arith),
    )

    module _ (c : ℕ) (hc : c < 256) where
      quartet-3 :
          quartet
            (sixth (a / 4))
            (sixth (a % 4 * 16 + b / 16))
            (sixth (b % 16 * 4 + c / 64))
            (sixth (c % 64))
          ≡ some (a ∷ b ∷ c ∷ [])
      unfolding quartet
      quartet-3 = ground (
        arith,
        sextet-base64_convert_single (a / 4) (omega arith),
        sextet-base64_convert_single (a % 4 * 16 + b / 16) (omega arith),
        sextet-base64_convert_single (b % 16 * 4 + c / 64) (omega arith),
        sextet-base64_convert_single (c % 64) (omega arith),
        sixth-ne-pad (b % 16 * 4 + c / 64) (omega arith),
        sixth-ne-pad (c % 64) (omega arith),
      )

decode-encoded : (s : Bytes) → AllBytes s → base64_decode (encoded s) ≡ some s
unfolding base64_decode encoded
decode-encoded [] all = refl
decode-encoded (a ∷ []) all = rw (quartet-1 a all.0, base64_decode)
decode-encoded (a ∷ b ∷ []) all = rw (quartet-2 a all.0 b all.1.0, base64_decode)
decode-encoded (a ∷ b ∷ c ∷ s) all = ground (
  arith,
  quartet-3 a all.0 b all.1.0 c all.1.1.0,
  decode-encoded s all.1.1.1,
  sixth-ne-pad (c % 64) (omega arith),
)

-- Decoding the encoding of any bytes gives them back: nothing is lost at the padding, and the loop
-- ends by its test.
pub base64_decode-base64_encode :
    (s : Bytes) → AllBytes s → base64_decode (base64_encode s) ≡ some s
base64_decode-base64_encode s all = rw (base64_encode-encoded s all) (decode-encoded s all)

length-encoded : (s : Bytes) → length (encoded s) ≡ 4 * ((length s + 2) / 3)
unfolding encoded
length-encoded [] = refl
length-encoded (a ∷ []) = refl
length-encoded (a ∷ b ∷ []) = refl
length-encoded (a ∷ b ∷ c ∷ s) = omega (arith, length-encoded s)

-- Every three bytes begun take four characters.
pub length-base64_encode :
    (s : Bytes) → AllBytes s → length (base64_encode s) ≡ 4 * ((length s + 2) / 3)
length-base64_encode s all = rw (base64_encode-encoded s all) (length-encoded s)

convert-IsByte : (v : ℕ) → base64_convert_single v < 256
unfolding base64_convert_single
convert-IsByte v = ground arith

emit_group-AllBytes : (tmp pad : ℕ) → AllBytes (emit_group tmp pad)
unfolding emit_group
emit_group-AllBytes tmp pad = ground (
  arith,
  convert-IsByte (bit_and (tmp / 2 ^ 18) 0x3F),
  convert-IsByte (bit_and (tmp / 2 ^ 12) 0x3F),
  convert-IsByte (bit_and (tmp / 2 ^ 6) 0x3F),
  convert-IsByte (bit_and tmp 0x3F),
)

encode_loop-AllBytes :
    (fuel : ℕ) (src ret : Bytes) → AllBytes ret → AllBytes (encode_loop fuel src ret)
unfolding encode_loop
encode_loop-AllBytes fuel [] ret h = h
encode_loop-AllBytes zero (c ∷ src) ret h = h
encode_loop-AllBytes (suc f) (c ∷ src) ret h =
    let g = read_group 3 0 0 (c ∷ src) in
    encode_loop-AllBytes f g.rest (ret ++ emit_group g.tmp g.pad)
      (All-append _ ret (emit_group g.tmp g.pad) h (emit_group-AllBytes g.tmp g.pad))

pub base64_encode-AllBytes : (s : Bytes) → AllBytes (base64_encode s)
unfolding base64_encode
base64_encode-AllBytes s = encode_loop-AllBytes (length s) s [] tt
