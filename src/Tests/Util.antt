-- ===== src/Tests/Util.antt =====
-- Escapes, digests and code points.
use black_circle.Prelude.{
  ◌<◌, ◌≡◌, refl, arith, [], ◌∷◌, none, some, Bytes, AllBytes, codes, drop, if◌then◌else◌,
}
use black_circle.Util.Escape.{url_escape}
use black_circle.Util.Hex.{hexanizer, hex_digit}
use black_circle.Util.Escape.Decode.{url_unescape}
use black_circle.Util.Base64.{base64_encode}
use black_circle.Util.Base64.Decode.{base64_decode}
use black_circle.Util.Received.{encodings_received}
use black_circle.Json.Utf8.{head_byte, push_loop, shifts, ucn_to_utf8}
use black_circle.Json.Utf8.Encode.{utf8, is_surrogate, is_short, ucn_to_utf8_lem, push_loop_ends}

-- A byte above 127, a reserved one, and one that is kept.
abbrev sample : Bytes
sample = 200 ∷ b'&' ∷ b'a' ∷ b'%' ∷ []

sample-AllBytes : AllBytes sample
sample-AllBytes = omega arith

url_escape_run : url_escape sample ≡ codes "%C8%26a%25"
unfolding url_escape hexanizer hex_digit
url_escape_run = refl

base64_encode_run : base64_encode sample ≡ codes "yCZhJQ=="
unfolding base64_encode
base64_encode_run = refl

encodings_received_example :
    (url_unescape (url_escape sample) ≡ some sample)
    × (base64_decode (base64_encode sample) ≡ some sample)
encodings_received_example = encodings_received sample sample-AllBytes

-- U+0E01.
ucn_to_utf8_lem_example : ucn_to_utf8 0xE01 ≡ (
    if is_surrogate 0xE01
    then none
    else (if is_short 0xE01
        then some (head_byte 0xE01 ∷ drop 2 (utf8 0xE01))
        else some (utf8 0xE01)))
ucn_to_utf8_lem_example = ucn_to_utf8_lem 0xE01 (omega arith)

ucn_to_utf8_short_run : ucn_to_utf8 0xE01 ≡ some (0xE0 ∷ 0x81 ∷ [])
unfolding ucn_to_utf8 head_byte push_loop
ucn_to_utf8_short_run = refl

push_loop_ends_example : (push_loop shifts 0xFFFFFFFF []).0 < 0x80
push_loop_ends_example = push_loop_ends 0xFFFFFFFF (omega arith)
