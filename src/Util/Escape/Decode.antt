-- ===== src/Util/Escape/Decode.antt =====
-- Escaping against a percent decoder: the round trip, and the bytes that escaped text is made of.
use black_circle.Prelude.{
  ℕ, ◌+◌, ◌*◌, ◌/◌, ◌%◌, ◌≤◌, ◌<◌, true, false, [], ◌∷◌, ◌++◌, foldl, Option, none, some, ◌≡◌, ◌⊎◌,
  refl, sym, ap, ◌∙◌, arith, append-nil, append_assoc, Bytes, AllBytes, codes, ◌==◌, All,
  All-append,
}
use black_circle.Util.Hex.{hex_digit, hexanizer, hex_value, hex_value-hex_digit, hexanizer_lem}
use black_circle.Util.Escape.{do_escape, url_escape}

-- The unreserved characters of RFC 3986.
abbrev pub IsUnreserved : ℕ → Type 0
IsUnreserved c =
    ((b'0' ≤ c) × (c ≤ b'9'))
    ⊎ ((b'a' ≤ c) × (c ≤ b'z'))
    ⊎ ((b'A' ≤ c) × (c ≤ b'Z'))
    ⊎ (c ≡ b'-')
    ⊎ (c ≡ b'.')
    ⊎ (c ≡ b'_')
    ⊎ (c ≡ b'~')

abbrev pub IsSafe : ℕ → Type 0
IsSafe c = IsUnreserved c ⊎ (c ≡ b'%')

-- What one byte is escaped to.
unfoldable pub escaped_byte : ℕ → Bytes
unfolding do_escape
escaped_byte c = do_escape [] c

do_escape-escaped_byte : (str : Bytes) (c : ℕ) → do_escape str c ≡ str ++ escaped_byte c
unfolding escaped_byte hexanizer
do_escape-escaped_byte str c = ground arith

foldl-do_escape : (s t out : Bytes) → foldl do_escape (out ++ t) s ≡ out ++ foldl do_escape t s
foldl-do_escape [] t out = refl
foldl-do_escape (c ∷ s) t out =
    rw (do_escape-escaped_byte (out ++ t) c, do_escape-escaped_byte t c, append_assoc)
      (foldl-do_escape s (t ++ escaped_byte c) out)

pub url_escape-cons : (c : ℕ) (s : Bytes) → url_escape (c ∷ s) ≡ escaped_byte c ++ url_escape s
unfolding url_escape
url_escape-cons c s =
    ap (λ t. foldl do_escape t s) (do_escape-escaped_byte [] c ∙ sym (append-nil _))
    ∙ foldl-do_escape s [] (escaped_byte c)

pub url_escape-nil : url_escape [] ≡ []
unfolding url_escape
url_escape-nil = refl

-- Escaping works byte by byte: the escape of a concatenation is the concatenation of the escapes.
pub url_escape-append : (s t : Bytes) → url_escape (s ++ t) ≡ url_escape s ++ url_escape t
url_escape-append [] t = rw url_escape-nil
url_escape-append (c ∷ s) t =
    rw (url_escape-cons c (s ++ t), url_escape-cons c s, append_assoc)
      (ap (◌++◌ (escaped_byte c)) (url_escape-append s t))

-- How far the percent decoder of a server is inside an escape.
data Pending : Type 0 where
  plain first : Pending
  second : ℕ → Pending

abbrev prepend : ℕ → Option Bytes → Option Bytes
prepend c none = none
prepend c (some s) = some (c ∷ s)

decode : Pending → Bytes → Option Bytes
decode plain [] = some []
decode first [] = none
decode (second v) [] = none
decode plain (c ∷ s) = elim (c == b'%') [
  | true ↦ decode first s
  | false ↦ prepend c (decode plain s)
]
decode first (c ∷ s) = elim (hex_value c) [ none ↦ none | some v ↦ decode (second v) s ]
decode (second v) (c ∷ s) = elim (hex_value c) [
  | none ↦ none
  | some w ↦ prepend (v * 16 + w) (decode plain s)
]

-- The percent decoder of a server: `none` on an unfinished escape or a bad digit.
pub url_unescape : Bytes → Option Bytes
unfolding decode
url_unescape s = decode plain s

decode-escaped_byte :
    (c : ℕ) (s : Bytes) → c < 256 → decode plain (escaped_byte c ++ s) ≡ prepend c (decode plain s)
unfolding decode escaped_byte
decode-escaped_byte c s h = ground (
  arith,
  hexanizer_lem (codes "%") [] c h,
  hex_value-hex_digit (c / 16) (omega arith),
  hex_value-hex_digit (c % 16) (omega arith),
)

decode-url_escape : (s : Bytes) → AllBytes s → decode plain (url_escape s) ≡ some s
decode-url_escape [] h = rw url_escape-nil (unfold decode in refl)
decode-url_escape (c ∷ s) h =
    rw (url_escape-cons c s, decode-escaped_byte c (url_escape s) h.0, decode-url_escape s h.1)

-- A server that percent-decodes what `url_escape` wrote reads the bytes that were escaped, all 256
-- byte values included.
pub url_unescape-url_escape : (s : Bytes) → AllBytes s → url_unescape (url_escape s) ≡ some s
unfolding url_unescape
url_unescape-url_escape s h = decode-url_escape s h

-- Different texts are escaped differently.
pub url_escape-injective :
    (s t : Bytes) → AllBytes s → AllBytes t → url_escape s ≡ url_escape t → s ≡ t
url_escape-injective s t hs ht e = cc (url_unescape-url_escape s hs, url_unescape-url_escape t ht)

hex_digit-IsSafe : (i : ℕ) → i < 16 → IsSafe (hex_digit i)
hex_digit-IsSafe i h = ground (arith, hex_value-hex_digit i h)

escaped_byte-IsSafe : (c : ℕ) → c < 256 → All IsSafe (escaped_byte c)
unfolding escaped_byte
escaped_byte-IsSafe c h = ground (
  arith,
  hexanizer_lem (codes "%") [] c h,
  hex_digit-IsSafe (c / 16) (omega arith),
  hex_digit-IsSafe (c % 16) (omega arith),
)

-- Escaped text holds unreserved characters and `%` alone, so none of the `&`, `=`, `"` and `,` that
-- delimit parameters.
pub url_escape-IsSafe : (s : Bytes) → AllBytes s → All IsSafe (url_escape s)
url_escape-IsSafe [] h = rw url_escape-nil tt
url_escape-IsSafe (c ∷ s) h = rw (url_escape-cons c s) (
    All-append IsSafe (escaped_byte c) (url_escape s) (escaped_byte-IsSafe c h.0)
      (url_escape-IsSafe s h.1))
