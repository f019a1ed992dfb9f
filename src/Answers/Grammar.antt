-- ===== src/Answers/Grammar.antt =====
-- The grammars of http_client_inst.cc. An `expectation_failure` is `none`.
pub mod Header
pub mod Params
pub mod Size
use black_circle.Prelude.{ℕ, List, [], ◌∷◌, map, ◌≡◌, refl, Option, none, some, Bytes, codes}
use black_circle.Prelude.Int.{ℤ}
use black_circle.StringMap.{StringMap, insert}
use black_circle.Http.{Response}
use black_circle.Qi.{Qi, Parsed, matched, failed, threw}

-- The attribute of a header line, and of a parameter: a key and a value, and two literals.
abbrev pub Line : Type 0
Line = ((Bytes × Unit {0}) × Bytes) × Unit {0}

-- `insert(ref(res.header), pair)` for each line.
pub insert_lines : List Line → StringMap Bytes → StringMap Bytes
insert_lines [] m = m
insert_lines (l ∷ ls) m = insert_lines ls (insert l.0.0.0 l.0.1 m)

module _ (q : Qi) where
  open q use {Rule, run, lit, some_but, many_but, digit, int, hex, seq, expect, many}

  -- `hex > *(char_ - '\n') > '\n'`.
  abbrev pub size_line : Rule ((ℕ × Bytes) × Unit {0})
  size_line = expect (expect hex (many_but (codes "\n"))) (lit (codes "\n"))

  -- `parse_chunk_size`: the size, which is 0 before, and what it leaves of the buffer.
  abbrev pub size_of : Bytes → Parsed ((ℕ × Bytes) × Unit {0}) → Option (ℕ × Bytes)
  size_of s (matched x t) = some (x.0.0, t)
  size_of s failed = some (0, s)
  size_of s threw = none

  unfoldable pub parse_chunk_size : Bytes → Option (ℕ × Bytes)
  parse_chunk_size s = size_of s (run size_line s)

  -- `"HTTP/" > digit > '.' > digit > ' ' > int_ > ' ' > as_string[+(char_ - '\r')] > "\r\n"`; the
  -- attributes that are read are the last but two and the last but one.
  abbrev pub version : Rule ((((Unit {0} × ℕ) × Unit {0}) × ℕ) × Unit {0})
  version =
      expect (expect (expect (expect (lit (codes "HTTP/")) digit) (lit (codes "."))) digit)
        (lit (codes " "))

  abbrev pub status_line :
      Rule
        (((((((((Unit {0} × ℕ) × Unit {0}) × ℕ) × Unit {0}) × ℤ) × Unit {0}) × Bytes)) × Unit {0})
  status_line =
      expect (expect (expect (expect version int) (lit (codes " "))) (some_but (codes "\r")))
        (lit (codes "\r\n"))

  -- `as_string[+(char_ - '\r' - ':')] > ": " > as_string[+(char_ - '\r')] > "\r\n"`.
  abbrev pub header_line : Rule Line
  header_line =
      expect (expect (expect (some_but (codes "\r:")) (lit (codes ": "))) (some_but (codes "\r")))
        (lit (codes "\r\n"))

  abbrev pub header_block : Rule (List Line × Unit {0})
  header_block = expect (many header_line) (lit (codes "\r\n"))

  -- The second `parse`, behind what the first has read.
  pub parse_lines : Response → Bytes → Option (Response × Bytes)
  unfolding insert_lines
  parse_lines r s = elim (run header_block s) [
    | matched x t ↦ some (record r { header = insert_lines x.0 r.header }, t)
    | failed ↦ some (r, s)
    | threw ↦ none
  ]

  -- `parse_header`: the response, and what it leaves of the buffer. A text that does not begin with
  -- "HTTP/" is taken for header lines.
  unfoldable pub parse_header : Response → Bytes → Option (Response × Bytes)
  unfolding parse_lines
  parse_header r s = elim (run status_line s) [
    | matched x t ↦ parse_lines (record r { code = x.0.0.0.1; reason = x.0.1 }) t
    | failed ↦ parse_lines r s
    | threw ↦ none
  ]

  -- `+(char_ - '=') >> '=' >> +(char_ - '&') >> '&'`.
  abbrev pub param : Rule Line
  param =
      seq (seq (seq (some_but (codes "=")) (lit (codes "="))) (some_but (codes "&")))
        (lit (codes "&"))

  abbrev pub params_of : Parsed (List Line) → StringMap Bytes
  params_of (matched ps t) = insert_lines ps []
  params_of failed = []
  params_of threw = []

  -- `split_params`. Its grammar has no `>`, so `parse` throws nothing.
  unfoldable pub split_params : Bytes → StringMap Bytes
  unfolding insert_lines
  split_params s = params_of (run (many param) s)

-- The line of a key and a value.
abbrev pub line_of : Bytes × Bytes → Line
line_of p = (((p.0, tt), p.1), tt)

-- The map that the first pair of each key makes.
unfoldable pub insert_all : List (Bytes × Bytes) → StringMap Bytes → StringMap Bytes
insert_all [] m = m
insert_all (p ∷ ps) m = insert_all ps (insert p.0 p.1 m)

pub insert_lines-map :
    (ps : List (Bytes × Bytes)) (m : StringMap Bytes)
    → insert_lines (map line_of ps) m ≡ insert_all ps m
unfolding insert_lines insert_all
insert_lines-map [] m = refl
insert_lines-map (p ∷ ps) m = insert_lines-map ps (insert p.0 p.1 m)
