-- ===== src/Answers/Grammar/Size.antt =====
-- The size line of a chunk.
use black_circle.Prelude.{◌^◌, ◌<◌, ◌≡◌, ◌≢◌, refl, ap, [], ◌∷◌, ◌++◌, some, Bytes, codes, All}
use black_circle.Qi.{Qi, IsHexDigit, Stops, number}
use black_circle.Qi.Rules.{IsWord, expect_matched, many_but_matched, lit_matched}
use black_circle.Answers.Grammar.{size_of, parse_chunk_size}

-- A chunk size in hexadecimal, and what may stand between it and the line's end.
pub record IsSize (w ext : Bytes) : Type 0 where
  pub some_digit : w ≢ []
  pub digits : All IsHexDigit w
  pub small : number 16 w < 2 ^ 32
  pub extension : IsWord (codes "\n") ext
  pub stops : Stops IsHexDigit (ext ++ codes "\n")

module _ (q : Qi) where
  -- The size is read, and the whole line is.
  pub parse_chunk_size_lem :
      (w ext rest : Bytes)
      → IsSize w ext
      → parse_chunk_size q (w ++ (ext ++ (b'\n' ∷ rest))) ≡ some (number 16 w, rest)
  unfolding parse_chunk_size
  parse_chunk_size_lem w ext rest h = ap (size_of q (w ++ (ext ++ (b'\n' ∷ rest)))) (
      expect_matched q (q.expect q.hex (q.many_but (codes "\n"))) (q.lit (codes "\n"))
        (expect_matched q q.hex (q.many_but (codes "\n"))
          (q.run-hex w (ext ++ (b'\n' ∷ rest)) h.some_digit h.digits (stops_more ext h.stops)
            h.small)
          (many_but_matched q (codes "\n") ext (b'\n' ∷ rest) h.extension refl))
        (lit_matched q (codes "\n") rest))
    where
      stops_more :
          (e : Bytes) → Stops IsHexDigit (e ++ codes "\n") → Stops IsHexDigit (e ++ (b'\n' ∷ rest))
      stops_more [] k = k
      stops_more (c ∷ e) k = k
