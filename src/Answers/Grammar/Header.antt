-- ===== src/Answers/Grammar/Header.antt =====
-- The header of an answer.
use black_circle.Prelude.{
  ℕ, ◌^◌, ◌<◌, ◌≡◌, ◌≢◌, refl, ap, ◌∙◌, arith, List, [], ◌∷◌, ◌++◌, append_assoc, some, Bytes,
  codes, All, length-append,
}
use black_circle.Prelude.Int.{pos}
use black_circle.Http.{Response}
use black_circle.Qi.{Qi, matched, failed, IsDigit, number, span}
use black_circle.Qi.Rules.{
  IsWord, expect_matched, expect_failed, word_matched, lit_matched, print_all, many_matched,
}
use black_circle.Answers.Grammar.{
  version, status_line, header_line, line_of, insert_all, insert_lines-map, parse_lines,
  parse_header,
}

-- What a header says: the version, the status and the lines.
pub record Head : Type 0 where
  pub major : ℕ
  pub minor : ℕ
  pub status : Bytes
  pub reason : Bytes
  pub fields : List (Bytes × Bytes)

-- A line that can be read.
abbrev pub IsField : Bytes × Bytes → Type 0
IsField p = (p.0 ≢ []) × IsWord (codes "\r:") p.0 × (p.1 ≢ []) × IsWord (codes "\r") p.1

pub record IsHead (h : Head) : Type 0 where
  pub major_digit : IsDigit h.major
  pub minor_digit : IsDigit h.minor
  pub some_status : h.status ≢ []
  pub status_digits : All IsDigit h.status
  pub small : number 10 h.status < 2 ^ 31
  pub some_reason : h.reason ≢ []
  pub reason_word : IsWord (codes "\r") h.reason
  pub fields_ok : All IsField h.fields

abbrev pub field_text : Bytes × Bytes → Bytes
field_text p = p.0 ++ (codes ": " ++ (p.1 ++ codes "\r\n"))

-- The header as it comes over the wire, and what follows it.
unfoldable pub head_text : Head → Bytes → Bytes
head_text h rest =
    codes "HTTP/"
    ++ (h.major
        ∷ b'.'
        ∷ h.minor
        ∷ b' '
        ∷ (h.status
            ++ (b' '
                ∷ (h.reason
                    ++ (codes "\r\n"
                        ++ (print_all field_text h.fields ++ (codes "\r\n" ++ rest)))))))

module _ (q : Qi) where
  open q use {run, lit, some_but, digit, int, expect, many}

  header_line_matched :
      (p : Bytes × Bytes) (s : Bytes)
      → IsField p
      → run (header_line q) (p.0 ++ (codes ": " ++ (p.1 ++ (codes "\r\n" ++ s))))
        ≡ matched (line_of p) s
  header_line_matched p s (kne, k, vne, v) =
      expect_matched q _ (lit (codes "\r\n"))
        (expect_matched q _ (some_but (codes "\r"))
          (expect_matched q (some_but (codes "\r:")) (lit (codes ": "))
            (word_matched q (codes "\r:") p.0 (codes ": " ++ (p.1 ++ (codes "\r\n" ++ s))) kne k
              refl)
            (lit_matched q (codes ": ") (p.1 ++ (codes "\r\n" ++ s))))
          (word_matched q (codes "\r") p.1 (codes "\r\n" ++ s) vne v refl))
        (lit_matched q (codes "\r\n") s)

  field_matched :
      (p : Bytes × Bytes) (s : Bytes)
      → IsField p
      → run (header_line q) (field_text p ++ s) ≡ matched (line_of p) s
  field_matched p s h =
      ap (run (header_line q)) (
        append_assoc p.0 (codes ": " ++ (p.1 ++ codes "\r\n")) s
        ∙ ap (λ x. p.0 ++ (codes ": " ++ x)) (append_assoc p.1 (codes "\r\n") s))
      ∙ header_line_matched p s h

  -- No line begins with a `\r`.
  line_stops : (rest : Bytes) → run (header_line q) (codes "\r\n" ++ rest) ≡ failed
  unfolding span
  line_stops rest = expect_failed q _ (lit (codes "\r\n")) (
      expect_failed q _ (some_but (codes "\r")) (
        expect_failed q (some_but (codes "\r:")) (lit (codes ": "))
          (q.run-some_but (codes "\r:") (codes "\r\n" ++ rest))))

  pub parse_lines_lem :
      (r : Response) (ps : List (Bytes × Bytes)) (rest : Bytes)
      → All IsField ps
      → parse_lines q r (print_all field_text ps ++ (codes "\r\n" ++ rest))
        ≡ some (record r { header = insert_all ps r.header }, rest)
  unfolding parse_lines
  parse_lines_lem r ps rest h =
      rw
        (
          expect_matched q (many (header_line q)) (lit (codes "\r\n"))
              (many_matched q (header_line q) field_text line_of IsField field_matched
                (λ p g. omega (arith, length-append p.0 (codes ": " ++ (p.1 ++ codes "\r\n"))))
                (codes "\r\n" ++ rest) (line_stops rest) ps h)
              (lit_matched q (codes "\r\n") rest),
          parse_lines,
        )
        (rw (insert_lines-map ps r.header))

  module _ (h : Head) (ok : IsHead h) where
    version_matched :
        (s : Bytes)
        → run (version q) (codes "HTTP/" ++ (h.major ∷ b'.' ∷ h.minor ∷ b' ' ∷ s))
          ≡ matched ((((tt, h.major), tt), h.minor), tt) s
    version_matched s =
        expect_matched q _ (lit (codes " "))
          (expect_matched q _ digit
            (expect_matched q _ (lit (codes "."))
              (expect_matched q (lit (codes "HTTP/")) digit
                (lit_matched q (codes "HTTP/") (h.major ∷ b'.' ∷ h.minor ∷ b' ' ∷ s))
                (q.run-digit h.major (b'.' ∷ h.minor ∷ b' ' ∷ s) ok.major_digit))
              (lit_matched q (codes ".") (h.minor ∷ b' ' ∷ s)))
            (q.run-digit h.minor (b' ' ∷ s) ok.minor_digit))
          (lit_matched q (codes " ") s)

    status_matched :
        (s : Bytes)
        → run (status_line q) (
            codes "HTTP/"
            ++ (h.major
                ∷ b'.'
                ∷ h.minor
                ∷ b' '
                ∷ (h.status ++ (b' ' ∷ (h.reason ++ (codes "\r\n" ++ s))))))
          ≡ matched
              ((
                ((
                  ((((((tt, h.major), tt), h.minor), tt), pos (number 10 h.status)), tt),
                  h.reason,
                )),
                tt,
              ))
              s
    status_matched s =
        expect_matched q _ (lit (codes "\r\n"))
          (expect_matched q _ (some_but (codes "\r"))
            (expect_matched q _ (lit (codes " "))
              (expect_matched q (version q) int
                (version_matched (h.status ++ (b' ' ∷ (h.reason ++ (codes "\r\n" ++ s)))))
                (q.run-int h.status (b' ' ∷ (h.reason ++ (codes "\r\n" ++ s))) ok.some_status
                  ok.status_digits (λ d. omega arith) ok.small))
              (lit_matched q (codes " ") (h.reason ++ (codes "\r\n" ++ s))))
            (word_matched q (codes "\r") h.reason (codes "\r\n" ++ s) ok.some_reason ok.reason_word
              refl))
          (lit_matched q (codes "\r\n") s)

    -- Of a well-formed header the status, the reason and every field are read, the first of each
    -- name, and exactly the header is taken from the buffer, whatever follows it.
    pub parse_header-head_text :
        (content rest : Bytes)
        → parse_header q
            (record { code = pos 0; reason = []; header = []; content = content })
            (head_text h rest)
          ≡ some (
            record {
              code = pos (number 10 h.status);
              reason = h.reason;
              header = insert_all h.fields [];
              content = content;
            },
            rest,
          )
    unfolding parse_header head_text
    parse_header-head_text content rest =
        rw (status_matched (print_all field_text h.fields ++ (codes "\r\n" ++ rest)), parse_header)
          (parse_lines_lem _ h.fields rest ok.fields_ok)
