-- ===== src/Answers/Reader/Broken/Cut.antt =====
-- The handlers of a size and of a body, on the part of them that had come.
use black_circle.Prelude.{
  ℕ, ◌+◌, ◌*◌, ◌^◌, ◌≤◌, ◌<◌, false, ◌≡◌, ◌≢◌, ◌⊎◌, inl, inr, refl, sym, ap, ◌∙◌, subst, arith,
  List, [], ◌∷◌, ◌++◌, foldl, append-nil, append_assoc, none, Bytes, codes, length, leb, All,
  if◌then◌else◌,
}
use black_circle.Http.{Response}
use black_circle.Qi.{Qi, IsHexDigit, Stops, number, digit_value, strip, matched, failed, threw}
use black_circle.Qi.Rules.{IsWord, many_but_matched, expect_matched}
use black_circle.Answers.Grammar.{size_of, size_line, parse_chunk_size}
use black_circle.Answers.Reader.{
  chunk_size, waits, throws, undefined, turn, begins, has_text, chunk_size_read_complete,
  chunk_body_read_complete, after_size,
}
use black_circle.Answers.Reader.Split.{NoReturn}
use black_circle.Answers.Reader.Chunks.{Chunk, IsChunk, size_line_of}

rest_lacks : (w : Bytes) (c : ℕ) (b : Bytes) → has_text w (c ∷ b) ≡ false → has_text w b ≡ false
unfolding has_text
rest_lacks w c b h = ground arith

-- The part of a line and of its end that has come, without the line's end.
cut_line :
    (p b wire y : Bytes)
    → NoReturn p
    → b ++ wire ≡ p ++ (codes "\r\n" ++ y)
    → has_text (codes "\r\n") b ≡ false
    → (t : Bytes) × (b ++ t ≡ p ++ codes "\r")
unfolding has_text begins
cut_line p [] wire y h e f = (p ++ codes "\r", refl)
cut_line [] (c ∷ []) wire y h e f = ([], cc)
cut_line [] (c ∷ d ∷ b) wire y h e f = absurd (ground arith)
cut_line (x ∷ p) (c ∷ b) wire y h e f =
    let (t, g) = cut_line p b wire y h.1 (cc) (rest_lacks (codes "\r\n") c b f) in (t, cc)

-- Of two texts the first is cut, or only the second.
cut_pair :
    {A : Type 0} (b t w e : List A)
    → b ++ t ≡ w ++ e
    → ((u : List A) × (b ≡ w ++ u) × (u ++ t ≡ e)) ⊎ ((u : List A) × (w ≡ b ++ u))
cut_pair b t [] e h = inl (b, refl, h)
cut_pair [] t (x ∷ w) e h = inr (x ∷ w, refl)
cut_pair (c ∷ b) t (x ∷ w) e h = elim (cut_pair b t w e (cc)) [
  | inl (u, f, g) ↦ inl (u, cc, g)
  | inr (u, f) ↦ inr (u, cc)
]

grows : (u : Bytes) (n : ℕ) → n ≤ foldl (λ n c. n * 16 + digit_value c) n u
grows [] n = omega arith
grows (c ∷ u) n = omega (arith, grows u (n * 16 + digit_value c))

cut_number :
    (b u : Bytes) (n : ℕ)
    → foldl (λ n c. n * 16 + digit_value c) n b ≤ foldl (λ n c. n * 16 + digit_value c) n (b ++ u)
cut_number [] u n = grows u n
cut_number (c ∷ b) u n = cut_number b u (n * 16 + digit_value c)

module _ {A : Type 0} (P : A → Type 0) where
  cut_All : (b u : List A) → All P (b ++ u) → All P b
  cut_All [] u h = tt
  cut_All (c ∷ b) u h = (h.0, cut_All b u h.1)

cut_Stops : (P : ℕ → Type 0) (b u : Bytes) → Stops P (b ++ u) → Stops P b
cut_Stops P [] u h = tt
cut_Stops P (c ∷ b) u h = h

module _ (q : Qi) where
  -- A size without a line feed behind it is an `expectation_failure`.
  size_threw :
      (w e : Bytes)
      → w ≢ []
      → All IsHexDigit w
      → Stops IsHexDigit e
      → number 16 w < 2 ^ 32
      → IsWord (codes "\n") e
      → parse_chunk_size q (w ++ e) ≡ none
  unfolding parse_chunk_size strip
  size_threw w e ne hex stop small word =
      let all_word : q.run (q.many_but (codes "\n")) e ≡ matched e [] =
        ap (q.run (q.many_but (codes "\n"))) (sym (append-nil e))
        ∙ many_but_matched q (codes "\n") e [] word tt in
      let read : q.run (q.expect q.hex (q.many_but (codes "\n"))) (w ++ e)
          ≡ matched (number 16 w, e) [] =
        expect_matched q q.hex (q.many_but (codes "\n")) (q.run-hex w e ne hex stop small)
          all_word in
      let no_end : q.run (q.lit (codes "\n")) [] ≡ failed = q.run-lit (codes "\n") [] in
      let whole : q.run (size_line q) (w ++ e) ≡ threw =
        q.run-expect (q.expect q.hex (q.many_but (codes "\n"))) (q.lit (codes "\n")) (w ++ e)
        ∙ rw read (rw no_end refl) in
      ap (size_of q (w ++ e)) whole

  -- A size line that was cut, by the chunk that it belongs to.
  cut_size :
      (k : Chunk) (c : ℕ) (b wire y : Bytes)
      → IsChunk k
      → (c ∷ b) ++ wire ≡ size_line_of k ++ (codes "\r\n" ++ y)
      → has_text (codes "\r\n") (c ∷ b) ≡ false
      → parse_chunk_size q (c ∷ b) ≡ none
  cut_size k c b wire y ok e f =
      let (t, g) = cut_line (size_line_of k) (c ∷ b) wire y ok.one_line e f in
      let ext = k.extension ++ codes "\r" in
      let line : (c ∷ b) ++ t ≡ k.size_text ++ ext =
        g ∙ append_assoc k.size_text k.extension (codes "\r") in
      elim (cut_pair (c ∷ b) t k.size_text ext line) [
        | inl (u, whole, rest) ↦
            ap (parse_chunk_size q) whole
            ∙ size_threw k.size_text u ok.size.some_digit ok.size.digits
                (cut_Stops IsHexDigit u (t ++ codes "\n") (
                  subst (Stops IsHexDigit)
                    (ap (λ z. z ++ codes "\n") (sym rest) ∙ append_assoc u t (codes "\n"))
                    ok.size.stops))
                ok.size.small
                (cut_All _ u t (subst (IsWord (codes "\n")) (sym rest) ok.size.extension))
        | inr (u, part) ↦
            ap (parse_chunk_size q) (sym (append-nil (c ∷ b)))
            ∙ size_threw (c ∷ b) [] (λ z. cc)
                (cut_All IsHexDigit (c ∷ b) u (subst (All IsHexDigit) part ok.size.digits)) tt
                (omega (arith, cut_number (c ∷ b) u 0, ap (number 16) part, ok.size.small)) tt
      ]

  -- The handler of the size, on what had come of it.
  pub size_broken :
      (r : Response) (k : Chunk) (c : ℕ) (b wire y : Bytes)
      → IsChunk k
      → (c ∷ b) ++ wire ≡ size_line_of k ++ (codes "\r\n" ++ y)
      → has_text (codes "\r\n") (c ∷ b) ≡ false
      → chunk_size_read_complete q r (c ∷ b)
        ≡ turn (c ∷ b) (if leb (length (c ∷ b)) 2 then waits (chunk_size r) else throws)
  unfolding chunk_size_read_complete after_size
  size_broken r k c b wire y ok e f = rw (cut_size k c b wire y ok e f) (ground arith)

-- The handler of a body, on what had come of it.
pub body_broken :
    (r : Response) (n c : ℕ) (b : Bytes)
    → 0 < n
    → length (c ∷ b) < n + 2
    → chunk_body_read_complete r n (c ∷ b) ≡ turn (c ∷ b) undefined
unfolding chunk_body_read_complete
body_broken r n c b h l = ground arith
