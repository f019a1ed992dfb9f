-- ===== src/Answers/Reader/Chunks.antt =====
-- A chunked body against the list of its chunks.
use black_circle.Prelude.{
  ◌+◌, ◌-◌, ◌≤◌, ◌<◌, true, false, ◌≡◌, ◌≢◌, refl, sym, ap, ◌∙◌, arith, List, [], ◌∷◌, ◌++◌,
  append_assoc, none, some, Bytes, codes, length, take, drop, leb, ltb, length-append,
}
use black_circle.Http.{Response}
use black_circle.Qi.{Qi, number}
use black_circle.Answers.Grammar.{parse_chunk_size}
use black_circle.Answers.Grammar.Size.{IsSize, parse_chunk_size_lem}
use black_circle.Answers.Reader.{
  chunk_size, chunk_body, waits, chunk_body_read_complete, chunk_size_read_complete, after_size,
}
use black_circle.Answers.Reader.Split.{split_at_length, take-append, drop-append, NoReturn}

-- A chunk as it is sent: its size, an extension, and its bytes.
pub record Chunk : Type 0 where
  pub size_text : Bytes
  pub extension : Bytes
  pub body : Bytes

-- A chunk of a server: not the last one, which is empty.
pub record IsChunk (k : Chunk) : Type 0 where
  pub size : IsSize k.size_text (k.extension ++ codes "\r")
  pub one_line : NoReturn (k.size_text ++ k.extension)
  pub same_size : number 16 k.size_text ≡ length k.body
  pub not_last : 0 < length k.body

-- What the program makes of a chunk: its bytes with the line's end behind them.
abbrev pub piece : Chunk → Bytes
piece k = k.body ++ codes "\r\n"

abbrev pub size_line_of : Chunk → Bytes
size_line_of k = k.size_text ++ k.extension

-- Chunks on the wire.
unfoldable pub stream : List Chunk → Bytes
stream [] = []
stream (k ∷ ks) = size_line_of k ++ (codes "\r\n" ++ (piece k ++ stream ks))

abbrev pub with_content : Response → Bytes → Response
with_content r s = record r { content = s }

abbrev pub answer_of : Response → Chunk → Response
answer_of r k = with_content r (piece k)

-- A body that is complete: the chunk is handed over, and the next size is read.
pub chunk_body_lem :
    (r : Response) (k : Chunk) (b wire y : Bytes)
    → 0 < length k.body
    → b ++ wire ≡ piece k ++ y
    → length k.body + 2 ≤ length b
    → (t : Bytes) × (chunk_body_read_complete r (length k.body) b ≡ record {
      buffer = t;
      next = waits (chunk_size (answer_of r k));
      answer = some (answer_of r k);
    })
      × (t ++ wire ≡ y)
unfolding chunk_body_read_complete
chunk_body_lem r k b wire y pos e h =
    let two : length (piece k) ≡ length k.body + 2 = length-append k.body (codes "\r\n") in
    let (t, f, g) = split_at_length (piece k) b wire y e (omega arith) in
    let kept : take (length k.body + 2) b ≡ piece k = rw (f, ← two) (take-append (piece k) t) in
    let left : drop (length k.body + 2) b ≡ t = rw (f, ← two) (drop-append (piece k) t) in
    (t, body_step b kept left pos h, g)
  where
    body_step :
        (b : Bytes) {t : Bytes}
        → take (length k.body + 2) b ≡ piece k
        → drop (length k.body + 2) b ≡ t
        → 0 < length k.body
        → length k.body + 2 ≤ length b
        → chunk_body_read_complete r (length k.body) b ≡ record {
          buffer = t;
          next = waits (chunk_size (answer_of r k));
          answer = some (answer_of r k);
        }
    body_step [] kept left pos h = absurd (omega arith)
    body_step (c ∷ b) kept left pos h = ground arith

module _ (q : Qi) (r : Response) (k : Chunk) (ok : IsChunk k) where
  -- A size line that is complete.
  pub size_lem :
      (b t : Bytes)
      → b ≡ size_line_of k ++ (codes "\r\n" ++ t)
      → chunk_size_read_complete q r b ≡ after_size r b (some (length k.body, t))
  unfolding chunk_size_read_complete
  size_lem b t e = run b whole parsed longer
    where
      ext : Bytes
      ext = k.extension ++ codes "\r"

      whole : b ≡ k.size_text ++ (ext ++ (b'\n' ∷ t))
      whole =
          e
          ∙ append_assoc k.size_text k.extension (codes "\r\n" ++ t)
          ∙ ap (◌++◌ k.size_text) (sym (append_assoc k.extension (codes "\r") (b'\n' ∷ t)))

      parsed : parse_chunk_size q b ≡ some (length k.body, t)
      parsed =
          ap (parse_chunk_size q) whole
          ∙ parse_chunk_size_lem q k.size_text ext t ok.size
          ∙ ap (λ n. some (n, t)) ok.same_size

      positive : (w : Bytes) → w ≢ [] → 0 < length w
      positive [] ne = absurd (ne refl)
      positive (c ∷ w) ne = omega arith

      longer : 2 < length b
      longer = rw e (
          omega (
            arith,
            length-append (size_line_of k) (codes "\r\n" ++ t),
            length-append k.size_text k.extension,
            positive k.size_text ok.size.some_digit,
          ))

      run :
          (b : Bytes)
          → b ≡ k.size_text ++ (ext ++ (b'\n' ∷ t))
          → parse_chunk_size q b ≡ some (length k.body, t)
          → 2 < length b
          → chunk_size_read_complete q r b ≡ after_size r b (some (length k.body, t))
      run [] w p l = absurd (omega arith)
      run (c ∷ b) w p l = let long : leb (length (c ∷ b)) 2 ≡ false = ground arith in rw long (rw p)

  pub after_size_short :
      (old t : Bytes)
      → length t < length k.body + 2
      → after_size r old (some (length k.body, t)) ≡ record {
        buffer = t;
        next = waits (chunk_body r (length k.body) (length k.body + 2));
        answer = none;
      }
  unfolding after_size
  after_size_short old t h =
      let sum : length t + (length k.body + 2 - length t) ≡ length k.body + 2 = omega arith in
      let short : ltb (length t) (length k.body + 2) ≡ true = ground arith in rw short (rw sum)

  pub after_size_long :
      (old t : Bytes)
      → length k.body + 2 ≤ length t
      → after_size r old (some (length k.body, t)) ≡ chunk_body_read_complete r (length k.body) t
  unfolding after_size
  after_size_long old t h =
      let long : ltb (length t) (length k.body + 2) ≡ false = ground arith in rw long
