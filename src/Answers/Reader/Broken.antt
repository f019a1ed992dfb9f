-- ===== src/Answers/Reader/Broken.antt =====
-- A connection that breaks off in the middle of the chunks: every read then ends at once, with an
-- error that nobody looks at, and its handler runs on what is in the buffer.
pub mod Cut
use black_circle.Prelude.{
  ℕ, ◌+◌, ◌*◌, ◌^◌, ◌≤◌, ◌<◌, Bool, true, false, ◌≡◌, ◌≢◌, ◌⊎◌, inl, inr, refl, sym, ap, ◌∙◌, subst,
  arith, List, [], ◌∷◌, ◌++◌, foldl, map, append-nil, Option, append_assoc, none, Bytes, codes,
  length, leb, All, if◌then◌else◌,
}
use black_circle.Http.{Response}
use black_circle.Qi.{Qi, IsHexDigit, Stops, number, digit_value, strip, matched, failed, threw}
use black_circle.Qi.Rules.{IsWord, many_but_matched, expect_matched}
use black_circle.Answers.Grammar.{size_of, size_line, parse_chunk_size}
use black_circle.Answers.Reader.{
  Waiting, header, plain_body, chunk_size, chunk_body, last_chunk, Next, waits, stops, throws,
  undefined, turn, begins, has_text, enough, complete, chunk_size_read_complete,
  chunk_body_read_complete, after_size, Connection, Steps,
}
use black_circle.Answers.Reader.Split.{NoReturn}
use black_circle.Answers.Reader.Chunks.{
  Chunk, IsChunk, piece, size_line_of, stream, with_content, answer_of,
}
use black_circle.Answers.Reader.Invariant.{Expects, at_size, at_body, InChunks}
use black_circle.Answers.Reader.Delivery.{start, same_waiting, Steps-InChunks, Steps-answers}
use black_circle.Answers.Reader.Broken.Cut.{size_broken, body_broken}

-- What comes of a read on a connection that has broken off, with the buffer as it is.
abbrev pub fate : Waiting → Bytes → Next
fate (header r) b = stops
fate (plain_body r n target) b = stops
fate last_chunk b = stops
fate (chunk_size r) [] = stops
fate (chunk_size r) (c ∷ b) = if leb (length (c ∷ b)) 2 then waits (chunk_size r) else throws
fate (chunk_body r n target) [] = stops
fate (chunk_body r n target) (c ∷ b) = undefined

module _ (q : Qi) (to_size : Bytes → Option ℕ) (r : Response) (all : List Chunk) where
  size_idle :
      (x b wire : Bytes) (ks : List Chunk)
      → All IsChunk ks
      → b ++ wire ≡ stream ks
      → enough (chunk_size (with_content r x)) b ≡ false
      → complete q to_size (chunk_size (with_content r x)) b
        ≡ turn b (fate (chunk_size (with_content r x)) b)
  unfolding complete enough stream chunk_size_read_complete
  size_idle x [] wire ks ok e f = refl
  size_idle x (c ∷ b) wire [] ok e f = cc
  size_idle x (c ∷ b) wire (k ∷ ks) ok e f =
      size_broken q (with_content r x) k c b wire (piece k ++ stream ks) ok.0 e f

  body_idle :
      (x b : Bytes) (k : Chunk)
      → IsChunk k
      → enough (chunk_body (with_content r x) (length k.body) (length k.body + 2)) b ≡ false
      → complete q to_size (chunk_body (with_content r x) (length k.body) (length k.body + 2)) b
        ≡ turn b (fate (chunk_body (with_content r x) (length k.body) (length k.body + 2)) b)
  unfolding complete enough chunk_body_read_complete
  body_idle x [] k ok f = refl
  body_idle x (c ∷ b) k ok f =
      body_broken (with_content r x) (length k.body) c b ok.not_last (ground arith)

  -- A handler that runs before its read is complete, as after an error.
  abbrev Idle : Waiting → Bytes → Type 0
  Idle w b = enough w b ≡ false → complete q to_size w b ≡ turn b (fate w b)

  idle : (n : Connection) (w : Waiting) → InChunks r all n → n.next ≡ waits w → Idle w n.buffer
  idle n w h e = go h.todo h.valid h.expects
    where
      go :
          (ks : List Chunk) → All IsChunk ks → Expects r n.buffer n.next n.wire ks → Idle w n.buffer
      go ks ok (at_size x f s) =
          subst (λ v. Idle v n.buffer) (same_waiting n.next (chunk_size (with_content r x)) w f e)
            (size_idle x n.buffer n.wire ks ok s)
      go ks ok (at_body x k rest t f s) =
          subst (λ v. Idle v n.buffer)
            (same_waiting n.next (chunk_body (with_content r x) (length k.body) (length k.body + 2))
              w f e)
            (body_idle x n.buffer k (subst (All IsChunk) t ok).0)

  -- For a server that sends well-formed chunks: at any time the responses that were handed over are
  -- those of the first chunks, in order, each with a line's end behind its bytes; and a read is
  -- under way. If the connection breaks off then, and the read is not complete, its handler hands
  -- over no part of a chunk and takes nothing from the buffer: with an empty buffer it stops, in a
  -- chunk's bytes it runs past the buffer; in a size line it starts the same read again with up to
  -- two bytes, and with more it throws.
  pub Steps-broken :
      (n : Connection)
      → All IsChunk all
      → Steps q to_size (start q to_size r all) n
      → (done : List Chunk) × (todo : List Chunk) × (w : Waiting) × (all ≡ done ++ todo)
        × (n.answers ≡ map (answer_of r) done)
        × (n.next ≡ waits w)
        × ((if enough w n.buffer
              then turn n.buffer (fate w n.buffer)
              else complete q to_size w n.buffer)
            ≡ turn n.buffer (fate w n.buffer))
  Steps-broken n ok s =
      let h = Steps-InChunks q to_size r all ok n s in
      let (d, t, parts, given, (w, waiting)) = Steps-answers q to_size r all n ok s in
      (
        d,
        t,
        w,
        parts,
        given,
        waiting,
        unless (enough w n.buffer) w n.buffer refl (idle n w h waiting),
      )
    where
      unless :
          (more : Bool) (w : Waiting) (b : Bytes)
          → enough w b ≡ more
          → Idle w b
          → (if more then turn b (fate w b) else complete q to_size w b) ≡ turn b (fate w b)
      unless true w b e f = refl
      unless false w b e f = f e
