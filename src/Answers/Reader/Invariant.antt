-- ===== src/Answers/Reader/Invariant.antt =====
-- What holds of a connection in the middle of the chunks of a body.
use black_circle.Prelude.{
  ◌+◌, ◌≤◌, true, ◌≡◌, inl, inr, refl, sym, ap, ◌∙◌, subst, arith, List, [], ◌∷◌, ◌++◌, map,
  map-append, append-nil, append_assoc, none, some, Bytes, codes, length, ltb, All, Bool-cases,
}
use black_circle.Http.{Response}
use black_circle.Qi.{Qi}
use black_circle.Answers.Reader.{
  chunk_size, chunk_body, Next, waits, chunk_body_read_complete, chunk_size_read_complete,
  after_turn, has_text, Connection,
}
use black_circle.Answers.Reader.Split.{split_at_line}
use black_circle.Answers.Reader.Chunks.{
  Chunk, IsChunk, piece, size_line_of, stream, with_content, answer_of, chunk_body_lem, size_lem,
  after_size_short, after_size_long,
}

-- What is still to come for the chunks `ks`, if the response is `r` but for its content.
pub data Expects (r : Response) (b : Bytes) (next : Next) (wire : Bytes) (ks : List Chunk)
    : Type 0 where
  at_size :
      (x : Bytes)
      → next ≡ waits (chunk_size (with_content r x))
      → b ++ wire ≡ stream ks
      → Expects r b next wire ks
  at_body :
      (x : Bytes) (k : Chunk) (rest : List Chunk)
      → ks ≡ k ∷ rest
      → next ≡ waits (chunk_body (with_content r x) (length k.body) (length k.body + 2))
      → b ++ wire ≡ piece k ++ stream rest
      → Expects r b next wire ks

-- A connection in the middle of the chunks `all`: those that were answered, and those to come.
pub record InChunks (r : Response) (all : List Chunk) (n : Connection) : Type 0 where
  pub done : List Chunk
  pub todo : List Chunk
  pub parts : all ≡ done ++ todo
  pub valid : All IsChunk todo
  pub given : n.answers ≡ map (answer_of r) done
  pub expects : Expects r n.buffer n.next n.wire todo

pub receive-Expects :
    (r : Response) (b wire part rest : Bytes) (next : Next) (ks : List Chunk)
    → wire ≡ part ++ rest
    → Expects r b next wire ks
    → Expects r (b ++ part) next rest ks
receive-Expects r b wire part rest next ks e (at_size x n s) =
    at_size x n (append_assoc b part rest ∙ ap (◌++◌ b) (sym e) ∙ s)
receive-Expects r b wire part rest next ks e (at_body x k l p n s) =
    at_body x k l p n (append_assoc b part rest ∙ ap (◌++◌ b) (sym e) ∙ s)

module _ (r : Response) (all : List Chunk) (n : Connection) (h : InChunks r all n) where
  -- A chunk that was handed over.
  advance :
      (k : Chunk) (rest : List Chunk) (t : Bytes)
      → h.todo ≡ k ∷ rest
      → t ++ n.wire ≡ stream rest
      → InChunks r all (
          after_turn n (record {
            buffer = t;
            next = waits (chunk_size (answer_of r k));
            answer = some (answer_of r k);
          }))
  advance k rest t e g = record {
    done = h.done ++ k ∷ [];
    todo = rest;
    parts = h.parts ∙ ap (◌++◌ h.done) e ∙ sym (append_assoc h.done (k ∷ []) rest);
    valid = (subst (All IsChunk) e h.valid).1;
    given =
        ap (λ l. l ++ answer_of r k ∷ []) h.given ∙ sym (map-append (answer_of r) h.done (k ∷ []));
    expects = at_size (piece k) refl g;
  }

  -- A size whose chunk is not there yet.
  wait_body :
      (x : Bytes) (k : Chunk) (rest : List Chunk) (t : Bytes)
      → h.todo ≡ k ∷ rest
      → t ++ n.wire ≡ piece k ++ stream rest
      → InChunks r all (
          after_turn n (record {
            buffer = t;
            next = waits (chunk_body (with_content r x) (length k.body) (length k.body + 2));
            answer = none;
          }))
  wait_body x k rest t e g = record {
    done = h.done;
    todo = h.todo;
    parts = h.parts;
    valid = h.valid;
    given = append-nil n.answers ∙ h.given;
    expects = at_body x k rest e refl g;
  }

  pub body-InChunks :
      (x : Bytes) (k : Chunk) (rest : List Chunk) (b : Bytes)
      → h.todo ≡ k ∷ rest
      → b ++ n.wire ≡ piece k ++ stream rest
      → length k.body + 2 ≤ length b
      → InChunks r all
          (after_turn n (chunk_body_read_complete (with_content r x) (length k.body) b))
  body-InChunks x k rest b e s l =
      let ok = (subst (All IsChunk) e h.valid).0 in
      let (t, f, g) = chunk_body_lem (with_content r x) k b n.wire (stream rest) ok.not_last s l in
      rw f (advance k rest t e g)

  pub size-InChunks :
      (q : Qi) (x : Bytes) (k : Chunk) (rest : List Chunk)
      → h.todo ≡ k ∷ rest
      → n.buffer ++ n.wire ≡ stream (k ∷ rest)
      → has_text (codes "\r\n") n.buffer ≡ true
      → InChunks r all (after_turn n (chunk_size_read_complete q (with_content r x) n.buffer))
  unfolding stream
  size-InChunks q x k rest e s l =
      let ok = (subst (All IsChunk) e h.valid).0 in
      let (t, f, g) =
        split_at_line (size_line_of k) n.buffer n.wire (piece k ++ stream rest) ok.one_line s l in
      let run = size_lem q (with_content r x) k ok n.buffer t f in
      elim (Bool-cases (ltb (length t) (length k.body + 2))) [
        | inl short ↦
            rw (run ∙ after_size_short q (with_content r x) k ok n.buffer t (ground arith))
              (wait_body x k rest t e g)
        | inr long ↦
            rw (run ∙ after_size_long q (with_content r x) k ok n.buffer t (ground arith))
              (body-InChunks x k rest t e g (ground arith))
      ]
