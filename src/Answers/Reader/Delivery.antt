-- ===== src/Answers/Reader/Delivery.antt =====
-- The reader of a chunked body hands over the chunks that the server sent, however the network cuts
-- the stream into parts.
use black_circle.Prelude.{
  ℕ, ◌+◌, true, false, ◌≡◌, refl, sym, ap, ◌∙◌, subst, arith, List, [], ◌∷◌, ◌++◌, map, append-nil,
  Option, Bytes, codes, length, length-append, All,
}
use black_circle.Http.{Response}
use black_circle.Qi.{Qi}
use black_circle.Answers.Reader.{
  Waiting, chunk_size, chunk_body, Next, waits, has_text, begins, enough, complete, after_turn,
  Connection, Step, receive, handle, Steps, here, more,
}
use black_circle.Answers.Reader.Chunks.{
  Chunk, IsChunk, piece, size_line_of, stream, with_content, answer_of,
}
use black_circle.Answers.Reader.Invariant.{
  Expects, at_size, at_body, InChunks, receive-Expects, body-InChunks, size-InChunks,
}

no_line : (b wire : Bytes) → b ++ wire ≡ [] → has_text (codes "\r\n") b ≡ false
unfolding has_text begins
no_line [] wire e = refl
no_line (c ∷ b) wire e = cc

has_line : (p y : Bytes) → has_text (codes "\r\n") (p ++ (codes "\r\n" ++ y)) ≡ true
unfolding has_text begins
has_line [] y = refl
has_line (c ∷ p) y = ground (arith, has_line p y)

pub same_waiting : (next : Next) (v w : Waiting) → next ≡ waits v → next ≡ waits w → v ≡ w
same_waiting next v w e f = cc

module _ (q : Qi) (to_size : Bytes → Option ℕ) (r : Response) (all : List Chunk) where
  handle-InChunks :
      (n : Connection) (w : Waiting)
      → InChunks r all n
      → n.next ≡ waits w
      → enough w n.buffer ≡ true
      → InChunks r all (after_turn n (complete q to_size w n.buffer))
  unfolding complete enough stream
  handle-InChunks n w h e l = go h.expects
    where
      at_sizes :
          (x : Bytes) (ks : List Chunk)
          → h.todo ≡ ks
          → n.buffer ++ n.wire ≡ stream ks
          → enough (chunk_size (with_content r x)) n.buffer ≡ true
          → InChunks r all
              (after_turn n (complete q to_size (chunk_size (with_content r x)) n.buffer))
      at_sizes x [] t s m = cc (no_line n.buffer n.wire s)
      at_sizes x (k ∷ ks) t s m = size-InChunks r all n h q x k ks t s m

      go :
          Expects r n.buffer n.next n.wire h.todo
          → InChunks r all (after_turn n (complete q to_size w n.buffer))
      go (at_size x f s) =
          let same = same_waiting n.next (chunk_size (with_content r x)) w f e in
          subst (λ v. InChunks r all (after_turn n (complete q to_size v n.buffer))) same
            (at_sizes x h.todo refl s (subst (λ v. enough v n.buffer ≡ true) (sym same) l))
      go (at_body x k rest t f s) =
          let body = chunk_body (with_content r x) (length k.body) (length k.body + 2) in
          let same = same_waiting n.next body w f e in
          let m : enough body n.buffer ≡ true =
            subst (λ v. enough v n.buffer ≡ true) (sym same) l in
          subst (λ v. InChunks r all (after_turn n (complete q to_size v n.buffer))) same
            (body-InChunks r all n h x k rest n.buffer t s (ground arith))

  Step-InChunks : (n m : Connection) → Step q to_size n m → InChunks r all n → InChunks r all m
  Step-InChunks n m (receive w part rest e l f g) h = subst (InChunks r all) (sym g) (record {
    done = h.done;
    todo = h.todo;
    parts = h.parts;
    valid = h.valid;
    given = h.given;
    expects = receive-Expects r n.buffer n.wire part rest n.next h.todo f h.expects;
  })
  Step-InChunks n m (handle w e l g) h = subst (InChunks r all) (sym g) (handle-InChunks n w h e l)

  -- A connection whose server sends the chunks, at the first size.
  abbrev pub start : Connection
  start = record { buffer = []; next = waits (chunk_size r); answers = []; wire = stream all }

  pub Steps-InChunks :
      All IsChunk all → (n : Connection) → Steps q to_size start n → InChunks r all n
  Steps-InChunks ok n here = record {
    done = [];
    todo = all;
    parts = refl;
    valid = ok;
    given = refl;
    expects = at_size r.content refl refl;
  }
  Steps-InChunks ok n (more {m = m} s t) = Step-InChunks m n t (Steps-InChunks ok m s)

  -- For a server that sends well-formed chunks: at any time, however the stream came in parts, the
  -- responses that were handed over are those of the first chunks, in order, each with a line's end
  -- behind its bytes; and a read is under way: no handler has thrown, returned early, or run past
  -- the buffer.
  pub Steps-answers :
      (n : Connection)
      → All IsChunk all
      → Steps q to_size start n
      → (done : List Chunk) × (todo : List Chunk) × (all ≡ done ++ todo)
        × (n.answers ≡ map (answer_of r) done)
        × ((w : Waiting) × (n.next ≡ waits w))
  Steps-answers n ok s =
      let h = Steps-InChunks ok n s in (h.done, h.todo, h.parts, h.given, waiting h.expects)
    where
      waiting :
          {ks : List Chunk}
          → Expects r n.buffer n.next n.wire ks
          → (w : Waiting) × (n.next ≡ waits w)
      waiting (at_size x e s) = (chunk_size (with_content r x), e)
      waiting (at_body x k rest t e s) =
          (chunk_body (with_content r x) (length k.body) (length k.body + 2), e)

  -- For a server that sends well-formed chunks: once everything that it sent has come and no
  -- handler is due, every chunk was handed over, in order, each with a line's end behind its bytes,
  -- and nothing is left in the buffer, however the network cut the stream into parts.
  pub Steps-complete :
      (n : Connection) (w : Waiting)
      → All IsChunk all
      → Steps q to_size start n
      → n.wire ≡ []
      → n.next ≡ waits w
      → enough w n.buffer ≡ false
      → (n.answers ≡ map (answer_of r) all) × (n.buffer ≡ [])
  unfolding enough stream
  Steps-complete n w ok s e f l =
      let h = Steps-InChunks ok n s in
      let (t, b) = finished h.todo h.expects in
      (h.given ∙ ap (map (answer_of r)) (sym (h.parts ∙ ap (◌++◌ h.done) t ∙ append-nil h.done)), b)
    where
      all_there : {y : Bytes} → n.buffer ++ n.wire ≡ y → n.buffer ≡ y
      all_there g = sym (append-nil n.buffer) ∙ ap (◌++◌ n.buffer) (sym e) ∙ g

      finished :
          (ks : List Chunk) → Expects r n.buffer n.next n.wire ks → (ks ≡ []) × (n.buffer ≡ [])
      finished [] (at_size x g s) = (refl, all_there s)
      finished (k ∷ ks) (at_size x g s) =
          let same = same_waiting n.next (chunk_size (with_content r x)) w g f in
          let idle : enough (chunk_size (with_content r x)) n.buffer ≡ false =
            subst (λ v. enough v n.buffer ≡ false) (sym same) l in
          absurd (cc (idle, all_there s, has_line (size_line_of k) (piece k ++ stream ks)))
      finished ks (at_body x k rest t g s) =
          let body = chunk_body (with_content r x) (length k.body) (length k.body + 2) in
          let same = same_waiting n.next body w g f in
          let idle : enough body n.buffer ≡ false =
            subst (λ v. enough v n.buffer ≡ false) (sym same) l in
          absurd (
            ground (
              arith,
              idle,
              ap (length {0}) (all_there s),
              length-append (piece k) (stream rest),
              length-append k.body (codes "\r\n"),
            ))
