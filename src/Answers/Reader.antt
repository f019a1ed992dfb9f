-- ===== src/Answers/Reader.antt =====
-- The reading half of `http_client`: each handler says which read it starts next, and the buffer `sb`
-- holds what was read and not yet used. An error code is never looked at.
pub mod Split
pub mod Chunks
pub mod Delivery
mod Invariant
pub mod Plain
pub mod Broken
use black_circle.Prelude.{
  ℕ, ◌+◌, ◌-◌, ◌%◌, ◌^◌, Bool, true, false, ◌||◌, ◌&&◌, List, [], ◌∷◌, ◌++◌, Option, none, some,
  Bytes, codes, bytes_eq, length, take, drop, leb, ltb, ◌==◌, if◌then◌else◌, ◌≡◌,
}
use black_circle.Prelude.Int.{pos}
use black_circle.Http.{Response, map_get_or}
use black_circle.Qi.{Qi}
use black_circle.Answers.Grammar.{parse_header, parse_chunk_size}

-- A read that is under way, by its completion handler: up to a blank line or a line's end, or until
-- the buffer has at least so many bytes (the last number).
pub data Waiting : Type 0 where
  header : Response → Waiting
  plain_body : Response → ℕ → ℕ → Waiting
  chunk_size : Response → Waiting
  chunk_body : Response → ℕ → ℕ → Waiting
  last_chunk : Waiting

-- After a handler: a read is under way; none is; it threw; or it ran past the buffer's end, where an
-- `assert` may stop it first.
pub data Next : Type 0 where
  waits : Waiting → Next
  stops throws undefined : Next

-- What a handler leaves: the buffer, the next read, and the response it gave to `handler`.
pub record Turn : Type 0 where
  pub buffer : Bytes
  pub next : Next
  pub answer : Option Response

abbrev pub turn : Bytes → Next → Turn
turn sb next = record { buffer = sb; next = next; answer = none }

abbrev pub fresh_response : Response
fresh_response = record { code = pos 0; reason = []; header = []; content = [] }

-- `start_read`.
abbrev pub start_read : Waiting
start_read = header fresh_response

abbrev pub is_nil : Bytes → Bool
is_nil [] = true
is_nil (_ ∷ _) = false

-- `length - asio::buffer_size(sb.data())`, of type `size_t`.
abbrev pub missing : ℕ → ℕ → ℕ
missing n size = (n + 2 ^ 64 - size) % 2 ^ 64

module _ (q : Qi) (to_size : Bytes → Option ℕ) where
  -- The read of a body. `to_size` is `lexical_cast<size_t>`, which may throw.
  pub read_plain : Response → Bytes → Option ℕ → Turn
  read_plain r sb none = turn sb throws
  read_plain r sb (some n) = turn sb (waits (plain_body r n (length sb + missing n (length sb))))

  -- The rest of `header_read_complete`. If `parse_header` threw, nothing was consumed.
  pub after_header : Bytes → Option (Response × Bytes) → Turn
  unfolding read_plain
  after_header old none = turn old throws
  after_header old (some (r, sb)) =
      if bytes_eq (map_get_or r.header (codes "Transfer-Encoding") []) (codes "chunked")
      then turn sb (waits (chunk_size r))
      else read_plain r sb (to_size (map_get_or r.header (codes "Content-Length") (codes "0")))

  unfoldable pub header_read_complete : Response → Bytes → Turn
  unfolding after_header
  header_read_complete r sb =
      if is_nil sb then turn sb stops else after_header sb (parse_header q r sb)

unfoldable pub plain_body_read_complete : Response → ℕ → Bytes → Turn
plain_body_read_complete r n sb =
    if is_nil sb
    then turn sb stops
    else if leb n (length sb)
    then record {
      buffer = drop n sb;
      next = waits start_read;
      answer = some (record r { content = take n sb });
    }
    else turn sb undefined

unfoldable pub chunk_body_read_complete : Response → ℕ → Bytes → Turn
chunk_body_read_complete r n sb =
    if is_nil sb
    then turn sb stops
    else if n == 0
    then turn sb (waits last_chunk)
    else if leb (n + 2) (length sb)
    then record {
      buffer = drop (n + 2) sb;
      next = waits (chunk_size (record r { content = take (n + 2) sb }));
      answer = some (record r { content = take (n + 2) sb });
    }
    else turn sb undefined

-- The rest of `chunk_size_read_complete`.
unfoldable pub after_size : Response → Bytes → Option (ℕ × Bytes) → Turn
unfolding chunk_body_read_complete
after_size r old none = turn old throws
after_size r old (some (n, sb)) =
    if ltb (length sb) (n + 2)
    then turn sb (waits (chunk_body r n (length sb + (n + 2 - length sb))))
    else chunk_body_read_complete r n sb

module _ (q : Qi) where
  unfoldable pub chunk_size_read_complete : Response → Bytes → Turn
  unfolding after_size
  chunk_size_read_complete r sb =
      if is_nil sb
      then turn sb stops
      else if leb (length sb) 2
      then turn sb (waits (chunk_size r))
      else after_size r sb (parse_chunk_size q sb)

unfoldable pub lastchunk_read_complete : Bytes → Turn
lastchunk_read_complete sb = if is_nil sb then turn sb stops else turn sb (waits start_read)

-- Whether a text begins with another, and whether it has it.
unfoldable pub begins : Bytes → Bytes → Bool
begins [] s = true
begins (c ∷ w) [] = false
begins (c ∷ w) (d ∷ s) = let rest = begins w s in c == d && rest

unfoldable pub has_text : Bytes → Bytes → Bool
has_text w [] = begins w []
has_text w (c ∷ s) = begins w (c ∷ s) || has_text w s

-- Whether a read is complete with this buffer.
unfoldable pub enough : Waiting → Bytes → Bool
unfolding has_text begins
enough (header r) sb = has_text (codes "\r\n\r\n") sb
enough (plain_body r n target) sb = leb target (length sb)
enough (chunk_size r) sb = has_text (codes "\r\n") sb
enough (chunk_body r n target) sb = leb target (length sb)
enough last_chunk sb = has_text (codes "\r\n\r\n") sb

-- A connection: the reader, the responses it gave to `handler`, and what the server has still to
-- send.
pub record Connection : Type 0 where
  pub buffer : Bytes
  pub next : Next
  pub answers : List Response
  pub wire : Bytes

abbrev pub answers_of : Option Response → List Response
answers_of none = []
answers_of (some r) = r ∷ []

-- The connection after a handler.
abbrev pub after_turn : Connection → Turn → Connection
after_turn n u = record n {
  buffer = u.buffer;
  next = u.next;
  answers = n.answers ++ answers_of u.answer;
}

module _ (q : Qi) (to_size : Bytes → Option ℕ) where
  -- The handler of a read.
  unfoldable pub complete : Waiting → Bytes → Turn
  complete (header r) sb = header_read_complete q to_size r sb
  complete (plain_body r n target) sb = plain_body_read_complete r n sb
  complete (chunk_size r) sb = chunk_size_read_complete q r sb
  complete (chunk_body r n target) sb = chunk_body_read_complete r n sb
  complete last_chunk sb = lastchunk_read_complete sb

  -- A connection that does not break: a read that is not complete gets some bytes, as many as the
  -- network gives it; one that is complete runs its handler.
  pub data Step (n m : Connection) : Type 0 where
    receive :
        (w : Waiting) (part rest : Bytes)
        → n.next ≡ waits w
        → enough w n.buffer ≡ false
        → n.wire ≡ part ++ rest
        → m ≡ record n { buffer = n.buffer ++ part; wire = rest }
        → Step n m
    handle :
        (w : Waiting)
        → n.next ≡ waits w
        → enough w n.buffer ≡ true
        → m ≡ after_turn n (complete w n.buffer)
        → Step n m

  pub data Steps (n : Connection) : Connection → Type 0 where
    here : Steps n n
    more : {m k : Connection} → Steps n m → Step m k → Steps n k
