-- ===== src/Answers/Reader/Plain.antt =====
-- Answers with a `Content-Length`, and what comes after a chunked one.
use black_circle.Prelude.{
  ℕ, ◌+◌, ◌^◌, ◌<◌, true, append-nil, false, ◌≡◌, refl, ap, ◌∙◌, arith, [], ◌∷◌, ◌++◌, Option, some,
  Bytes, codes, bytes_eq, length, leb, if◌then◌else◌, length-append,
}
use black_circle.Prelude.Int.{pos}
use black_circle.Http.{Response, map_get_or}
use black_circle.StringMap.{find}
use black_circle.Qi.{Qi, number, strip, failed}
use black_circle.Qi.Rules.{expect_failed, print_all}
use black_circle.Answers.Grammar.{parse_header, parse_chunk_size, status_line, insert_all}
use black_circle.Answers.Grammar.Size.{IsSize, parse_chunk_size_lem}
use black_circle.Answers.Grammar.Header.{
  Head, IsHead, head_text, parse_header-head_text, parse_lines_lem,
}
use black_circle.Answers.Reader.{
  Connection, Waiting, Step, Steps, receive, handle, here, more, complete, has_text, begins,
  start_read, lastchunk_read_complete, chunk_size, plain_body, last_chunk, waits, turn,
  fresh_response, missing, header_read_complete, read_plain, after_header, after_size,
  chunk_body_read_complete, chunk_size_read_complete, enough,
}

-- The buffer's size at which the read of a body of `n` bytes is complete, if `m` are there already.
abbrev pub target : ℕ → ℕ → ℕ
target n m = if leb m n then n else n + 2 ^ 64

missing_lem : (n m : ℕ) → n < 2 ^ 64 → m < 2 ^ 64 → m + missing n m ≡ target n m
missing_lem n m hn hm = ground arith

module _ (q : Qi) (to_size : Bytes → Option ℕ) where
  after_header_plain :
      (r : Response) (old sb : Bytes) (n : ℕ)
      → bytes_eq (map_get_or r.header (codes "Transfer-Encoding") []) (codes "chunked") ≡ false
      → to_size (map_get_or r.header (codes "Content-Length") (codes "0")) ≡ some n
      → n < 2 ^ 64
      → length sb < 2 ^ 64
      → after_header q to_size old (some (r, sb))
        ≡ turn sb (waits (plain_body r n (target n (length sb))))
  unfolding after_header read_plain
  after_header_plain r old sb n plain size hn hm =
      rw plain (rw size (rw (missing_lem n (length sb) hn hm)))

  head_not_nil :
      (h : Head) (part : Bytes)
      → header_read_complete q to_size fresh_response (head_text h part)
        ≡ after_header q to_size
            (head_text h part)
            (parse_header q fresh_response (head_text h part))
  unfolding header_read_complete head_text
  head_not_nil h part = refl

  -- After a well-formed header with a length and no chunks, the body's read is complete when `n`
  -- bytes are there, if at most so many came with the header; if more came, it waits for 2^64 bytes
  -- more. The length, and the number of bytes that came, are below 2^64.
  pub header_read_complete_lem :
      (h : Head) (part : Bytes) (n : ℕ)
      → IsHead h
      → bytes_eq
          (map_get_or (insert_all h.fields []) (codes "Transfer-Encoding") [])
          (codes "chunked")
        ≡ false
      → to_size (map_get_or (insert_all h.fields []) (codes "Content-Length") (codes "0")) ≡ some n
      → n < 2 ^ 64
      → length part < 2 ^ 64
      → header_read_complete q to_size fresh_response (head_text h part)
        ≡ turn part (
            waits (
              plain_body
                (record {
                  code = pos (number 10 h.status);
                  reason = h.reason;
                  header = insert_all h.fields [];
                  content = [];
                })
                n
                (if leb (length part) n then n else n + 2 ^ 64)))
  header_read_complete_lem h part n ok plain size hn hm =
      head_not_nil h part
      ∙ ap (after_header q to_size (head_text h part)) (parse_header-head_text q h ok [] part)
      ∙ after_header_plain _ (head_text h part) part n plain size hn hm

  -- The line's end that a last chunk leaves in the buffer, before the next answer.
  parse_header-blank :
      (s : Bytes) → parse_header q fresh_response (codes "\r\n" ++ s) ≡ some (fresh_response, s)
  unfolding parse_header strip print_all insert_all
  parse_header-blank s =
      rw (status_fails s, parse_header) (parse_lines_lem q fresh_response [] s tt)
    where
      status_fails : (s : Bytes) → q.run (status_line q) (codes "\r\n" ++ s) ≡ failed
      status_fails s = expect_failed q _ _ (
          expect_failed q _ _ (
            expect_failed q _ _ (
              expect_failed q _ _ (
                expect_failed q _ _ (
                  expect_failed q _ _ (
                    expect_failed q _ _
                      (expect_failed q _ _ (q.run-lit (codes "HTTP/") (codes "\r\n" ++ s)))))))))

  blank_header :
      (s : Bytes)
      → to_size (codes "0") ≡ some 0
      → length s < 2 ^ 64
      → header_read_complete q to_size fresh_response (codes "\r\n" ++ s)
        ≡ turn s (waits (plain_body fresh_response 0 (target 0 (length s))))
  unfolding header_read_complete map_get_or find
  blank_header s size hs =
      ap (after_header q to_size (codes "\r\n" ++ s)) (parse_header-blank s)
      ∙ after_header_plain fresh_response (codes "\r\n" ++ s) s 0 refl size (omega arith) hs

  last_size :
      (r : Response) (w ext : Bytes)
      → IsSize w ext
      → number 16 w ≡ 0
      → chunk_size_read_complete q r (w ++ (ext ++ codes "\n\r\n"))
        ≡ turn (codes "\r\n") (waits last_chunk)
  unfolding chunk_size_read_complete after_size chunk_body_read_complete
  last_size r w ext ok zero_size =
      run (w ++ (ext ++ codes "\n\r\n"))
        (parse_chunk_size_lem q w ext (codes "\r\n") ok
          ∙ ap (λ n. some (n, codes "\r\n")) zero_size)
        (omega (arith, length-append w (ext ++ codes "\n\r\n"), length-append ext (codes "\n\r\n")))
    where
      run :
          (b : Bytes)
          → parse_chunk_size q b ≡ some (0, codes "\r\n")
          → 2 < length b
          → chunk_size_read_complete q r b ≡ turn (codes "\r\n") (waits last_chunk)
      run [] p l = absurd (omega arith)
      run (c ∷ b) p l = let long : leb (length (c ∷ b)) 2 ≡ false = ground arith in rw long (rw p)

  has_text-append : (w p s : Bytes) → has_text w s ≡ true → has_text w (p ++ s) ≡ true
  unfolding has_text
  has_text-append w [] s h = h
  has_text-append w (c ∷ p) s h = let rest = has_text-append w p s h in ground arith

  not_yet : has_text (codes "\r\n\r\n") (codes "\r\n") ≡ false
  unfolding has_text begins
  not_yet = refl

  some_part :
      (part : Bytes) → has_text (codes "\r\n\r\n") (codes "\r\n" ++ part) ≡ true → 0 < length part
  some_part [] h = absurd (cc (not_yet, h))
  some_part (c ∷ part) h = omega arith

  -- A connection after a handler that gives no answer.
  handled :
      (n : Connection) (w v : Waiting) (sb : Bytes)
      → n.next ≡ waits w
      → enough w n.buffer ≡ true
      → complete q to_size w n.buffer ≡ turn sb (waits v)
      → Step q to_size n (record n { buffer = sb; next = waits v })
  handled n w v sb e f g = handle w e f (rw g (rw (append-nil n.answers) refl))

  -- When the size line of a last chunk has come, with its line end: the reader consumes the line and
  -- waits for a blank line, which is not there. When as much of what the server sends next has come
  -- that there is one, `part`, fewer than 2^64 bytes, `lastchunk_read_complete` and then
  -- `header_read_complete` run with the left line end still before it, so that it is read as an answer
  -- without a status and without fields: `part` is taken for its body, of no bytes, which is read
  -- until 2^64 bytes are there, and no answer is given.
  pub last_chunk_lem :
      (n : Connection) (r : Response) (w ext part rest : Bytes)
      → IsSize w ext
      → number 16 w ≡ 0
      → to_size (codes "0") ≡ some 0
      → n.next ≡ waits (chunk_size r)
      → n.buffer ≡ w ++ (ext ++ codes "\n\r\n")
      → n.wire ≡ part ++ rest
      → has_text (codes "\r\n\r\n") (codes "\r\n" ++ part) ≡ true
      → length part < 2 ^ 64
      → Steps q to_size n (record n { buffer = codes "\r\n"; next = waits last_chunk })
        × (enough last_chunk (codes "\r\n") ≡ false)
        × Steps q to_size n (record n {
          buffer = part;
          next = waits (plain_body fresh_response 0 (2 ^ 64));
          wire = rest;
        })
  unfolding enough complete lastchunk_read_complete begins
  last_chunk_lem n r w ext part rest ok zero_size size e b t blank small =
      let n1 = record n { buffer = codes "\r\n"; next = waits last_chunk } in
      let n2 = record n1 { buffer = codes "\r\n" ++ part; wire = rest } in
      let n3 = record n2 { next = waits start_read } in
      let line : enough (chunk_size r) n.buffer ≡ true = rw b (
        has_text-append (codes "\r\n") w (ext ++ codes "\n\r\n") (
          has_text-append (codes "\r\n") ext (codes "\n\r\n") (
            has_text-append (codes "\r\n") (codes "\n") (codes "\r\n")
              (unfold has_text in refl)))) in
      let s1 : Step q to_size n n1 =
        handled n (chunk_size r) last_chunk (codes "\r\n") e line
          (rw b (last_size r w ext ok zero_size)) in
      let s2 : Step q to_size n1 n2 = receive last_chunk part rest refl not_yet t refl in
      let s3 : Step q to_size n2 n3 =
        handled n2 last_chunk start_read (codes "\r\n" ++ part) refl blank refl in
      let s4 : Step q to_size n3
          (record n3 { buffer = part; next = waits (plain_body fresh_response 0 (2 ^ 64)) }) =
        handled n3 start_read (plain_body fresh_response 0 (2 ^ 64)) part refl blank (
          blank_header part size small
          ∙ (let pos = some_part part blank in
              let long : leb (length part) 0 ≡ false = ground arith in rw long refl)) in
      (more here s1, not_yet, more (more (more (more here s1) s2) s3) s4)
