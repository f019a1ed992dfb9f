-- ===== src/Tests/Answers.antt =====
-- An answer in two chunks that comes in three parts, and others.
use black_circle.Prelude.{
  ℕ, ◌+◌, ◌^◌, ◌≡◌, refl, false, arith, List, [], ◌∷◌, ◌++◌, map, Option, some, none, Bytes, codes,
  bytes_eq, if◌then◌else◌,
}
use black_circle.Prelude.Int.{pos}
use black_circle.StringMap.{find, insert, assign}
use black_circle.Http.{Response, map_get_or}
use black_circle.Qi.{span, strip}
use black_circle.Qi.Rules.{print_all}
use black_circle.Answers.Grammar.{parse_header, parse_chunk_size, split_params, insert_all}
use black_circle.Answers.Grammar.Header.{Head, IsHead, head_text, parse_header-head_text}
use black_circle.Answers.Grammar.Params.{split_params_lem}
use black_circle.Answers.Grammar.Size.{IsSize}
use black_circle.Answers.Reader.Chunks.{Chunk, IsChunk, answer_of, stream}
use black_circle.Answers.Reader.Delivery.{start, Steps-complete}
use black_circle.Answers.Reader.Broken.{fate, Steps-broken}
use black_circle.Answers.Reader.Plain.{header_read_complete_lem, last_chunk_lem}
use black_circle.Answers.Reader.{
  chunk_size, chunk_body, complete, chunk_body_read_complete, after_size, has_text, begins, Step,
  receive, handle, here, more, Waiting, last_chunk, waits, turn, plain_body, fresh_response,
  header_read_complete, chunk_size_read_complete, enough, Connection, Steps,
}
use black_circle.Tests.Peg.{peg, number_of, take_while}

abbrev head : Head
head = record {
  major = b'1';
  minor = b'1';
  status = codes "200";
  reason = codes "OK";
  fields = (codes "Content-Length", codes "2") ∷ [];
}

head-IsHead : IsHead head
head-IsHead = record {
  major_digit = omega arith;
  minor_digit = omega arith;
  some_status = λ e. cc e;
  status_digits = omega arith;
  small = omega arith;
  some_reason = λ e. cc e;
  reason_word = ground arith;
  fields_ok = ground arith;
}

abbrev told : Response
told = record {
  code = pos 200;
  reason = codes "OK";
  header = (codes "Content-Length", codes "2") ∷ [];
  content = [];
}

parse_header-head_text_example :
    parse_header peg fresh_response (codes "HTTP/1.1 200 OK\r\nContent-Length: 2\r\n\r\nhi")
    ≡ some (told, codes "hi")
unfolding head_text insert_all print_all insert assign
parse_header-head_text_example = parse_header-head_text peg head head-IsHead [] (codes "hi")

-- `lexical_cast<size_t>`, on the texts of the tests.
abbrev to_size : Bytes → Option ℕ
to_size s =
    if bytes_eq s (codes "2") then some 2 else if bytes_eq s (codes "0") then some 0 else none

-- A byte too many came with the header.
header_read_complete_lem_example :
    header_read_complete peg to_size fresh_response
      (codes "HTTP/1.1 200 OK\r\nContent-Length: 2\r\n\r\nhi!")
    ≡ turn (codes "hi!") (waits (plain_body told 2 (2 + 2 ^ 64)))
unfolding head_text insert_all print_all insert assign find map_get_or
header_read_complete_lem_example =
    header_read_complete_lem peg to_size head (codes "hi!") 2 head-IsHead refl refl (omega arith)
      (omega arith)

zero-IsSize : IsSize (codes "0") (codes "\r")
zero-IsSize = record {
  some_digit = λ e. cc e;
  digits = ground arith;
  small = omega arith;
  extension = ground arith;
  stops = ground arith;
}

-- The last chunk has come, and the next answer is under way.
abbrev after_chunks : Connection
after_chunks = record {
  buffer = codes "0\r\n\r\n";
  next = waits (chunk_size told);
  answers = [];
  wire = codes "HTTP/1.1 200 OK\r\n\r\nHTTP";
}

last_chunk_lem_example :
    Steps peg to_size after_chunks
      (record after_chunks { buffer = codes "\r\n"; next = waits last_chunk })
    × (enough last_chunk (codes "\r\n") ≡ false)
    × Steps peg to_size after_chunks (record after_chunks {
      buffer = codes "HTTP/1.1 200 OK\r\n\r\n";
      next = waits (plain_body fresh_response 0 (2 ^ 64));
      wire = codes "HTTP";
    })
unfolding has_text begins
last_chunk_lem_example =
    last_chunk_lem peg to_size after_chunks told (codes "0") (codes "\r")
      (codes "HTTP/1.1 200 OK\r\n\r\n") (codes "HTTP") zero-IsSize refl refl refl refl refl refl
      (omega arith)

-- The answer to a request for a token, with and without a last `&`.
abbrev tokens : List (Bytes × Bytes)
tokens = (codes "oauth_token", codes "t") ∷ []

abbrev secret : Bytes × Bytes
secret = (codes "oauth_token_secret", codes "s")

split_params_lem_example :
    (split_params peg (codes "oauth_token=t&") ≡ tokens)
    × (split_params peg (codes "oauth_token=t&oauth_token_secret=s") ≡ tokens)
unfolding print_all insert_all insert assign
split_params_lem_example = split_params_lem peg tokens secret (ground arith) (ground arith)

abbrev abc : Chunk
abc = record { size_text = codes "3"; extension = []; body = codes "abc" }

abc-IsChunk : IsChunk abc
abc-IsChunk = record {
  size = record {
    some_digit = λ e. cc e;
    digits = ground arith;
    small = omega arith;
    extension = ground arith;
    stops = ground arith;
  };
  one_line = ground arith;
  same_size = refl;
  not_last = omega arith;
}

-- The line, two bytes of the chunk, and the rest.
abbrev started : Connection
started = start peg to_size told (abc ∷ [])

abbrev sized : Connection
sized = record {
  buffer = codes "3\r\nab";
  next = waits (chunk_size told);
  answers = [];
  wire = codes "c\r\n";
}

abbrev asked : Connection
asked = record {
  buffer = codes "ab";
  next = waits (chunk_body told 3 5);
  answers = [];
  wire = codes "c\r\n";
}

abbrev ready : Connection
ready = record asked { buffer = codes "abc\r\n"; wire = [] }

abbrev given : Response
given = record told { content = codes "abc\r\n" }

abbrev done : Connection
done = record { buffer = []; next = waits (chunk_size given); answers = given ∷ []; wire = [] }

sized-Step : Step peg to_size started sized
unfolding enough has_text begins stream
sized-Step = receive (chunk_size told) (codes "3\r\nab") (codes "c\r\n") refl refl refl refl

asked-Step : Step peg to_size sized asked
unfolding enough complete chunk_size_read_complete parse_chunk_size after_size number_of take_while
    span strip
asked-Step = handle (chunk_size told) refl refl refl

ready-Step : Step peg to_size asked ready
unfolding enough
ready-Step = receive (chunk_body told 3 5) (codes "c\r\n") [] refl refl refl refl

done-Step : Step peg to_size ready done
unfolding enough complete chunk_body_read_complete
done-Step = handle (chunk_body told 3 5) refl refl refl

asked-Steps : Steps peg to_size started asked
asked-Steps = more (more here sized-Step) asked-Step

done-Steps : Steps peg to_size started done
done-Steps = more (more asked-Steps ready-Step) done-Step

Steps-complete_example : (done.answers ≡ given ∷ []) × (done.buffer ≡ [])
unfolding enough has_text begins
Steps-complete_example =
    Steps-complete peg to_size told (abc ∷ []) done (chunk_size given) (abc-IsChunk, tt) done-Steps
      refl refl refl

-- Two bytes of the chunk have come.
Steps-broken_example :
    (past : List Chunk) × (todo : List Chunk) × (w : Waiting) × (abc ∷ [] ≡ past ++ todo)
    × (asked.answers ≡ map (answer_of told) past)
    × (asked.next ≡ waits w)
    × ((if enough w (codes "ab")
          then turn (codes "ab") (fate w (codes "ab"))
          else complete peg to_size w (codes "ab"))
        ≡ turn (codes "ab") (fate w (codes "ab")))
Steps-broken_example = Steps-broken peg to_size told (abc ∷ []) asked (abc-IsChunk, tt) asked-Steps

-- A size line of which one byte has come: the same read is started again, without an end.
size_again :
    complete peg to_size (chunk_size told) (codes "3") ≡ turn (codes "3") (waits (chunk_size told))
unfolding complete chunk_size_read_complete
size_again = refl
