-- ===== src/Tests/Stream.antt =====
-- A user stream of one chunk, which comes at once.
use black_circle.Prelude.{ℕ, List, [], ◌∷◌, ◌++◌, map, none, some, Option, Bytes, codes}
use black_circle.Prelude.Int.{pos}
use black_circle.Json.{Value}
use black_circle.Json.Grammar.Doc.{
  Piece, plain, natural, record_of, member, Members, no_members, value,
}
use black_circle.Http.{Response}
use black_circle.Twitter.Types.{Platform, Stores, fresh_tweet, fresh_user}
use black_circle.Answers.Reader.{chunk_size, waits, Connection}
use black_circle.Answers.Reader.Chunks.{Chunk}
use black_circle.Answers.Reader.Delivery.{start}
use black_circle.Tests.Data.{platform, unset}
use black_circle.Tests.Peg.{peg}

-- The platform of the tests, with the texts of numbers as numbers.
abbrev texts : Platform
texts = record platform { Double = Bytes }

-- `{"delete":{"status":{"id":6}}}`.
abbrev named : Bytes → List Piece
named s = map plain s

abbrev removal : Members
removal =
    member (named (codes "delete"))
      (record_of (
        member (named (codes "status"))
          (record_of (member (named (codes "id")) (natural (codes "6")) no_members)) no_members))
      no_members

abbrev body : Bytes
body = codes "{\"delete\":{\"status\":{\"id\":6}}}"

-- A parser that knows one text.
abbrev known : Bytes → Option (Value Bytes)
known s = some (value (λ x. x) (record_of removal))

abbrev chunk : Chunk
chunk = record { size_text = codes "1E"; extension = []; body = body }

abbrev told : Response
told = record { code = pos 200; reason = codes "OK"; header = []; content = [] }

abbrev no_size : Bytes → Option ℕ
no_size s = none

abbrev begun : Connection
begun = start peg no_size told (chunk ∷ [])

abbrev arrived : Connection
arrived = record {
  buffer = codes "1E\r\n" ++ (body ++ codes "\r\n");
  next = waits (chunk_size told);
  answers = [];
  wire = [];
}

abbrev given : Response
given = record told { content = body ++ codes "\r\n" }

abbrev done : Connection
done = record { buffer = []; next = waits (chunk_size given); answers = given ∷ []; wire = [] }

-- A store with the tweet 6 and its author; the chunk takes the tweet away.
abbrev stored : Stores ℕ
stored = record {
  users = fresh_user unset ∷ [];
  tweets = record (fresh_tweet unset) { id = 6 } ∷ [];
}
