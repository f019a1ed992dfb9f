-- ===== src/Stream/Tweets.antt =====
-- From the bytes of a user stream to the stores.
use black_circle.Prelude.{◌≡◌, ◌++◌, Option, Bytes, codes}
use black_circle.Json.{Value}
use black_circle.Json.Grammar.{Parses}
use black_circle.Json.Grammar.Doc.{Members, record_of, IsDoc, print, value}
use black_circle.OAuth.{Crypto, Draw}
use black_circle.Twitter.Types.{Platform, Fresh, Stores}
use black_circle.Entity.{process_single_entity}
use black_circle.Qi.{Qi}
use black_circle.Qi.Recursive.{Rules}
use black_circle.Qi.Recursive.Steps.{Blank}
use black_circle.Answers.Reader.{Steps}
use black_circle.Answers.Reader.Chunks.{Chunk}

-- What a parser that is a function makes of a text is what the grammar makes of it.
abbrev pub Agrees : {D : Type 0} → Rules (Value D) D → (Bytes → Option (Value D)) → Bytes → Type 0
Agrees {D = D} q parse_json s = (o : Option (Value D)) → Parses q s o → parse_json s ≡ o

abbrev pub body_of : Chunk → Bytes
body_of k = k.body

module _ (P : Platform) (f : Fresh P.Time) (q : Rules (Value P.Double) P.Double)
    (parse_json : Bytes → Option (Value P.Double)) (c : Crypto) (d : Draw) (w : Bytes)
    (blank : Blank w) where
  open P use {Time, Double}

  -- The text of an object of the stream, with the line's end that is handed over with it; one that
  -- can be read.
  abbrev pub object_text : Members → Bytes
  object_text m = print w (record_of m) ++ codes "\r\n"

  abbrev pub IsObject : Members → Type 0
  IsObject m = IsDoc (record_of m) × Agrees q parse_json (object_text m)

  -- One object of a stream.
  abbrev pub process : Stores Time → Members → Stores Time
  process s m = (process_single_entity P f (value q.to_double (record_of m)) s).0
