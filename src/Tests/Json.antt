-- ===== src/Tests/Json.antt =====
-- A JSON text that is read.
use black_circle.Prelude.{refl, true, arith, [], ◌∷◌, some, Bytes, codes}
use black_circle.Prelude.Int.{negsuc}
use black_circle.Json.{Value, array, nil, cons, string, int, double, object, bool, null, field, end}
use black_circle.Json.Grammar.{Parses, fields_of, insert_field, concat, items_of}
use black_circle.Json.Utf8.Encode.{utf8}
use black_circle.Qi.Rules.{print_all}
use black_circle.Json.Grammar.Doc.{
  Doc, text, natural, negative, real, flag, nothing, list, record_of, docs, no_docs, member,
  no_members, plain, control, greater, code, IsDoc, print, value, quote,
}
use black_circle.Json.Grammar.Reads.{parse_json-print, parse_json_other}
use black_circle.Tests.Rules.{rules}

-- ` { "t" : [ "a\n&gt;é" , -7 , 1.5 , true , null ] , "t" : 2 }`; of a key that occurs twice the
-- first value counts, and the escape of a line feed is read as a carriage return.
abbrev doc : Doc
doc = record_of (
    member (plain b't' ∷ [])
      (list (
        docs (text (plain b'a' ∷ control b'n' ∷ greater ∷ code (codes "00E9") ∷ [])) (
          docs (negative (codes "7"))
            (docs (real (codes "1") (codes "5")) (docs (flag true) (docs nothing no_docs))))))
      (member (plain b't' ∷ []) (natural (codes "2")) no_members))

abbrev json : Value Bytes
json = object (
    field (codes "t")
      (array (
        cons (string (b'a' ∷ b'\r' ∷ b'>' ∷ 0xC3 ∷ 0xA9 ∷ []))
          (cons (int (negsuc 6)) (cons (double (codes "1.5")) (cons (bool true) (cons null nil))))))
      end)

parse_json-print_example :
    Parses
      (rules (Value Bytes))
      (codes " { \"t\" : [ \"a\\n&gt;\\u00E9\" , -7 , 1.5 , true , null ] , \"t\" : 2 }\r\n")
      (some json)
unfolding print IsDoc value quote fields_of print_all insert_field concat items_of utf8
parse_json-print_example =
    parse_json-print (rules (Value Bytes)) (codes " ") (refl, tt) doc (codes "\r\n") (ground arith)
      refl

parse_json_other_example : Parses (rules (Value Bytes)) (codes "  error") (some (array nil))
parse_json_other_example =
    parse_json_other (rules (Value Bytes)) (codes "  ") (refl, (refl, tt)) b'e' (codes "rror") refl
      refl
