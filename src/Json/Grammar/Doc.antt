-- ===== src/Json/Grammar/Doc.antt =====
-- JSON texts, and the values that they stand for.
use black_circle.Prelude.{
  ℕ, ◌+◌, ◌-◌, ◌*◌, ◌^◌, ◌≤◌, ◌<◌, Bool, true, false, ◌⊎◌, List, [], ◌∷◌, ◌++◌, map, ◌≡◌, ◌≢◌,
  Bytes, codes, length, All, if◌then◌else◌,
}
use black_circle.Prelude.Int.{pos}
use black_circle.Json.{Value, end, array, string, int, double, object, bool, null}
use black_circle.Json.Utf8.Encode.{utf8}
use black_circle.Json.Grammar.{concat, items_of, fields_of}
use black_circle.Qi.{is_one_of, IsDigit, IsHexDigit, number}
use black_circle.Qi.Recursive.{minus}
use black_circle.Qi.Rules.{print_all}

-- A part of a string: a character; a control character, `"`, `/` or `\` behind a `\`; `>`, `<` or `&`
-- as an entity; and four hexadecimal digits, or twice four for a surrogate pair.
pub data Piece : Type 0 where
  plain control quoted : ℕ → Piece
  greater less ampersand : Piece
  code : Bytes → Piece
  pair : Bytes → Bytes → Piece

abbrev pub piece_text : Piece → Bytes
piece_text (plain c) = c ∷ []
piece_text (control c) = b'\\' ∷ c ∷ []
piece_text (quoted c) = b'\\' ∷ c ∷ []
piece_text greater = codes "&gt;"
piece_text less = codes "&lt;"
piece_text ampersand = codes "&amp;"
piece_text (code w) = codes "\\u" ++ w
piece_text (pair w x) = codes "\\u" ++ (w ++ (codes "\\u" ++ x))

abbrev pub pair_code : Bytes → Bytes → ℕ
pair_code w x = 0x10000 + (number 16 w - 0xD800) * 1024 + (number 16 x - 0xDC00)

-- The bytes that a part stands for, in UTF-8; but for a control character, of which the program takes
-- the letter's place behind `a`.
abbrev pub piece_bytes : Piece → Bytes
piece_bytes (plain c) = c ∷ []
piece_bytes (control c) = (c - b'a') ∷ []
piece_bytes (quoted c) = c ∷ []
piece_bytes greater = codes ">"
piece_bytes less = codes "<"
piece_bytes ampersand = codes "&"
piece_bytes (code w) = utf8 (number 16 w)
piece_bytes (pair w x) = utf8 (pair_code w x)

abbrev pub IsHex4 : Bytes → Type 0
IsHex4 w = (length w ≡ 4) × All IsHexDigit w

abbrev pub Surrogate : ℕ → ℕ → Type 0
Surrogate lo n = (lo ≤ n) × (n < lo + 1024)

-- A part without the code points that the program writes a byte short.
abbrev pub IsPiece : Piece → Type 0
IsPiece (plain c) = (c ≤ 127) × (is_one_of (codes "\"\\&") c ≡ false)
IsPiece (control c) = is_one_of (codes "bfnrt") c ≡ true
IsPiece (quoted c) = is_one_of (codes "/\\\"") c ≡ true
IsPiece greater = Unit
IsPiece less = Unit
IsPiece ampersand = Unit
IsPiece (code w) =
    IsHex4 w
    × ((number 16 w < 0x800)
        ⊎ ((0x2000 ≤ number 16 w) × (number 16 w < 0xD800))
        ⊎ ((0xE000 ≤ number 16 w) × (number 16 w < 0x10000)))
IsPiece (pair w x) =
    IsHex4 w
    × Surrogate 0xD800 (number 16 w)
    × IsHex4 x
    × Surrogate 0xDC00 (number 16 x)
    × (0x80000 ≤ pair_code w x)

mutual
  pub data Doc : Type 0 where
    text : List Piece → Doc
    natural negative : Bytes → Doc
    real : Bytes → Bytes → Doc
    flag : Bool → Doc
    nothing : Doc
    list : Docs → Doc
    record_of : Members → Doc

  pub data Docs : Type 0 where
    no_docs : Docs
    docs : Doc → Docs → Docs

  pub data Members : Type 0 where
    no_members : Members
    member : List Piece → Doc → Members → Members

abbrev pub IsNumber : Bytes → Type 0
IsNumber w = (w ≢ []) × All IsDigit w

unfoldable mutual
  pub IsDoc : Doc → Type 0
  IsDoc (text ps) = All IsPiece ps
  IsDoc (natural w) = IsNumber w × (number 10 w < 2 ^ 63)
  IsDoc (negative w) = IsNumber w × (number 10 w ≤ 2 ^ 63)
  IsDoc (real w x) = IsNumber w × ((number 10 w < 2 ^ 63) × IsNumber x)
  IsDoc (flag b) = Unit
  IsDoc nothing = Unit
  IsDoc (list xs) = AllDocs xs
  IsDoc (record_of ms) = AllMembers ms

  pub AllDocs : Docs → Type 0
  AllDocs no_docs = Unit
  AllDocs (docs d xs) = IsDoc d × AllDocs xs

  pub AllMembers : Members → Type 0
  AllMembers no_members = Unit
  AllMembers (member k d ms) = All IsPiece k × (IsDoc d × AllMembers ms)

-- What a JSON text may be.
abbrev pub is_collection : Doc → Bool
is_collection (list xs) = true
is_collection (record_of ms) = true
is_collection _ = false

abbrev pub bytes_of : List Piece → Bytes
bytes_of ps = concat (map piece_bytes ps)

-- A string behind white space `w`.
unfoldable pub quote : Bytes → List Piece → Bytes
quote w ps = w ++ (b'"' ∷ (print_all piece_text ps ++ codes "\""))

module _ (w : Bytes) where
  -- The text of a document, with `w` before each token. What follows a first item or member has
  -- commas.
  unfoldable mutual
    pub print : Doc → Bytes
    print (text ps) = quote w ps
    print (natural x) = w ++ x
    print (negative x) = w ++ (b'-' ∷ x)
    print (real x y) = w ++ (x ++ (b'.' ∷ y))
    print (flag b) = w ++ (if b then codes "true" else codes "false")
    print nothing = w ++ codes "null"
    print (list no_docs) = w ++ (b'[' ∷ (w ++ codes "]"))
    print (list (docs d xs)) = w ++ (b'[' ∷ (print d ++ (print_docs xs ++ (w ++ codes "]"))))
    print (record_of no_members) = w ++ (b'{' ∷ (w ++ codes "}"))
    print (record_of (member k d ms)) =
        w
        ++ (b'{'
            ∷ (quote w k ++ (w ++ (b':' ∷ (print d ++ (print_members ms ++ (w ++ codes "}")))))))

    pub print_docs : Docs → Bytes
    print_docs no_docs = []
    print_docs (docs d xs) = w ++ (b',' ∷ (print d ++ print_docs xs))

    pub print_members : Members → Bytes
    print_members no_members = []
    print_members (member k d ms) =
        w ++ (b',' ∷ (quote w k ++ (w ++ (b':' ∷ (print d ++ print_members ms)))))

module _ {D : Type 0} (to_double : Bytes → D) where
  unfoldable mutual
    pub value : Doc → Value D
    value (text ps) = string (bytes_of ps)
    value (natural w) = int (pos (number 10 w))
    value (negative w) = int (minus (number 10 w))
    value (real w x) = double (to_double (w ++ (b'.' ∷ x)))
    value (flag b) = bool b
    value nothing = null
    value (list xs) = array (items_of (values xs))
    value (record_of ms) = object (fields_of (pairs ms) end)

    pub values : Docs → List (Value D)
    values no_docs = []
    values (docs d xs) = value d ∷ values xs

    pub pairs : Members → List (Bytes × Value D)
    pairs no_members = []
    pairs (member k d ms) = (bytes_of k, value d) ∷ pairs ms
