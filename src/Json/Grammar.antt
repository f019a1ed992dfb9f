-- ===== src/Json/Grammar.antt =====
-- The grammar of json_parser_inst.cc: `json_parser` and `parse_json`.
pub mod Choice
pub mod Doc
pub mod Lists
pub mod Numbers
pub mod Pieces
pub mod Reads
pub mod Strings
pub mod Texts
pub mod Documents
use black_circle.Prelude.{
  ℕ, ◌+◌, ◌-◌, ◌*◌, ◌%◌, ◌^◌, Bool, List, [], ◌∷◌, ◌++◌, map, ◌≡◌, Option, none, some, Bytes, codes,
  bytes_eq, bytes_lt, if◌then◌else◌,
}
use black_circle.Prelude.Int.{ℤ}
use black_circle.Json.{
  Value, Items, nil, cons, Fields, end, field, array, string, int, double, object, bool, null,
}
use black_circle.Json.Utf8.{ucn_to_utf8}
use black_circle.Qi.{Parsed, matched, failed, threw}
use black_circle.Qi.Recursive.{Rules}

module _ {D : Type 0} where
  -- The attribute of `array_`.
  unfoldable pub items_of : List (Value D) → Items D
  items_of [] = nil
  items_of (v ∷ vs) = cons v (items_of vs)

  -- `m.insert(m.end(), make_pair(k, v))` for the map of an object.
  unfoldable pub insert_field : Bytes → Value D → Fields D → Fields D
  insert_field k v end = field k v end
  insert_field k v (field j u o) =
      let rest = insert_field k v o in
      if bytes_eq k j
      then field j u o
      else if bytes_lt k j
      then field k v (field j u o)
      else field j u rest

  -- The attribute of `object_`: `m` with the pairs that are read.
  unfoldable pub fields_of : List (Bytes × Value D) → Fields D → Fields D
  fields_of [] m = m
  fields_of (p ∷ ps) m = fields_of ps (insert_field p.0 p.1 m)

-- `((_1-0xD800)<<10)+(_2-0xDC00)+0x10000`, of type `uint32_t`.
abbrev pub joined : ℕ → ℕ → ℕ
joined h l =
    ((h + 2 ^ 32 - 0xD800) % 2 ^ 32 * 2 ^ 10 % 2 ^ 32 + (l + 2 ^ 32 - 0xDC00) % 2 ^ 32 + 0x10000)
    % 2 ^ 32

unfoldable pub concat : List Bytes → Bytes
concat [] = []
concat (w ∷ ws) = w ++ concat ws

module _ {D : Type 0} (q : Rules (Value D) D) where
  open q use {
    Rule, Runs, self, lit, one_of, ascii_but, eps, hex4, int64, boolean, skip, seq, expect, alt,
    many, not_at, opt, action,
  }

  -- An action that does not refuse; and those that keep one side of a sequence.
  abbrev pub set : {A B : Type 0} → (A → B) → Rule A → Rule B
  set f a = action (λ x. some (f x)) a

  abbrev pub right : {A B : Type 0} → Rule (A × B) → Rule B
  right a = set (λ p. p.1) a

  abbrev pub inner : {A B C : Type 0} → Rule ((A × B) × C) → Rule B
  inner a = set (λ p. p.0.1) a

  -- `a % ','`, which is `a >> *(',' >> a)`.
  abbrev pub commas : {A : Type 0} → Rule A → Rule (List A)
  commas a = set (λ p. p.0 ∷ map (λ r. r.1) p.1) (seq a (many (seq (skip (lit (codes ","))) a)))

  abbrev pub null_ : Rule (Value D)
  null_ = set (λ u. null) (skip (lit (codes "null")))

  abbrev pub ucn_code : Rule ℕ
  ucn_code = right (expect (lit (codes "\\u")) hex4)

  abbrev pub named : Bytes → Bytes → Rule Bytes
  named w s = set (λ u. s) (lit w)

  abbrev pub entity : Rule Bytes
  entity = alt (named (codes "gt;") (codes ">")) (
      alt (named (codes "lt;") (codes "<"))
        (alt (named (codes "amp;") (codes "&")) (set (λ u. codes "&") eps)))

  abbrev pub after_backslash : Rule Bytes
  after_backslash =
      alt (set (λ c. (c - b'a') ∷ []) (one_of (codes "bfnrt")))
        (set (λ c. c ∷ []) (one_of (codes "/\\\"")))

  abbrev pub code_point : Rule Bytes
  code_point =
      alt (action ucn_to_utf8 ucn_code)
        (action (λ p. ucn_to_utf8 (joined p.0 p.1)) (expect ucn_code ucn_code))

  unfoldable pub escaped : Rule Bytes
  escaped =
      alt (right (seq (lit (codes "&")) entity))
        (alt (right (seq (lit (codes "\\")) after_backslash)) code_point)

  abbrev pub character : Rule Bytes
  character = alt escaped (set (λ c. c ∷ []) (ascii_but (codes "\"")))

  unfoldable pub string_ : Rule Bytes
  string_ =
      set (λ ws. concat ws)
        (inner (skip (expect (expect (lit (codes "\"")) (many character)) (lit (codes "\"")))))

  unfoldable pub value_pair : Rule (Bytes × Value D)
  value_pair = set (λ p. (p.0.0, p.1)) (expect (expect string_ (skip (lit (codes ":")))) self)

  unfoldable pub object_ : Rule (Value D)
  object_ =
      set (λ ps. object (fields_of ps end))
        (inner (
          expect (expect (skip (lit (codes "{"))) (opt (commas value_pair)))
            (skip (lit (codes "}")))))

  unfoldable pub array_ : Rule (Value D)
  array_ =
      set (λ vs. array (items_of vs))
        (inner
          (expect (expect (skip (lit (codes "["))) (opt (commas self))) (skip (lit (codes "]")))))

  abbrev pub int_ : Rule (Value D)
  int_ = set (λ p. int p.0) (seq (skip int64) (not_at (skip (lit (codes ".")))))

  -- The alternatives behind `object_`, and behind the integers.
  abbrev pub past_object_ : Rule (Value D)
  past_object_ = alt (set bool (skip boolean)) null_

  abbrev pub past_int_ : Rule (Value D)
  past_int_ = alt (set double (skip q.double)) (alt object_ past_object_)

  unfoldable pub value_ : Rule (Value D)
  value_ = alt array_ (alt (set string string_) (alt int_ past_int_))

  unfoldable pub json_text : Rule (Value D)
  json_text = alt object_ array_

  -- What `parse_json` returns: `v` is an empty array before, and `none` is an `expectation_failure`.
  abbrev pub value_or_empty : Parsed (Value D) → Option (Value D)
  value_or_empty (matched v t) = some v
  value_or_empty failed = some (array nil)
  value_or_empty threw = none

  -- `parse_json` of a text, and its result.
  pub data Parses (s : Bytes) (o : Option (Value D)) : Type 0 where
    parse_json :
        (r : Parsed (Value D)) → Runs value_ json_text s r → o ≡ value_or_empty r → Parses s o
