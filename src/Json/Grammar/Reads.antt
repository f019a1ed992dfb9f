-- ===== src/Json/Grammar/Reads.antt =====
-- A JSON text is read as the value that it stands for.
use black_circle.Prelude.{
  ℕ, true, false, ◌≡◌, refl, subst, arith, List, [], ◌∷◌, ◌++◌, append_assoc, map, some, Bytes,
  codes,
}
use black_circle.Json.{Value, nil, end, array, object}
use black_circle.Json.Grammar.{
  commas, value_, object_, array_, value_pair, json_text, items_of, fields_of, Parses, parse_json,
}
use black_circle.Json.Grammar.Choice.{
  self_stuck, object_stuck, array_stuck, choose_array, choose_object, null_runs,
}
use black_circle.Json.Grammar.Doc.{
  Doc, text, natural, negative, real, flag, nothing, list, record_of, Docs, no_docs, docs, Members,
  no_members, member, IsDoc, is_collection, AllDocs, AllMembers, bytes_of, quote, print, print_docs,
  print_members, value, values, pairs,
}
use black_circle.Json.Grammar.Lists.{tag, empty_runs, full_runs, next_runs, last_runs, pair_runs}
use black_circle.Json.Grammar.Numbers.{IsEnd, natural_runs, negative_runs, real_runs}
use black_circle.Json.Grammar.Pieces.{set_stuck}
use black_circle.Qi.{matched, failed, is_one_of}
use black_circle.Qi.Recursive.{Rules, is_ascii_space}
use black_circle.Qi.Recursive.Steps.{Blank}
use black_circle.Json.Grammar.Documents.{
  docs-IsEnd, members-IsEnd, text_runs, flag_runs, array_runs, object_runs, pair_stuck,
}
use black_circle.Json.Grammar.Texts.{
  item_text, list_text, longer, pair_longer, real_text, member_text, record_text,
  record_member_text, list_begins,
}

module _ {D : Type 0} (q : Rules (Value D) D) (w : Bytes) (blank : Blank w) where
  open q use {Rule, Runs, self, lit, seq, many, skip, to_double}

  abbrev v : Rule (Value D)
  v = value_ q

  -- The items behind a first, and where they end.
  abbrev more_docs : Docs → Bytes → Bytes
  more_docs xs s = print_docs w xs ++ (w ++ (b']' ∷ s))

  abbrev more_members : Members → Bytes → Bytes
  more_members ms s = print_members w ms ++ (w ++ (b'}' ∷ s))

  abbrev MoreRuns : {A : Type 0} → Rule A → Bytes → List A → Bytes → Type 0
  MoreRuns a t xs s = Runs v (many (seq (skip (lit (codes ","))) a)) t (matched (map tag xs) s)

  no_items :
      {A : Type 0} (a : Rule A) (s : Bytes) → Runs v a s failed → Runs v (commas q a) s failed
  no_items a s h = set_stuck q v _ _ _ (q.run-seq-failed v a _ s h)

  no_docs_run :
      (s : Bytes)
      → Runs v (array_ q) (print w (list no_docs) ++ s) (matched (array (items_of [])) s)
  unfolding print
  no_docs_run s = rw (item_text w w (codes "]") s b'[') (
      array_runs q w blank (w ++ (b']' ∷ s)) s [] (
        empty_runs q w blank b'[' b']' (commas q self) s refl refl
          (no_items self _ (self_stuck q w blank s))))

  no_members_run :
      (s : Bytes)
      → Runs v (object_ q) (print w (record_of no_members) ++ s) (matched (object end) s)
  unfolding print fields_of
  no_members_run s = rw (item_text w w (codes "}") s b'{') (
      object_runs q w blank (w ++ (b'}' ∷ s)) s [] (
        empty_runs q w blank b'{' b'}' (commas q (value_pair q)) s refl refl
          (no_items (value_pair q) _ (pair_stuck q w blank s))))

  -- A record that is read, as a value.
  choose_record :
      (ms : Members) (s : Bytes) (x : Value D)
      → Runs v (object_ q) (print w (record_of ms) ++ s) (matched x s)
      → Runs v self (print w (record_of ms) ++ s) (matched x s)
  choose_record ms s x h =
      let (t, e) = record_text w ms s in
      rw e (
        choose_object q w blank b'{' t refl x s refl (λ i. ground (arith, i))
          (subst (λ y. Runs v (object_ q) y (matched x s)) e h))

  mutual
    unfolding print IsDoc value fields_of

    doc_runs :
        (d : Doc) (s : Bytes)
        → IsDoc d
        → IsEnd w s
        → Runs v self (print w d ++ s) (matched (value to_double d) s)
    doc_runs (text ps) s h e = text_runs q w blank ps s h
    doc_runs (natural x) s h e = rw (append_assoc w x s) (natural_runs q w blank s e x h.0 h.1)
    doc_runs (negative x) s h e =
        rw (append_assoc w (b'-' ∷ x) s) (negative_runs q w blank s e x h.0 h.1)
    doc_runs (real x y) s h e = rw (real_text w x y s) (real_runs q w blank s e x y h.0 h.1.0 h.1.1)
    doc_runs (flag b) s h e = flag_runs q w blank b s
    doc_runs nothing s h e = rw (append_assoc w (codes "null") s) (null_runs q w blank s)
    doc_runs (list xs) s h e = choose_array q w blank _ s _ (list_runs xs s h)
    doc_runs (record_of ms) s h e = choose_record ms s _ (record_runs ms s h)

    list_runs :
        (xs : Docs) (s : Bytes)
        → AllDocs xs
        → Runs v (array_ q) (print w (list xs) ++ s) (matched (value to_double (list xs)) s)
    list_runs no_docs s h = no_docs_run s
    list_runs (docs d xs) s h = rw (list_text w (print w d) (print_docs w xs) s b'[' b']') (
        array_runs q w blank (print w d ++ more_docs xs s) s
          (value to_double d ∷ values to_double xs)
          (full_runs q w blank b'[' b']' self (print w d ++ more_docs xs s) (more_docs xs s) s
            (value to_double d) (values to_double xs) refl refl
            (doc_runs d (more_docs xs s) h.0 (docs-IsEnd q w blank xs s)) (docs_run xs s h.1)))

    docs_run :
        (xs : Docs) (s : Bytes)
        → AllDocs xs
        → MoreRuns self (more_docs xs s) (values to_double xs) (w ++ (b']' ∷ s))
    docs_run no_docs s h = last_runs q w blank self b']' s refl refl
    docs_run (docs d xs) s h =
        rw (item_text w (print w d) (print_docs w xs) (w ++ (b']' ∷ s)) b',') (
          next_runs q w blank self (print w d ++ more_docs xs s) (more_docs xs s) (w ++ (b']' ∷ s))
            (value to_double d) (values to_double xs)
            (doc_runs d (more_docs xs s) h.0 (docs-IsEnd q w blank xs s))
            (longer w (print w d) (more_docs xs s)) (docs_run xs s h.1))

    record_runs :
        (ms : Members) (s : Bytes)
        → AllMembers ms
        → Runs v
            (object_ q)
            (print w (record_of ms) ++ s)
            (matched (value to_double (record_of ms)) s)
    record_runs no_members s h = no_members_run s
    record_runs (member k d ms) s h =
        let rest = more_members ms s in
        let first = quote w k ++ (w ++ (b':' ∷ (print w d ++ rest))) in
        rw (record_member_text w k d ms s) (
          object_runs q w blank first s ((bytes_of k, value to_double d) ∷ pairs to_double ms) (
            full_runs q w blank b'{' b'}' (value_pair q) first rest s
              (bytes_of k, value to_double d) (pairs to_double ms) refl refl
              (pair_runs q w blank k (print w d ++ rest) rest (value to_double d) h.0
                (doc_runs d rest h.1.0 (members-IsEnd q w blank ms s)))
              (members_run ms s h.1.1)))

    members_run :
        (ms : Members) (s : Bytes)
        → AllMembers ms
        → MoreRuns (value_pair q) (more_members ms s) (pairs to_double ms) (w ++ (b'}' ∷ s))
    members_run no_members s h = last_runs q w blank (value_pair q) b'}' s refl refl
    members_run (member k d ms) s h =
        let rest = more_members ms s in
        let first = quote w k ++ (w ++ (b':' ∷ (print w d ++ rest))) in
        rw
          (append_assoc w (b',' ∷ (quote w k ++ (w ++ (b':' ∷ (print w d ++ print_members w ms)))))
            (w ++ (b'}' ∷ s)))
          (rw (member_text w (quote w k) (print w d) (print_members w ms) (w ++ (b'}' ∷ s))) (
            next_runs q w blank (value_pair q) first rest (w ++ (b'}' ∷ s))
              (bytes_of k, value to_double d) (pairs to_double ms)
              (pair_runs q w blank k (print w d ++ rest) rest (value to_double d) h.0
                (doc_runs d rest h.1.0 (members-IsEnd q w blank ms s)))
              (pair_longer w (quote w k) (print w d) rest) (members_run ms s h.1.1)))

  -- A text of an array or an object, with the same white space before each token, is read as the
  -- value that it stands for, whatever follows it: of every nesting; with whole numbers of 64 bits
  -- with a sign, and positive decimal fractions without an exponent; and with strings of ASCII
  -- characters, entities and escapes, where an escaped code point is written in UTF-8 and is none
  -- from U+0800 to U+1FFF or from U+10000 to U+7FFFF, and a control escape stands for the place of
  -- its letter behind `a` (so `\n` for the byte 13), not for the control character.
  pub parse_json-print :
      (d : Doc) (s : Bytes)
      → IsDoc d
      → is_collection d ≡ true
      → Parses q (print w d ++ s) (some (value to_double d))
  unfolding json_text IsDoc
  parse_json-print (list xs) s h e =
      let (t, f) = list_begins w xs s in
      let stuck : Runs v (object_ q) (print w (list xs) ++ s) failed =
        rw f (object_stuck q w blank b'[' t refl refl) in
      parse_json (matched (value to_double (list xs)) s)
        (q.run-alt-failed v _ _ _ _ stuck (list_runs xs s h)) refl
  parse_json-print (record_of ms) s h e =
      parse_json (matched (value to_double (record_of ms)) s)
        (q.run-alt v _ _ _ s _ (record_runs ms s h)) refl
  parse_json-print (text ps) s h e = cc
  parse_json-print (natural x) s h e = cc
  parse_json-print (negative x) s h e = cc
  parse_json-print (real x y) s h e = cc
  parse_json-print (flag b) s h e = cc
  parse_json-print nothing s h e = cc

  -- A text that begins with neither a bracket nor a brace is read as an empty array, not refused.
  pub parse_json_other :
      (c : ℕ) (s : Bytes)
      → is_ascii_space c ≡ false
      → is_one_of (codes "[{") c ≡ false
      → Parses q (w ++ (c ∷ s)) (some (array nil))
  unfolding json_text
  parse_json_other c s k e =
      parse_json failed
        (q.run-alt-failed v _ _ _ failed (object_stuck q w blank c s k (ground arith))
          (array_stuck q w blank c s k (ground arith)))
        refl
