-- ===== src/Json/Grammar/Documents.antt =====
-- How a JSON text is read, but for the values in it.
use black_circle.Prelude.{
  Bool, true, false, refl, subst, arith, List, ◌∷◌, ◌++◌, append_assoc, Bytes, codes, All,
}
use black_circle.Json.{Value, end, array, object, bool, string}
use black_circle.Json.Grammar.{
  inner, commas, value_, object_, array_, string_, value_pair, items_of, fields_of,
}
use black_circle.Json.Grammar.Choice.{choose_string, choose_bool}
use black_circle.Json.Grammar.Doc.{
  Piece, flag, Docs, no_docs, docs, Members, no_members, member, bytes_of, quote, print, print_docs,
  print_members, IsPiece, piece_text,
}
use black_circle.Json.Grammar.Lists.{comma-IsEnd}
use black_circle.Json.Grammar.Numbers.{IsEnd}
use black_circle.Json.Grammar.Pieces.{set_runs, set_stuck}
use black_circle.Json.Grammar.Strings.{string_runs, string_stuck, quote-append}
use black_circle.Qi.{matched, failed}
use black_circle.Qi.Rules.{print_all}
use black_circle.Qi.Recursive.{Rules}
use black_circle.Qi.Recursive.Steps.{Blank}
use black_circle.Json.Grammar.Texts.{item_text}

module _ {D : Type 0} (q : Rules (Value D) D) (w : Bytes) (blank : Blank w) where
  open q use {Rule, Runs, self, lit, seq, many, skip, boolean, to_double}

  abbrev v : Rule (Value D)
  v = value_ q

  -- What follows an item ends a value.
  pub docs-IsEnd : (xs : Docs) (s : Bytes) → IsEnd w (print_docs w xs ++ (w ++ (b']' ∷ s)))
  unfolding print
  docs-IsEnd no_docs s = record { next = b']'; after = s; text = refl; ends = refl }
  docs-IsEnd (docs d xs) s =
      comma-IsEnd q w blank _ _ (item_text w (print w d) (print_docs w xs) (w ++ (b']' ∷ s)) b',')

  pub members-IsEnd : (ms : Members) (s : Bytes) → IsEnd w (print_members w ms ++ (w ++ (b'}' ∷ s)))
  unfolding print
  members-IsEnd no_members s = record { next = b'}'; after = s; text = refl; ends = refl }
  members-IsEnd (member k d ms) s = comma-IsEnd q w blank _ _ (
      append_assoc w (b',' ∷ (quote w k ++ (w ++ (b':' ∷ (print w d ++ print_members w ms)))))
        (w ++ (b'}' ∷ s)))

  pub text_runs :
      (ps : List Piece) (s : Bytes)
      → All IsPiece ps
      → Runs v self (quote w ps ++ s) (matched (string (bytes_of ps)) s)
  text_runs ps s h =
      let body = print_all piece_text ps ++ (b'"' ∷ s) in
      let run = string_runs q v w ps s blank h in
      let e = quote-append q v w ps s in
      rw e (
        choose_string q w blank b'"' body refl (string (bytes_of ps)) s refl (
          set_runs q v string (string_ q) (w ++ (b'"' ∷ body)) s (bytes_of ps)
            (subst (λ t. Runs v (string_ q) t (matched (bytes_of ps) s)) e run)))

  pub flag_runs : (b : Bool) (s : Bytes) → Runs v self (print w (flag b) ++ s) (matched (bool b) s)
  unfolding print
  flag_runs true s = rw (append_assoc w (codes "true") s) (
      choose_bool q w blank b't' (codes "rue" ++ s) refl true s refl (λ i. ground (arith, i))
        (q.run-true v s))
  flag_runs false s = rw (append_assoc w (codes "false") s) (
      choose_bool q w blank b'f' (codes "alse" ++ s) refl false s refl (λ i. ground (arith, i))
        (q.run-false v s))

  -- An array and an object from their lists.
  pub array_runs :
      (t s : Bytes) (vs : List (Value D))
      → Runs v
          (inner q (
            q.expect
              (q.expect (skip (lit (codes "["))) (q.opt (commas q self)))
              (skip (lit (codes "]")))))
          (w ++ (b'[' ∷ t))
          (matched vs s)
      → Runs v (array_ q) (w ++ (b'[' ∷ t)) (matched (array (items_of vs)) s)
  unfolding array_
  array_runs t s vs h = set_runs q v (λ l. array (items_of l)) _ _ s vs h

  pub object_runs :
      (t s : Bytes) (ps : List (Bytes × Value D))
      → Runs v
          (inner q (
            q.expect
              (q.expect (skip (lit (codes "{"))) (q.opt (commas q (value_pair q))))
              (skip (lit (codes "}")))))
          (w ++ (b'{' ∷ t))
          (matched ps s)
      → Runs v (object_ q) (w ++ (b'{' ∷ t)) (matched (object (fields_of ps end)) s)
  unfolding object_
  object_runs t s ps h = set_runs q v (λ l. object (fields_of l end)) _ _ s ps h

  -- No pair begins with a `}`.
  pub pair_stuck : (s : Bytes) → Runs v (value_pair q) (w ++ (b'}' ∷ s)) failed
  unfolding value_pair
  pair_stuck s = set_stuck q v _ _ _ (
      q.run-expect-failed v _ self _
        (q.run-expect-failed v (string_ q) _ _ (string_stuck q v w b'}' s blank refl refl)))
