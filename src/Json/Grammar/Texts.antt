-- ===== src/Json/Grammar/Texts.antt =====
-- The texts of JSON documents, with their parts one behind the other.
use black_circle.Prelude.{
  ℕ, ◌≤◌, ◌≡◌, ap, ◌∙◌, arith, List, ◌∷◌, [], ◌++◌, append_assoc, Bytes, codes, length,
  length-append,
}
use black_circle.Json.Grammar.Doc.{
  Piece, Doc, list, record_of, Docs, no_docs, docs, Members, no_members, member, quote, print,
  print_members,
}

-- The texts of lists, with their parts one behind the other.
pub item_text : (w a b c : Bytes) (o : ℕ) → (w ++ (o ∷ (a ++ b))) ++ c ≡ w ++ (o ∷ (a ++ (b ++ c)))
item_text w a b c o = append_assoc w (o ∷ (a ++ b)) c ∙ ap (λ t. w ++ (o ∷ t)) (append_assoc a b c)

pub list_text :
    (w a b s : Bytes) (o c : ℕ)
    → (w ++ (o ∷ (a ++ (b ++ (w ++ (c ∷ [])))))) ++ s ≡ w ++ (o ∷ (a ++ (b ++ (w ++ (c ∷ s)))))
list_text w a b s o c =
    item_text w a (b ++ (w ++ (c ∷ []))) s o
    ∙ ap (λ t. w ++ (o ∷ (a ++ t)))
        (append_assoc b (w ++ (c ∷ [])) s ∙ ap (◌++◌ b) (append_assoc w (c ∷ []) s))

pub pair_text : (k w a b : Bytes) → (k ++ (w ++ (b':' ∷ a))) ++ b ≡ k ++ (w ++ (b':' ∷ (a ++ b)))
pair_text k w a b = append_assoc k (w ++ (b':' ∷ a)) b ∙ ap (◌++◌ k) (append_assoc w (b':' ∷ a) b)

module _ (w : Bytes) where
  pub longer : (a b : Bytes) → length b ≤ length (a ++ b)
  longer a b = omega (arith, length-append a b)

  pub pair_longer : (k a b : Bytes) → length b ≤ length (k ++ (w ++ (b':' ∷ (a ++ b))))
  pair_longer k a b = omega (
    arith,
    length-append k (w ++ (b':' ∷ (a ++ b))),
    length-append w (b':' ∷ (a ++ b)),
    length-append a b,
  )

  pub real_text : (x y s : Bytes) → (w ++ (x ++ (b'.' ∷ y))) ++ s ≡ w ++ (x ++ (b'.' ∷ (y ++ s)))
  real_text x y s = append_assoc w (x ++ (b'.' ∷ y)) s ∙ ap (◌++◌ w) (append_assoc x (b'.' ∷ y) s)

  -- A pair and the pairs behind it.
  pub member_text :
      (k d ms c : Bytes)
      → (k ++ (w ++ (b':' ∷ (d ++ ms)))) ++ c ≡ k ++ (w ++ (b':' ∷ (d ++ (ms ++ c))))
  member_text k d ms c =
      pair_text k w (d ++ ms) c ∙ ap (λ t. k ++ (w ++ (b':' ∷ t))) (append_assoc d ms c)

  pub record_text :
      (ms : Members) (s : Bytes) → (t : Bytes) × (print w (record_of ms) ++ s ≡ w ++ (b'{' ∷ t))
  unfolding print
  record_text no_members s = (_, append_assoc w _ s)
  record_text (member k d ms) s = (_, append_assoc w _ s)

  pub record_member_text :
      (k : List Piece) (d : Doc) (ms : Members) (s : Bytes)
      → print w (record_of (member k d ms)) ++ s
        ≡ w
          ++ (b'{'
              ∷ (quote w k
                  ++ (w ++ (b':' ∷ (print w d ++ (print_members w ms ++ (w ++ (b'}' ∷ s))))))))
  unfolding print
  record_member_text k d ms s =
      append_assoc w _ s
      ∙ ap (λ t. w ++ (b'{' ∷ t))
          (member_text (quote w k) (print w d) (print_members w ms ++ (w ++ codes "}")) s
            ∙ ap (λ t. quote w k ++ (w ++ (b':' ∷ (print w d ++ t))))
                (append_assoc (print_members w ms) (w ++ codes "}") s
                  ∙ ap (◌++◌ (print_members w ms)) (append_assoc w (codes "}") s)))

  pub list_begins :
      (xs : Docs) (s : Bytes) → (t : Bytes) × (print w (list xs) ++ s ≡ w ++ (b'[' ∷ t))
  unfolding print
  list_begins no_docs s = (_, append_assoc w _ s)
  list_begins (docs d xs) s = (_, append_assoc w _ s)
