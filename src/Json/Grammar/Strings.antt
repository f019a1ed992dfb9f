-- ===== src/Json/Grammar/Strings.antt =====
-- How a JSON string is read.
use black_circle.Prelude.{
  ℕ, ◌<◌, true, false, inl, inr, ◌≡◌, refl, ap, ◌∙◌, subst, arith, List, [], ◌∷◌, ◌++◌,
  append_assoc, map, Bytes, codes, length, length-append, All, Bool-cases,
}
use black_circle.Json.{Value}
use black_circle.Json.Grammar.{character, string_}
use black_circle.Json.Grammar.Doc.{
  Piece, plain, control, quoted, greater, less, ampersand, code, pair, piece_text, piece_bytes,
  IsPiece, bytes_of, quote,
}
use black_circle.Json.Grammar.Pieces.{is_plain, set_runs, set_stuck, escaped_runs, escaped_stuck}
use black_circle.Qi.{matched, failed, strip, is_one_of}
use black_circle.Qi.Recursive.{Rules, is_ascii_space}
use black_circle.Qi.Recursive.Steps.{Blank, lit_runs, lit_stuck, skip_runs}
use black_circle.Qi.Rules.{print_all}

-- A part has at least one byte.
piece_longer : (p : Piece) → 0 < length (piece_text p)
piece_longer (plain c) = omega arith
piece_longer (control c) = omega arith
piece_longer (quoted c) = omega arith
piece_longer greater = omega arith
piece_longer less = omega arith
piece_longer ampersand = omega arith
piece_longer (code w) = omega arith
piece_longer (pair w x) = omega arith

plain_of : (p : Piece) → is_plain p ≡ true → (c : ℕ) × (p ≡ plain c)
plain_of (plain c) e = (c, refl)
plain_of (control c) e = cc
plain_of (quoted c) e = cc
plain_of greater e = cc
plain_of less e = cc
plain_of ampersand e = cc
plain_of (code w) e = cc
plain_of (pair w x) e = cc

module _ {D : Type 0} (q : Rules (Value D) D) (v : q.Rule (Value D)) where
  open q use {Rule, Runs, lit, ascii_but, expect, many, skip}

  plain_runs :
      (c : ℕ) (s : Bytes) → IsPiece (plain c) → Runs v (character q) (c ∷ s) (matched (c ∷ []) s)
  plain_runs c s (a, e) =
      q.run-alt-failed v _ _ (c ∷ s) (matched (c ∷ []) s) (escaped_stuck q v c s (ground arith)) (
        set_runs q v _ (ascii_but (codes "\"")) (c ∷ s) s c (
          subst (Runs v (ascii_but (codes "\"")) (c ∷ s)) (ground arith)
            (q.run-ascii_but v c s (codes "\""))))

  character_runs :
      (p : Piece) (s : Bytes)
      → IsPiece p
      → Runs v (character q) (piece_text p ++ s) (matched (piece_bytes p) s)
  character_runs p s h = elim (Bool-cases (is_plain p)) [
    | inl e ↦ let (c, f) = plain_of p e in rw f (plain_runs c s (subst IsPiece f h))
    | inr e ↦ q.run-alt v _ _ _ s _ (escaped_runs q v p s h e)
  ]

  -- The `"` at the end is no character.
  character_stuck : (s : Bytes) → Runs v (character q) (b'"' ∷ s) failed
  character_stuck s =
      q.run-alt-failed v _ _ (b'"' ∷ s) failed (escaped_stuck q v b'"' s refl) (
        set_stuck q v _ (ascii_but (codes "\"")) (b'"' ∷ s) (q.run-ascii_but v b'"' s (codes "\"")))

  characters_run :
      (ps : List Piece) (s : Bytes)
      → All IsPiece ps
      → Runs v
          (many (character q))
          (print_all piece_text ps ++ (b'"' ∷ s))
          (matched (map piece_bytes ps) (b'"' ∷ s))
  unfolding print_all
  characters_run [] s h = q.run-many-failed v (character q) (b'"' ∷ s) (character_stuck s)
  characters_run (p ∷ ps) s h =
      let rest = print_all piece_text ps ++ (b'"' ∷ s) in
      rw (append_assoc (piece_text p) (print_all piece_text ps) (b'"' ∷ s)) (
        q.run-many v (character q) (piece_text p ++ rest) rest (b'"' ∷ s) (piece_bytes p)
          (map piece_bytes ps) (character_runs p rest h.0)
          (omega (arith, length-append (piece_text p) rest, piece_longer p))
          (characters_run ps s h.1))

  quoted_runs :
      (ps : List Piece) (s : Bytes)
      → All IsPiece ps
      → Runs v
          (expect (expect (lit (codes "\"")) (many (character q))) (lit (codes "\"")))
          (b'"' ∷ (print_all piece_text ps ++ (b'"' ∷ s)))
          (matched ((tt, map piece_bytes ps), tt) s)
  quoted_runs ps s h =
      q.run-expect v _ (lit (codes "\"")) _ (b'"' ∷ s) (tt, map piece_bytes ps) (matched tt s)
        (q.run-expect v (lit (codes "\"")) (many (character q)) _
          (print_all piece_text ps ++ (b'"' ∷ s)) tt (matched (map piece_bytes ps) (b'"' ∷ s))
          (lit_runs q v (codes "\"") _) (characters_run ps s h))
        (lit_runs q v (codes "\"") s)

  pub quote-append :
      (w : Bytes) (ps : List Piece) (s : Bytes)
      → quote w ps ++ s ≡ w ++ (b'"' ∷ (print_all piece_text ps ++ (b'"' ∷ s)))
  unfolding quote
  quote-append w ps s =
      append_assoc w (b'"' ∷ (print_all piece_text ps ++ codes "\"")) s
      ∙ ap (λ x. w ++ (b'"' ∷ x)) (append_assoc (print_all piece_text ps) (codes "\"") s)

  pub string_runs :
      (w : Bytes) (ps : List Piece) (s : Bytes)
      → Blank w
      → All IsPiece ps
      → Runs v (string_ q) (quote w ps ++ s) (matched (bytes_of ps) s)
  unfolding string_
  string_runs w ps s b h = rw (quote-append w ps s) (
      set_runs q v _ _ _ s (map piece_bytes ps) (
        set_runs q v _ _ _ s ((tt, map piece_bytes ps), tt)
          (skip_runs q v _ w b'"' (print_all piece_text ps ++ (b'"' ∷ s)) _ b refl
            (quoted_runs ps s h))))

  -- A text that does not begin with `"` is no string.
  pub string_stuck :
      (w : Bytes) (c : ℕ) (s : Bytes)
      → Blank w
      → is_ascii_space c ≡ false
      → is_one_of (codes "\"") c ≡ false
      → Runs v (string_ q) (w ++ (c ∷ s)) failed
  unfolding string_ strip
  string_stuck w c s b k e = set_stuck q v _ _ _ (
      set_stuck q v _ _ _ (
        skip_runs q v _ w c s failed b k (
          q.run-expect-failed v _ (lit (codes "\"")) (c ∷ s) (
            q.run-expect-failed v (lit (codes "\"")) (many (character q)) (c ∷ s)
              (lit_stuck q v (codes "\"") (c ∷ s) (ground arith))))))
