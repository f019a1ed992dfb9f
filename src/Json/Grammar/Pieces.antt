-- ===== src/Json/Grammar/Pieces.antt =====
-- How the parts of a JSON string are read.
use black_circle.Prelude.{
  ℕ, ◌+◌, ◌-◌, ◌*◌, ◌≤◌, ◌<◌, Bool, true, false, ◌⊎◌, ◌≡◌, refl, ap, ◌∙◌, arith, [], ◌∷◌, ◌++◌,
  append_assoc, none, some, Bytes, codes,
}
use black_circle.Json.{Value}
use black_circle.Json.Utf8.{ucn_to_utf8}
use black_circle.Json.Utf8.Encode.{utf8, ucn_to_utf8-utf8}
use black_circle.Json.Grammar.{
  set, right, ucn_code, named, entity, after_backslash, code_point, escaped, joined,
}
use black_circle.Json.Grammar.Doc.{
  Piece, plain, control, quoted, greater, less, ampersand, code, pair, piece_text, piece_bytes,
  IsPiece, IsHex4, pair_code,
}
use black_circle.Qi.{matched, failed, strip, is_one_of, number}
use black_circle.Qi.Recursive.{Rules}
use black_circle.Qi.Recursive.Steps.{lit_runs, lit_stuck, one_of_runs, one_of_stuck}

-- A surrogate pair, whose sum does not wrap around.
joined_lem :
    (h l : ℕ)
    → 0xD800 ≤ h
    → h < 0xDC00
    → 0xDC00 ≤ l
    → l < 0xE000
    → joined h l ≡ 0x10000 + (h - 0xD800) * 1024 + (l - 0xDC00)
joined_lem h l a b c d = omega arith

ucn_to_utf8-code :
    (n : ℕ)
    → (n < 0x800) ⊎ ((0x2000 ≤ n) × (n < 0xD800)) ⊎ ((0xE000 ≤ n) × (n < 0x10000))
    → ucn_to_utf8 n ≡ some (utf8 n)
ucn_to_utf8-code n h = ucn_to_utf8-utf8 n (ground arith) (λ s. ground arith)

ucn_to_utf8-pair : (n : ℕ) → 0x80000 ≤ n → n < 0x110000 → ucn_to_utf8 n ≡ some (utf8 n)
ucn_to_utf8-pair n h k = ucn_to_utf8-utf8 n (ground arith) (λ s. ground arith)

ucn_to_utf8-none : (n : ℕ) → 0xD800 ≤ n → n < 0xDC00 → ucn_to_utf8 n ≡ none
unfolding ucn_to_utf8
ucn_to_utf8-none n h k = ground arith

abbrev pub is_plain : Piece → Bool
is_plain (plain c) = true
is_plain _ = false

module _ {D : Type 0} (q : Rules (Value D) D) (v : q.Rule (Value D)) where
  open q use {Rule, Runs, lit, one_of, ascii_but, hex4, seq, expect, alt, action}

  pub set_runs :
      {A B : Type 0} (f : A → B) (a : Rule A) (s t : Bytes) (x : A)
      → Runs v a s (matched x t)
      → Runs v (set q f a) s (matched (f x) t)
  set_runs f a s t x h = q.run-action v _ a s t x (f x) h refl

  pub set_stuck :
      {A B : Type 0} (f : A → B) (a : Rule A) (s : Bytes)
      → Runs v a s failed
      → Runs v (set q f a) s failed
  set_stuck f a s h = q.run-action-failed v _ a s h

  -- A part behind its first byte, which chooses the rule.
  behind_runs :
      {A : Type 0} (w : Bytes) (b : Rule A) (s t : Bytes) (x : A)
      → Runs v b s (matched x t)
      → Runs v (right q (seq (lit w) b)) (w ++ s) (matched x t)
  behind_runs w b s t x h =
      set_runs (λ p. p.1) (seq (lit w) b) (w ++ s) t (tt, x)
        (q.run-seq v (lit w) b (w ++ s) s tt (matched x t) (lit_runs q v w s) h)

  behind_stuck :
      {A : Type 0} (w : Bytes) (b : Rule A) (s : Bytes)
      → strip w s ≡ failed
      → Runs v (right q (seq (lit w) b)) s failed
  behind_stuck w b s e =
      set_stuck (λ p. p.1) (seq (lit w) b) s (q.run-seq-failed v (lit w) b s (lit_stuck q v w s e))

  ucn_code_runs :
      (w s : Bytes)
      → IsHex4 w
      → Runs v (ucn_code q) (codes "\\u" ++ (w ++ s)) (matched (number 16 w) s)
  ucn_code_runs w s h =
      set_runs (λ p. p.1) (expect (lit (codes "\\u")) hex4) _ s (tt, number 16 w)
        (q.run-expect v (lit (codes "\\u")) hex4 _ (w ++ s) tt (matched (number 16 w) s)
          (lit_runs q v (codes "\\u") (w ++ s)) (q.run-hex4 v w s h.0 h.1))

  ucn_code_stuck : (s : Bytes) → strip (codes "\\u") s ≡ failed → Runs v (ucn_code q) s failed
  ucn_code_stuck s e =
      set_stuck (λ p. p.1) (expect (lit (codes "\\u")) hex4) s
        (q.run-expect-failed v (lit (codes "\\u")) hex4 s (lit_stuck q v (codes "\\u") s e))

  code_point_stuck : (s : Bytes) → strip (codes "\\u") s ≡ failed → Runs v (code_point q) s failed
  code_point_stuck s e =
      q.run-alt-failed v _ _ s failed
        (q.run-action-failed v ucn_to_utf8 (ucn_code q) s (ucn_code_stuck s e))
        (q.run-action-failed v _ (expect (ucn_code q) (ucn_code q)) s
          (q.run-expect-failed v (ucn_code q) (ucn_code q) s (ucn_code_stuck s e)))

  code_runs :
      (w s : Bytes)
      → IsPiece (code w)
      → Runs v (code_point q) (codes "\\u" ++ (w ++ s)) (matched (piece_bytes (code w)) s)
  code_runs w s (h, n) = q.run-alt v _ _ _ s _ (
      q.run-action v ucn_to_utf8 (ucn_code q) _ s (number 16 w) _ (ucn_code_runs w s h)
        (ucn_to_utf8-code (number 16 w) n))

  pair_runs :
      (w x s : Bytes)
      → IsPiece (pair w x)
      → Runs v
          (code_point q)
          (codes "\\u" ++ (w ++ (codes "\\u" ++ (x ++ s))))
          (matched (piece_bytes (pair w x)) s)
  pair_runs w x s (h, a, k, b, whole) =
      let rest = codes "\\u" ++ (x ++ s) in
      q.run-alt-failed v _ _ (codes "\\u" ++ (w ++ rest)) (matched (piece_bytes (pair w x)) s)
        (q.run-action-refused v ucn_to_utf8 (ucn_code q) _ rest (number 16 w)
          (ucn_code_runs w rest h) (ucn_to_utf8-none (number 16 w) a.0 (omega arith)))
        (q.run-action v _ (expect (ucn_code q) (ucn_code q)) _ s (number 16 w, number 16 x) _
          (q.run-expect v (ucn_code q) (ucn_code q) _ rest (number 16 w) (matched (number 16 x) s)
            (ucn_code_runs w rest h) (ucn_code_runs x s k))
          (ap ucn_to_utf8
              (joined_lem (number 16 w) (number 16 x) a.0 (omega arith) b.0 (omega arith))
            ∙ ucn_to_utf8-pair (pair_code w x) whole (omega arith)))

  -- The three alternatives of `escaped`, by the first byte.
  entity_runs :
      (s t : Bytes) (x : Bytes)
      → Runs v (entity q) s (matched x t)
      → Runs v (escaped q) (b'&' ∷ s) (matched x t)
  unfolding escaped
  entity_runs s t x h = q.run-alt v _ _ _ t x (behind_runs (codes "&") (entity q) s t x h)

  no_ampersand :
      (c : ℕ) (s : Bytes)
      → is_one_of (codes "&") c ≡ false
      → Runs v (right q (seq (lit (codes "&")) (entity q))) (c ∷ s) failed
  unfolding strip
  no_ampersand c s e = behind_stuck (codes "&") (entity q) (c ∷ s) (ground (arith))

  backslash_runs :
      (s t : Bytes) (x : Bytes)
      → Runs v (after_backslash q) s (matched x t)
      → Runs v (escaped q) (b'\\' ∷ s) (matched x t)
  unfolding escaped
  backslash_runs s t x h =
      q.run-alt-failed v _ _ _ (matched x t) (no_ampersand b'\\' s refl)
        (q.run-alt v _ _ _ t x (behind_runs (codes "\\") (after_backslash q) s t x h))

  after_backslash_stuck :
      (c : ℕ) (s : Bytes)
      → is_one_of (codes "bfnrt/\\\"") c ≡ false
      → Runs v (after_backslash q) (c ∷ s) failed
  after_backslash_stuck c s e =
      q.run-alt-failed v _ _ (c ∷ s) failed
        (set_stuck _ (one_of (codes "bfnrt")) (c ∷ s)
          (one_of_stuck q v (codes "bfnrt") c s (ground arith)))
        (set_stuck _ (one_of (codes "/\\\"")) (c ∷ s)
          (one_of_stuck q v (codes "/\\\"") c s (ground arith)))

  unicode_runs :
      (s t : Bytes) (x : Bytes)
      → Runs v (code_point q) (codes "\\u" ++ s) (matched x t)
      → Runs v (escaped q) (codes "\\u" ++ s) (matched x t)
  unfolding escaped
  unicode_runs s t x h =
      q.run-alt-failed v _ _ _ (matched x t) (no_ampersand b'\\' (b'u' ∷ s) refl) (
        q.run-alt-failed v _ _ _ (matched x t)
          (set_stuck (λ p. p.1) (seq (lit (codes "\\")) (after_backslash q)) _
            (q.run-seq v (lit (codes "\\")) (after_backslash q) _ (b'u' ∷ s) tt failed
              (lit_runs q v (codes "\\") (b'u' ∷ s)) (after_backslash_stuck b'u' s refl)))
          h)

  pub escaped_stuck :
      (c : ℕ) (s : Bytes) → is_one_of (codes "\\&") c ≡ false → Runs v (escaped q) (c ∷ s) failed
  unfolding escaped strip
  escaped_stuck c s e = q.run-alt-failed v _ _ (c ∷ s) failed (no_ampersand c s (ground arith)) (
      q.run-alt-failed v _ _ (c ∷ s) failed
        (behind_stuck (codes "\\") (after_backslash q) (c ∷ s) (ground arith))
        (code_point_stuck (c ∷ s) (ground arith)))

  named_runs : (w x s : Bytes) → Runs v (named q w x) (w ++ s) (matched x s)
  named_runs w x s = set_runs (λ u. x) (lit w) (w ++ s) s tt (lit_runs q v w s)

  named_stuck : (w x s : Bytes) → strip w s ≡ failed → Runs v (named q w x) s failed
  named_stuck w x s e = set_stuck (λ u. x) (lit w) s (lit_stuck q v w s e)

  pub escaped_runs :
      (p : Piece) (s : Bytes)
      → IsPiece p
      → is_plain p ≡ false
      → Runs v (escaped q) (piece_text p ++ s) (matched (piece_bytes p) s)
  unfolding strip
  escaped_runs (plain c) s h n = cc (n)
  escaped_runs (control c) s h n = backslash_runs (c ∷ s) s _ (
      q.run-alt v _ _ (c ∷ s) s _
        (set_runs _ (one_of (codes "bfnrt")) (c ∷ s) s c (one_of_runs q v (codes "bfnrt") c s h)))
  escaped_runs (quoted c) s h n = backslash_runs (c ∷ s) s _ (
      q.run-alt-failed v _ _ (c ∷ s) (matched (c ∷ []) s)
        (set_stuck _ (one_of (codes "bfnrt")) (c ∷ s)
          (one_of_stuck q v (codes "bfnrt") c s (ground arith)))
        (set_runs _ (one_of (codes "/\\\"")) (c ∷ s) s c (one_of_runs q v (codes "/\\\"") c s h)))
  escaped_runs greater s h n =
      entity_runs (codes "gt;" ++ s) s (codes ">")
        (q.run-alt v _ _ _ s _ (named_runs (codes "gt;") (codes ">") s))
  escaped_runs less s h n = entity_runs (codes "lt;" ++ s) s (codes "<") (
      q.run-alt-failed v _ _ _ (matched (codes "<") s)
        (named_stuck (codes "gt;") (codes ">") (codes "lt;" ++ s) refl)
        (q.run-alt v _ _ _ s _ (named_runs (codes "lt;") (codes "<") s)))
  escaped_runs ampersand s h n = entity_runs (codes "amp;" ++ s) s (codes "&") (
      q.run-alt-failed v _ _ _ (matched (codes "&") s)
        (named_stuck (codes "gt;") (codes ">") (codes "amp;" ++ s) refl)
        (q.run-alt-failed v _ _ _ (matched (codes "&") s)
          (named_stuck (codes "lt;") (codes "<") (codes "amp;" ++ s) refl)
          (q.run-alt v _ _ _ s _ (named_runs (codes "amp;") (codes "&") s))))
  escaped_runs (code w) s h n = unicode_runs (w ++ s) s _ (code_runs w s h)
  escaped_runs (pair w x) s h n =
      rw (append_assoc w (codes "\\u" ++ x) s)
        (unicode_runs (w ++ (codes "\\u" ++ (x ++ s))) s _ (pair_runs w x s h))
