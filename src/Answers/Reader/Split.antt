-- ===== src/Answers/Reader/Split.antt =====
-- Where a text that comes in parts has been cut.
use black_circle.Prelude.{
  ℕ, ◌≤◌, true, ◌≡◌, ◌≢◌, refl, sym, ap, ◌∙◌, arith, List, [], ◌∷◌, ◌++◌, Bytes, codes, length,
  take, drop, All,
}
use black_circle.Answers.Reader.{begins, has_text}

module _ {A : Type 0} where
  -- The part that has come includes `p`, if it is as long.
  pub split_at_length :
      (p b wire y : List A)
      → b ++ wire ≡ p ++ y
      → length p ≤ length b
      → (t : List A) × (b ≡ p ++ t) × (t ++ wire ≡ y)
  split_at_length [] b wire y e h = (b, refl, e)
  split_at_length (x ∷ p) [] wire y e h = absurd (omega arith)
  split_at_length (x ∷ p) (c ∷ b) wire y e h =
      let (t, f, g) = split_at_length p b wire y (cc) (omega arith) in (t, cc, g)

  pub take-append : (p t : List A) → take (length p) (p ++ t) ≡ p
  take-append [] t = refl
  take-append (x ∷ p) t = ap (◌∷◌ x) (take-append p t)

  pub drop-append : (p t : List A) → drop (length p) (p ++ t) ≡ t
  drop-append [] t = refl
  drop-append (x ∷ p) t = drop-append p t

abbrev pub NoReturn : Bytes → Type 0
NoReturn = All (λ c. c ≢ b'\r')

-- A line's end does not begin with another byte than `\r`.
later :
    (c : ℕ) (b : Bytes)
    → c ≢ b'\r'
    → has_text (codes "\r\n") (c ∷ b) ≡ true
    → has_text (codes "\r\n") b ≡ true
unfolding has_text begins
later c b ne h = ground arith

-- The part that has come includes the first line, if it has a line's end.
pub split_at_line :
    (p b wire y : Bytes)
    → NoReturn p
    → b ++ wire ≡ p ++ (codes "\r\n" ++ y)
    → has_text (codes "\r\n") b ≡ true
    → (t : Bytes) × (b ≡ p ++ (codes "\r\n" ++ t)) × (t ++ wire ≡ y)
unfolding has_text begins
split_at_line p [] wire y h e t = cc
split_at_line [] (c ∷ []) wire y h e t = absurd (ground arith)
split_at_line [] (c ∷ d ∷ b) wire y h e t = (b, cc, cc)
split_at_line (x ∷ p) (c ∷ b) wire y h e t =
    let same : c ≡ x = cc in
    let (r, f, g) = split_at_line p b wire y h.1 (cc) (later c b (λ k. h.0 (sym same ∙ k)) t) in
    (r, cc, g)
