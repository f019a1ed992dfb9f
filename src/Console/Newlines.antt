-- ===== src/Console/Newlines.antt =====
-- What a terminal shows of a text with its line ends returned.
use black_circle.Prelude.{
  ℕ, Bool, Bool-cases, inl, inr, true, false, ◌≡◌, refl, arith, codes, some, [], ◌∷◌, ◌++◌, Bytes,
  length, ◌==◌, if◌then◌else◌,
}
use black_circle.Conversion.{IconvLibrary, enc_utf_8, utf8_to_extern}
use black_circle.Console.{blanks, return_lines, out_handler}

-- A text in which each '\n' stands behind a '\r'; `b` is whether a '\r' stands before the text.
pub IsReturned : Bool → Bytes → Type 0
IsReturned b [] = Unit
IsReturned b (c ∷ s) = (c ≡ b'\n' → b ≡ true) × IsReturned (c == b'\r') s

-- The text `d` is `s` with carriage returns put in before line ends, and nothing else.
pub data Returns : Bytes → Bytes → Type 0 where
  done : Returns [] []
  same : (c : ℕ) {s d : Bytes} → Returns s d → Returns (c ∷ s) (c ∷ d)
  put_in : {s d : Bytes} → Returns (b'\n' ∷ s) (b'\n' ∷ d) → Returns (b'\n' ∷ s) (b'\r' ∷ b'\n' ∷ d)

-- What one character becomes.
return_one :
    (c : ℕ) (s d : Bytes)
    → Returns s d
    → Returns (c ∷ s) (if c == b'\n' then b'\r' ∷ c ∷ d else c ∷ d)
return_one c s d h = elim (Bool-cases (c == b'\n')) [
  | inl e ↦ let line_end : c ≡ b'\n' = ground arith in rw line_end (put_in (same b'\n' h))
  | inr e ↦ rw e (same c h)
]

pub return_lines-Returns : (s : Bytes) → Returns s (return_lines s)
unfolding return_lines
return_lines-Returns [] = done
return_lines-Returns (c ∷ []) = return_one c [] [] done
return_lines-Returns (c ∷ x ∷ s) =
    let rest = return_lines-Returns (x ∷ s) in
    let skipped = return_lines-Returns s in
    elim (Bool-cases (c == b'\r')) [
      | inl e ↦
          let not_end : (c == b'\n') ≡ false = ground arith in
          rw not_end (rw e (same c (same x skipped)))
      | inr e ↦ elim (Bool-cases (c == b'\n')) [
        | inl n ↦ let line_end : c ≡ b'\n' = ground arith in rw line_end (put_in (same b'\n' rest))
        | inr n ↦ rw (n, e) (same c rest)
      ]
    ]

-- Every '\n' that is written stands behind a '\r', whatever was written before.
pub return_lines-IsReturned : (b : Bool) (s : Bytes) → IsReturned b (return_lines s)
unfolding IsReturned return_lines
return_lines-IsReturned b [] = tt
return_lines-IsReturned b (c ∷ []) = ground arith
return_lines-IsReturned b (c ∷ x ∷ s) = ground (
  arith,
  return_lines-IsReturned true (x ∷ s),
  return_lines-IsReturned (c == b'\n') (x ∷ s),
  return_lines-IsReturned (c == b'\r') (x ∷ s),
  return_lines-IsReturned (x == b'\r') s,
)

-- A line of the program is shown on a terminal in UTF-8 after the typed line is blanked out, with
-- nothing but a carriage return put in before some of its line ends, so that each line end stands
-- behind one; and the typed line is written again.
pub out_handler_lem :
    (lib : IconvLibrary) (lastline s : Bytes)
    → (d : Bytes) × (out_handler lib enc_utf_8 lastline s
        ≡ some (b'\r' ∷ (blanks (length lastline) ++ (b'\r' ∷ (d ++ (codes "\r\n" ++ lastline))))))
      × Returns s d
      × IsReturned false d
unfolding out_handler utf8_to_extern
out_handler_lem lib lastline s =
    (return_lines s, refl, return_lines-Returns s, return_lines-IsReturned false s)
