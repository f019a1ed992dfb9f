-- ===== src/Console/Typing.antt =====
-- `in_handler` of console.cc: the line that is typed.
use black_circle.Prelude.{
  ℕ, zero, suc, ◌+◌, ◌-◌, Bool, true, false, ◌≡◌, ◌≢◌, refl, sym, ap, ◌∙◌, arith, [], ◌∷◌, ◌++◌,
  append_assoc, ◌⊎◌, Option, none, some, inl, inr, Option-cases, Bytes, length, take, ◌==◌,
  if◌then◌else◌, All,
}
use black_circle.Conversion.{
  IoEncoding, enc_utf_8, IconvLibrary, wchar_size, extern_to_wide, wide_to_extern, extern_to_utf8,
}
use black_circle.Twitter.Build.{replace_cr}
use black_circle.Console.{blanks, redraw}

-- `s.find(b)` with `s.substr(0, pos)` and `s.substr(pos + 1)`.
unfoldable pub cut : ℕ → Bytes → Option (Bytes × Bytes)
cut b [] = none
cut b (c ∷ s) =
    let rest = cut b s in
    if c == b then some ([], s) else elim rest [ none ↦ none | some p ↦ some (c ∷ p.0, p.1) ]

-- The line after the backspaces. It is undefined where `pop_back` meets an empty vector; `endless` is
-- that the fuel, or that of a conversion, ran out.
pub data Typed : Type 0 where
  line : Bytes → Typed
  undefined endless : Typed

-- What a call leaves: the line, what the terminal shows, and what the program reads.
pub record Input : Type 0 where
  pub lastline : Bytes
  pub shown : Bytes
  pub given : Option Bytes

module _ (lib : IconvLibrary) (enc : IoEncoding) where
  -- `ws.pop_back()` on the bytes of a `vector<wchar_t>`, and what is made of the rest.
  pub shorten : Bytes → Option Bytes → Option Bytes
  shorten after none = none
  shorten after (some ws) = elim (wide_to_extern lib enc (take (length ws - wchar_size) ws)) [
    | none ↦ none
    | some s ↦ some (s ++ after)
  ]

  pub is_empty : Option Bytes → Bool
  is_empty (some []) = true
  is_empty _ = false

  pub backspaces : ℕ → Bytes → Typed
  unfolding cut shorten is_empty
  backspaces zero s = endless
  backspaces (suc fuel) s = elim (cut 0x08 s) [
    | none ↦ line s
    | some (before, after) ↦ elim (is_empty (extern_to_wide lib enc before)) [
      | true ↦ undefined
      | false ↦ elim (shorten after (extern_to_wide lib enc before)) [
        | none ↦ endless
        | some t ↦ backspaces fuel t
      ]
    ]
  ]

  -- The text that blanks the line out is written without its last byte, a '\r'.
  pub take_line : Bytes → Input
  unfolding cut
  take_line s = elim (cut b'\n' s) [
    | none ↦ record { lastline = s; shown = redraw s; given = some [] }
    | some (before, after) ↦ record {
      lastline = after;
      shown = b'\r' ∷ blanks (length s);
      given = extern_to_utf8 lib enc (before ++ (b'\n' ∷ []));
    }
  ]

  -- `none` for what is undefined or endless.
  pub finish_typing : Typed → Option Input
  finish_typing (line s) = some (take_line s)
  finish_typing _ = none

  -- One call with the bytes `typed`.
  pub in_handler : Bytes → Bytes → Option Input
  unfolding backspaces take_line finish_typing
  in_handler lastline typed =
      let s = lastline ++ replace_cr typed in finish_typing (backspaces (length s + 1) s)

cut-none : (b : ℕ) (s : Bytes) → cut b s ≡ none → All (λ c. c ≢ b) s
unfolding cut
cut-none b [] h = tt
cut-none b (c ∷ s) h = ground (arith, cut-none b s)

cut-some : (b : ℕ) (s : Bytes) (p : Bytes × Bytes) → cut b s ≡ some p → s ≡ p.0 ++ (b ∷ p.1)
unfolding cut
cut-some b [] p h = cc
cut-some b (c ∷ s) p h = elim (Option-cases (cut b s)) [
  | inl e ↦ ground arith
  | inr (q, e) ↦ let same = cut-some b s q e in ground (arith, same)
]

cut_before : (b : ℕ) (s : Bytes) (p : Bytes × Bytes) → cut b s ≡ some p → All (λ c. c ≢ b) p.0
unfolding cut
cut_before b [] p h = cc
cut_before b (c ∷ s) p h = elim (Option-cases (cut b s)) [
  | inl e ↦ ground arith
  | inr (q, e) ↦ let rest = cut_before b s q e in ground (arith, rest)
]

add_one : (n : ℕ) → n + 1 ≡ suc n
add_one n = omega arith

module _ (lib : IconvLibrary) (enc : IoEncoding) where
  -- Text without a backspace is left as it is.
  backspaces-none : (f : ℕ) (s : Bytes) → cut 0x08 s ≡ none → backspaces lib enc (suc f) s ≡ line s
  unfolding backspaces
  backspaces-none f s h = rw (h, backspaces)

-- Typing in UTF-8 without a backspace loses and doubles no byte: what the program is given and
-- the line that stays are the line before and what was typed, its '\r's as '\n's; and what is given
-- ends with the only '\n' in it, or is empty, and then no '\n' stays.
pub in_handler_lem :
    (lib : IconvLibrary) (lastline typed : Bytes)
    → cut 0x08 (lastline ++ replace_cr typed) ≡ none
    → (i : Input) × (d : Bytes) × (in_handler lib enc_utf_8 lastline typed ≡ some i)
      × (i.given ≡ some d)
      × (d ++ i.lastline ≡ lastline ++ replace_cr typed)
      × (((x : Bytes) × (d ≡ x ++ (b'\n' ∷ [])) × All (λ c. c ≢ b'\n') x)
          ⊎ ((d ≡ []) × All (λ c. c ≢ b'\n') i.lastline))
unfolding in_handler take_line finish_typing extern_to_utf8
in_handler_lem lib lastline typed h =
    let s = lastline ++ replace_cr typed in
    let run : in_handler lib enc_utf_8 lastline typed ≡ some (take_line lib enc_utf_8 s) =
      ap (finish_typing lib enc_utf_8) (
        ap (λ n. backspaces lib enc_utf_8 n s) (add_one (length s))
        ∙ backspaces-none lib enc_utf_8 (length s) s h) in
    elim (Option-cases (cut b'\n' s)) [
      | inl e ↦ (
        take_line lib enc_utf_8 s,
        [],
        run,
        rw (e, take_line),
        rw (e, take_line),
        inr (refl, rw (e, take_line) (cut-none b'\n' s e)),
      )
      | inr (p, e) ↦ (
        take_line lib enc_utf_8 s,
        p.0 ++ (b'\n' ∷ []),
        run,
        rw (e, take_line),
        rw (e, take_line) (append_assoc p.0 (b'\n' ∷ []) p.1 ∙ sym (cut-some b'\n' s p e)),
        inl (p.0, refl, cut_before b'\n' s p e),
      )
    ]
