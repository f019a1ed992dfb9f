-- ===== src/Conversion/Ends.antt =====
-- The loops end, within the fuel that they are given.
use black_circle.Prelude.{
  ℕ, zero, suc, ◌+◌, ◌≤◌, ◌<◌, ◌≡◌, ◌≢◌, ◌⊎◌, refl, ap, ◌∙◌, arith, inl, inr, [], ◌∷◌, ◌++◌, Option,
  none, codes, false, some, Bytes, length, length-drop, length-append, Bool-cases,
}
use black_circle.Conversion.{
  Call, Iconv, buf_size, next_input, is_nil, wraps, IsOpened, unopened, descriptor, name_of,
  convert_loop, narrow_to_narrow, IconvLibrary, IoEncoding, enc_utf_8, enc_system, extern_to_wide,
  wide_to_extern, utf8_to_extern, extern_to_utf8,
}

Bytes-cases : (n : Bytes) → (n ≡ []) ⊎ (n ≢ [])
Bytes-cases [] = inl refl
Bytes-cases (c ∷ n) = inr (cc)

module _ (cd : Iconv) where
  open cd use {State, start, call, reads, done}

  rest_le : (st : State) (s : Bytes) → length (call st s buf_size).rest ≤ length s
  rest_le st s =
      let (read, e) = reads st s buf_size in
      omega (arith, ap (length {0}) e, length-append read (call st s buf_size).rest)

  pos_of_not_nil : (s : Bytes) → is_nil s ≡ false → 0 < length s
  pos_of_not_nil [] h = cc
  pos_of_not_nil (c ∷ s) h = omega arith

  -- A round that stays in the text.
  IsSound : State → Bytes → Type 0
  IsSound st s = wraps cd (call st s buf_size) ≡ false

  -- After such a round nothing is left, or less than before.
  next_input_shrinks :
      (st : State) (s : Bytes)
      → IsSound st s
      → next_input cd (call st s buf_size) ≢ []
      → length (next_input cd (call st s buf_size)) < length s
  unfolding IsSound
  next_input_shrinks st s sound ne = elim (Bool-cases (call st s buf_size).ok) [
    | inl ok ↦ absurd (ne (rw ok (done st s buf_size ok)))
    | inr bad ↦
        let left = (call st s buf_size).rest in
        let some_left : is_nil left ≡ false = ground arith in
        rw bad (omega (arith, length-drop 1 left, rest_le st s, pos_of_not_nil left some_left))
  ]

  after_empty :
      (n out : Bytes) (more : Option Bytes)
      → n ≡ []
      → elim n [ [] ↦ some out | _ ∷ _ ↦ more ] ≡ some out
  after_empty [] out more e = refl
  after_empty (c ∷ n) out more e = cc

  after_more :
      (n out : Bytes) (more : Option Bytes)
      → n ≢ []
      → elim n [ [] ↦ some out | _ ∷ _ ↦ more ] ≡ more
  after_more [] out more ne = absurd (ne refl)
  after_more (c ∷ n) out more ne = refl

  convert_loop_ends :
      (fuel : ℕ) (st : State) (s ret : Bytes)
      → ((st : State) (s : Bytes) → s ≢ [] → IsSound st s)
      → length s < fuel
      → IsSound st s
      → (r : Bytes) × (convert_loop cd fuel st s ret ≡ some r)
  unfolding convert_loop IsSound
  convert_loop_ends zero st s ret sound h k = absurd (omega arith)
  convert_loop_ends (suc f) st s ret sound h k =
      let c : Call State = call st s buf_size in
      let n = next_input cd c in
      let more = convert_loop cd f c.state n (ret ++ c.out) in
      rw k (elim (Bytes-cases n) [
        | inl e ↦ (ret ++ c.out, after_empty n (ret ++ c.out) more e)
        | inr ne ↦
            let (r, e) =
              convert_loop_ends f c.state n (ret ++ c.out) sound
                (omega (arith, next_input_shrinks st s k ne)) (sound c.state n ne) in
            (r, after_more n (ret ++ c.out) more ne ∙ e)
      ])

  opened-IsSound : IsOpened cd → (st : State) (s : Bytes) → IsSound st s
  unfolding IsSound
  opened-IsSound o st s = elim (Bool-cases (call st s buf_size).ok) [
    | inl ok ↦ rw ok refl
    | inr bad ↦ rw bad (not_nil (call st s buf_size).rest (o st s buf_size bad))
  ]
    where
      not_nil : (s : Bytes) → s ≢ [] → is_nil s ≡ false
      not_nil [] ne = absurd (ne refl)
      not_nil (c ∷ s) ne = refl

  -- On a descriptor that was opened, every text is converted.
  opened_ends : IsOpened cd → (s : Bytes) → (r : Bytes) × (narrow_to_narrow cd s ≡ some r)
  unfolding narrow_to_narrow
  opened_ends o s =
      convert_loop_ends (length s + 1) start s [] (λ st s ne. opened-IsSound o st s) (omega arith)
        (opened-IsSound o start s)

-- On one that was not, every text but the empty one.
unopened-IsSound : (st : Unit {0}) (s : Bytes) → s ≢ [] → IsSound unopened st s
unfolding IsSound
unopened-IsSound st [] ne = absurd (ne refl)
unopened-IsSound st (c ∷ s) ne = refl

unopened_ends : (s : Bytes) → s ≢ [] → (r : Bytes) × (narrow_to_narrow unopened s ≡ some r)
unfolding narrow_to_narrow
unopened_ends s ne =
    convert_loop_ends unopened (length s + 1) tt s [] unopened-IsSound (omega arith)
      (unopened-IsSound tt s ne)

abbrev pub Returns : Option Bytes → Type 0
Returns x = (r : Bytes) × (x ≡ some r)

module _ (lib : IconvLibrary) (to from : Bytes) where
  open lib use {iconv_open, opened}

  open_ends :
      (cd : Iconv)
      → iconv_open to from ≡ some cd
      → (s : Bytes) → Returns (narrow_to_narrow (descriptor (iconv_open to from)) s)
  open_ends cd e s = rw e (opened_ends cd (opened to from cd e) s)

  some_ends : (s : Bytes) → s ≢ [] → Returns (narrow_to_narrow (descriptor (iconv_open to from)) s)
  some_ends s ne = go (iconv_open to from) refl
    where
      go : (o : Option Iconv) → iconv_open to from ≡ o → Returns (narrow_to_narrow (descriptor o) s)
      go none e = unopened_ends s ne
      go (some cd) e = opened_ends cd (opened to from cd e) s

  none_leaves :
      iconv_open to from ≡ none → narrow_to_narrow (descriptor (iconv_open to from)) [] ≡ none
  unfolding narrow_to_narrow convert_loop
  none_leaves e = rw e refl

-- What a conversion does that goes through a wide text: it returns on a text that is not empty, and
-- on every text if its descriptor was opened; on the empty text with one that was not, it does not.
abbrev pub Converts : Option Iconv → (Bytes → Option Bytes) → Type 1
Converts o convert =
    ((s : Bytes) → s ≢ [] → Returns (convert s))
    × ((cd : Iconv) → o ≡ some cd → (s : Bytes) → Returns (convert s))
    × (o ≡ none → convert [] ≡ none)

-- Whatever iconv makes of the input, of any encoding and length: a conversion between the narrow
-- encodings returns a text, whether its descriptor was opened or not; one from or to wide characters
-- returns one if its text is not empty or its descriptor was opened. If `iconv_open` failed it
-- leaves the empty text, behind whose end the count of the bytes left wraps round.
pub conversions_end :
    (lib : IconvLibrary) (coding : IoEncoding) (s : Bytes)
    → Converts (lib.iconv_open (codes "wchar_t") (name_of coding)) (extern_to_wide lib coding)
      × Converts (lib.iconv_open (name_of coding) (codes "wchar_t")) (wide_to_extern lib coding)
      × Returns (utf8_to_extern lib coding s)
      × Returns (extern_to_utf8 lib coding s)
unfolding extern_to_wide wide_to_extern utf8_to_extern extern_to_utf8
conversions_end lib coding s = (converts _ _, converts _ _, to_extern coding s, to_utf8 coding s)
  where
    converts :
        (to from : Bytes)
        → Converts
            (lib.iconv_open to from)
            (λ s. narrow_to_narrow (descriptor (lib.iconv_open to from)) s)
    converts to from = (some_ends lib to from, open_ends lib to from, none_leaves lib to from)

    to_extern : (coding : IoEncoding) (s : Bytes) → Returns (utf8_to_extern lib coding s)
    to_extern enc_utf_8 s = (s, refl)
    to_extern enc_system [] = ([], refl)
    to_extern enc_system (c ∷ s) = some_ends lib [] (codes "UTF-8") (c ∷ s) (cc)

    to_utf8 : (coding : IoEncoding) (s : Bytes) → Returns (extern_to_utf8 lib coding s)
    to_utf8 enc_utf_8 s = (s, refl)
    to_utf8 enc_system [] = ([], refl)
    to_utf8 enc_system (c ∷ s) = some_ends lib (codes "UTF-8") [] (c ∷ s) (cc)
