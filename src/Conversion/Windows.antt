-- ===== src/Conversion/Windows.antt =====
-- conversion.cc where Windows does the work: each call asks for the size first, and then fills a buffer
-- of that size.
use black_circle.Prelude.{
  ℕ, zero, suc, ◌^◌, ◌<◌, ◌≡◌, ◌≢◌, refl, sym, ap, subst, ◌∙◌, Bool, true, false, List, [], ◌∷◌,
  ◌++◌, Bytes, length, drop, append-nil, if◌then◌else◌,
}
use black_circle.Conversion.{IoEncoding, enc_utf_8, enc_system}

-- `CP_UTF8` and `CP_ACP`.
pub data CodePage : Type 0 where
  cp_utf8 cp_acp : CodePage

-- The two functions of Windows: with the size of the buffer (0 to ask for it), the count that they return
-- and what they write; and `wide` and `narrow`, what a text is in the other form. The sizes are of type
-- `int`, so these hold below 2^31.
pub record WindowsApi : Type 0 where
  pub multi_byte_to_wide_char : CodePage → Bytes → ℕ → ℕ × List ℕ
  pub wide_char_to_multi_byte : CodePage → List ℕ → ℕ → ℕ × Bytes
  pub wide : CodePage → Bytes → List ℕ
  pub narrow : CodePage → List ℕ → Bytes
  -- "If this value is 0, the function returns the required buffer size"; otherwise "the number of
  -- characters written to the buffer".
  pub wide_size :
      (p : CodePage) (s : Bytes)
      → length s < 2 ^ 31
      → length (wide p s) < 2 ^ 31
      → (multi_byte_to_wide_char p s 0).0 ≡ length (wide p s)
  pub wide_text :
      (p : CodePage) (s : Bytes)
      → length s < 2 ^ 31
      → length (wide p s) < 2 ^ 31
      → wide p s ≢ []
      → (multi_byte_to_wide_char p s (length (wide p s))).1 ≡ wide p s
  pub narrow_size :
      (p : CodePage) (w : List ℕ)
      → length w < 2 ^ 31
      → length (narrow p w) < 2 ^ 31
      → (wide_char_to_multi_byte p w 0).0 ≡ length (narrow p w)
  pub narrow_text :
      (p : CodePage) (w : List ℕ)
      → length w < 2 ^ 31
      → length (narrow p w) < 2 ^ 31
      → narrow p w ≢ []
      → (wide_char_to_multi_byte p w (length (narrow p w))).1 ≡ narrow p w
  pub wide_nil : (p : CodePage) → wide p [] ≡ []
  pub narrow_nil : (p : CodePage) → narrow p [] ≡ []

-- `vector<T> w(n)`.
abbrev pub zeros : ℕ → List ℕ
zeros zero = []
zeros (suc n) = 0 ∷ zeros n

-- A buffer, of which the front is written.
abbrev pub written : List ℕ → List ℕ → List ℕ
written buffer x = x ++ drop (length x) buffer

-- The rest of a conversion, with the buffer, whose second call is `fill`.
pub filled : List ℕ → (ℕ → ℕ × List ℕ) → List ℕ
filled [] fill = []
filled (c ∷ buffer) fill = written (c ∷ buffer) (fill (length (c ∷ buffer))).1

-- `coding == enc_utf_8 ? CP_UTF8 : CP_ACP`.
abbrev pub page_of : IoEncoding → CodePage
page_of enc_utf_8 = cp_utf8
page_of enc_system = cp_acp

-- `coding == enc_utf_8 || seq.empty()`.
abbrev pub unchanged : IoEncoding → Bytes → Bool
unchanged enc_utf_8 s = true
unchanged enc_system [] = true
unchanged enc_system (c ∷ s) = false

module _ (api : WindowsApi) where
  open api use {multi_byte_to_wide_char, wide_char_to_multi_byte, wide, narrow}

  unfoldable pub extern_to_wide : IoEncoding → Bytes → List ℕ
  unfolding filled
  extern_to_wide coding s =
      filled (zeros (multi_byte_to_wide_char (page_of coding) s 0).0)
        (multi_byte_to_wide_char (page_of coding) s)

  unfoldable pub wide_to_extern : IoEncoding → List ℕ → Bytes
  unfolding filled
  wide_to_extern coding w =
      filled (zeros (wide_char_to_multi_byte (page_of coding) w 0).0)
        (wide_char_to_multi_byte (page_of coding) w)

  unfoldable pub utf8_to_extern : IoEncoding → Bytes → Bytes
  unfolding extern_to_wide wide_to_extern
  utf8_to_extern coding s =
      if unchanged coding s then s else wide_to_extern coding (extern_to_wide enc_utf_8 s)

  unfoldable pub extern_to_utf8 : IoEncoding → Bytes → Bytes
  unfolding extern_to_wide wide_to_extern
  extern_to_utf8 coding s =
      if unchanged coding s then s else wide_to_extern enc_utf_8 (extern_to_wide coding s)

length-zeros : (n : ℕ) → length (zeros n) ≡ n
length-zeros zero = refl
length-zeros (suc n) = ap suc (length-zeros n)

drop_all : (n : ℕ) → drop n (zeros n) ≡ []
drop_all zero = refl
drop_all (suc n) = drop_all n

-- A buffer of the size that is needed is filled wholly.
filled_lem :
    (x : List ℕ) (fill : ℕ → ℕ × List ℕ)
    → (x ≢ [] → (fill (length x)).1 ≡ x)
    → filled (zeros (length x)) fill ≡ x
unfolding filled
filled_lem [] fill h = refl
filled_lem (c ∷ x) fill h =
    rw (length-zeros (length x), h (λ z. cc))
      (ap (λ y. (c ∷ x) ++ y) (drop_all (length x)) ∙ append-nil (c ∷ x))

module _ (api : WindowsApi) where
  open api use {wide, narrow}

  extern_to_wide_lem :
      (coding : IoEncoding) (s : Bytes)
      → length s < 2 ^ 31
      → length (wide (page_of coding) s) < 2 ^ 31
      → extern_to_wide api coding s ≡ wide (page_of coding) s
  unfolding extern_to_wide
  extern_to_wide_lem coding s h k =
      let p = page_of coding in
      rw (api.wide_size p s h k)
        (filled_lem (wide p s) (api.multi_byte_to_wide_char p s) (api.wide_text p s h k))

  wide_to_extern_lem :
      (coding : IoEncoding) (w : List ℕ)
      → length w < 2 ^ 31
      → length (narrow (page_of coding) w) < 2 ^ 31
      → wide_to_extern api coding w ≡ narrow (page_of coding) w
  unfolding wide_to_extern
  wide_to_extern_lem coding w h k =
      let p = page_of coding in
      rw (api.narrow_size p w h k)
        (filled_lem (narrow p w) (api.wide_char_to_multi_byte p w) (api.narrow_text p w h k))

  -- A text that is converted both ways, by what it is in the code page.
  there_and_back :
      (c : ℕ) (s e : Bytes)
      → narrow cp_acp (wide cp_utf8 (c ∷ s)) ≡ e
      → length e < 2 ^ 31
      → length (c ∷ s) < 2 ^ 31
      → length (wide cp_utf8 (c ∷ s)) < 2 ^ 31
      → wide cp_acp e ≡ wide cp_utf8 (c ∷ s)
      → narrow cp_utf8 (wide cp_utf8 (c ∷ s)) ≡ c ∷ s
      → extern_to_utf8 api enc_system e ≡ c ∷ s
  unfolding extern_to_utf8
  there_and_back c s [] f he hs hw kept back =
      sym (api.narrow_nil cp_utf8) ∙ ap (narrow cp_utf8) (sym (api.wide_nil cp_acp) ∙ kept) ∙ back
  there_and_back c s (d ∷ e) f he hs hw kept back =
      ap (wide_to_extern api enc_utf_8) (
        extern_to_wide_lem enc_system (d ∷ e) he (subst (λ w. length w < 2 ^ 31) (sym kept) hw)
        ∙ kept)
      ∙ wide_to_extern_lem enc_utf_8 (wide cp_utf8 (c ∷ s)) hw
          (subst (λ t. length t < 2 ^ 31) (sym back) hs)
      ∙ back

  -- Texts that are shorter than 2^31 in each form: `utf8_to_extern` gives the whole text in the code page,
  -- no byte more or less, and `extern_to_utf8` of it is the text again, if the page has all of its
  -- characters and the text is valid UTF-8.
  pub extern_to_utf8-utf8_to_extern :
      (coding : IoEncoding) (s : Bytes)
      → length s < 2 ^ 31
      → length (wide cp_utf8 s) < 2 ^ 31
      → length (narrow cp_acp (wide cp_utf8 s)) < 2 ^ 31
      → wide cp_acp (narrow cp_acp (wide cp_utf8 s)) ≡ wide cp_utf8 s
      → narrow cp_utf8 (wide cp_utf8 s) ≡ s
      → (utf8_to_extern api coding s
          ≡ (if unchanged coding s then s else narrow cp_acp (wide cp_utf8 s)))
        × (extern_to_utf8 api coding (utf8_to_extern api coding s) ≡ s)
  unfolding utf8_to_extern
  extern_to_utf8-utf8_to_extern enc_utf_8 s hs hw he kept back =
      (refl, unfold extern_to_utf8 in refl)
  extern_to_utf8-utf8_to_extern enc_system [] hs hw he kept back =
      (refl, unfold extern_to_utf8 in refl)
  extern_to_utf8-utf8_to_extern enc_system (c ∷ s) hs hw he kept back =
      let there =
        ap (wide_to_extern api enc_system) (extern_to_wide_lem enc_utf_8 (c ∷ s) hs hw)
        ∙ wide_to_extern_lem enc_system (wide cp_utf8 (c ∷ s)) hw he in
      (
        there,
        ap (extern_to_utf8 api enc_system) there
            ∙ there_and_back c s (narrow cp_acp (wide cp_utf8 (c ∷ s))) refl he hs hw kept back,
      )
