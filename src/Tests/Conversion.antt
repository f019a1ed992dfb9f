-- ===== src/Tests/Conversion.antt =====
-- Conversions with a library that copies bytes.
use mathlib.Core.Option.{some-injective}
use black_circle.Prelude.{
  arith, ℕ, ◌+◌, ◌≤◌, ◌/◌, ◌≡◌, subst, [], ◌∷◌, some, Bytes, length, codes, List, ◌≢◌, refl,
}
use black_circle.Conversion.{
  IconvLibrary, IsOpened, enc_system, extern_to_wide, wide_to_extern, utf8_to_extern,
  extern_to_utf8, narrow_to_narrow,
}
use black_circle.Conversion.Ends.{Converts, Returns, conversions_end}
use black_circle.Conversion.Windows
use black_circle.Conversion.Windows.{WindowsApi, extern_to_utf8-utf8_to_extern}
use black_circle.Conversion.Skips.{copying, copying-IsOpened, narrow_to_narrow-copying}

abbrev copies : IconvLibrary
copies = record {
  iconv_open = λ to from. some copying;
  opened = λ to from cd e. subst IsOpened (some-injective _ _ e) copying-IsOpened;
}

conversions_end_example :
    Converts (some copying) (extern_to_wide copies enc_system)
    × Converts (some copying) (wide_to_extern copies enc_system)
    × Returns (utf8_to_extern copies enc_system (codes "ab"))
    × Returns (extern_to_utf8 copies enc_system (codes "ab"))
conversions_end_example = conversions_end copies enc_system (codes "ab")

-- A text of `n` bytes.
abbrev dots : ℕ → Bytes
dots Prim.Native.Nat.zero = []
dots (Prim.Native.Nat.suc n) = b'.' ∷ dots n

narrow_to_narrow-copying_example :
    (r : Bytes) × (narrow_to_narrow copying (dots 1100) ≡ some r)
    × (length r + length (dots 1100) / 1025 ≡ length (dots 1100))
    × (length (dots 1100) ≤ 1024 → r ≡ dots 1100)
narrow_to_narrow-copying_example = narrow_to_narrow-copying (dots 1100)

-- A code page in which each byte is a character.
abbrev copied : List ℕ → ℕ → ℕ × List ℕ
copied s Prim.Native.Nat.zero = (length s, [])
copied s (Prim.Native.Nat.suc n) = (length s, s)

copied_text : (s : List ℕ) → s ≢ [] → (copied s (length s)).1 ≡ s
copied_text [] h = refl
copied_text (c ∷ s) h = refl

abbrev latin : WindowsApi
latin = record {
  multi_byte_to_wide_char = λ p s n. copied s n;
  wide_char_to_multi_byte = λ p w n. copied w n;
  wide = λ p s. s;
  narrow = λ p w. w;
  wide_size = λ p s h k. refl;
  wide_text = λ p s h k ne. copied_text s ne;
  narrow_size = λ p w h k. refl;
  narrow_text = λ p w h k ne. copied_text w ne;
  wide_nil = λ p. refl;
  narrow_nil = λ p. refl;
}

extern_to_utf8-utf8_to_extern_example :
    (Windows.utf8_to_extern latin enc_system (codes "ab") ≡ codes "ab")
    × (Windows.extern_to_utf8 latin enc_system
          (Windows.utf8_to_extern latin enc_system (codes "ab"))
        ≡ codes "ab")
extern_to_utf8-utf8_to_extern_example =
    extern_to_utf8-utf8_to_extern latin enc_system (codes "ab") (omega arith) (omega arith)
      (omega arith) refl refl
