-- ===== src/Conversion/Skips.antt =====
-- What the `if (r<0)` does when the buffer is full: iconv then reports an error too (E2BIG), and the
-- loop takes the byte that comes next for a bad one.
use black_circle.Prelude.{
  ℕ, zero, suc, ◌+◌, ◌/◌, ◌≤◌, ◌<◌, false, ◌≡◌, ◌≢◌, refl, sym, ap, ◌∙◌, arith, inl, inr, [], ◌∷◌,
  ◌++◌, some, Bytes, length, drop, take, leb, length-drop, length-append, length-take_le, leb→le,
  take-append-drop, append_assoc, Bool-cases, ◌⊎◌,
}
use black_circle.Conversion.{
  Call, Iconv, next_input, is_nil, wraps, IsOpened, convert_loop, narrow_to_narrow,
}

-- The conversion of a byte encoding to itself: as many bytes as there is room for are copied, and
-- the call fails if some are left.
abbrev copy_call : Unit {0} → Bytes → ℕ → Call (Unit {0})
copy_call st s room = record {
  ok = leb (length s) room;
  rest = drop room s;
  out = take room s;
  state = st;
}

pub drop_all : (n : ℕ) (s : Bytes) → length s ≤ n → drop n s ≡ []
drop_all zero [] h = refl
drop_all zero (c ∷ s) h = absurd (omega arith)
drop_all (suc n) [] h = refl
drop_all (suc n) (c ∷ s) h = drop_all n s (omega arith)

take_all : (n : ℕ) (s : Bytes) → length s ≤ n → take n s ≡ s
take_all zero [] h = refl
take_all zero (c ∷ s) h = absurd (omega arith)
take_all (suc n) [] h = refl
take_all (suc n) (c ∷ s) h = ap (◌∷◌ c) (take_all n s (omega arith))

length-take_lt : (n : ℕ) (s : Bytes) → n ≤ length s → length (take n s) ≡ n
length-take_lt zero s h = refl
length-take_lt (suc n) [] h = absurd (omega arith)
length-take_lt (suc n) (c ∷ s) h = ap suc (length-take_lt n s (omega arith))

pub copy_reads : (s : Bytes) (room : ℕ) → (read : Bytes) × (s ≡ read ++ drop room s)
copy_reads s room = (take room s, sym (take-append-drop room s))

pub copy_stuck : (s : Bytes) (room : ℕ) → leb (length s) room ≡ false → drop room s ≢ []
copy_stuck s room h e = absurd (ground (arith, length-drop room s, ap (length {0}) e))

abbrev pub copying : Iconv
copying = record {
  State = Unit {0};
  start = tt;
  call = copy_call;
  reads = λ st s room. copy_reads s room;
  fits = λ st s room. length-take_le room s;
  done = λ st s room h. drop_all room s (leb→le (length s) room h);
}

pub copying-IsOpened : IsOpened copying
copying-IsOpened = λ st s room h. copy_stuck s room h

-- A call that fails leaves a byte.
copy_wraps : (s : Bytes) (room : ℕ) → wraps copying (copy_call tt s room) ≡ false
copy_wraps s room = elim (Bool-cases (leb (length s) room)) [
  | inl ok ↦ rw ok refl
  | inr bad ↦ rw bad (not_nil (drop room s) (copy_stuck s room bad))
]
  where
    not_nil : (s : Bytes) → s ≢ [] → is_nil s ≡ false
    not_nil [] ne = absurd (ne refl)
    not_nil (c ∷ s) ne = refl

-- What is kept of a text: of each 1025 bytes the last is lost.
abbrev Kept : Bytes → Bytes → Type 0
Kept s r = length r + length s / 1025 ≡ length s

short_copy :
    (f : ℕ) (s ret : Bytes)
    → length s ≤ 1024
    → convert_loop copying (suc f) tt s ret ≡ some (ret ++ s)
unfolding convert_loop
short_copy f s ret h = ground (arith, copy_wraps s 1024, drop_all 1024 s h, take_all 1024 s h)

next_long :
    (s : Bytes)
    → leb (length s) 1024 ≡ false
    → next_input copying (copy_call tt s 1024) ≡ drop 1 (drop 1024 s)
next_long s full = rw full

-- A round that ends the loop, and one that does not.
loop_ends :
    (f : ℕ) (s ret : Bytes)
    → next_input copying (copy_call tt s 1024) ≡ []
    → convert_loop copying (suc f) tt s ret ≡ some (ret ++ take 1024 s)
unfolding convert_loop
loop_ends f s ret e = rw (copy_wraps s 1024) (rw e refl)

loop_goes_on :
    (f : ℕ) (s ret n : Bytes)
    → next_input copying (copy_call tt s 1024) ≡ n
    → n ≢ []
    → convert_loop copying (suc f) tt s ret ≡ convert_loop copying f tt n (ret ++ take 1024 s)
unfolding convert_loop
loop_goes_on f s ret [] e ne = absurd (ne refl)
loop_goes_on f s ret (c ∷ n) e ne =
    rw (copy_wraps s 1024) (rw e (ap (λ x. convert_loop copying f tt x (ret ++ take 1024 s)) e))

-- The length tells an empty text.
length_zero : (s : Bytes) → length s ≡ 0 → s ≡ []
length_zero [] h = refl
length_zero (c ∷ s) h = absurd (omega arith)

zero_or_more : (s : Bytes) → (length s ≡ 0) ⊎ (0 < length s)
zero_or_more [] = inl refl
zero_or_more (c ∷ s) = inr (omega arith)

-- A round on a long text that leaves nothing, and one that leaves something.
module _ (f : ℕ) (s ret : Bytes) (gt : 1024 < length s) where
  abbrev left : Bytes
  left = drop 1 (drop 1024 s)

  length-left : length left + 1025 ≡ length s
  length-left = omega (arith, length-drop 1024 s, length-drop 1 (drop 1024 s))

  module _ (full : leb (length s) 1024 ≡ false) where
    long_last :
        length left ≡ 0
        → (r : Bytes) × (convert_loop copying (suc f) tt s ret ≡ some (ret ++ r)) × Kept s r
    long_last e = (
      take 1024 s,
      loop_ends f s ret (next_long s full ∙ length_zero left e),
      omega (arith, length-left, length-take_lt 1024 s (omega arith)),
    )

    long_more :
        0 < length left
        → ((r : Bytes) × (convert_loop copying f tt left (ret ++ take 1024 s)
              ≡ some ((ret ++ take 1024 s) ++ r))
            × Kept left r)
        → (r : Bytes) × (convert_loop copying (suc f) tt s ret ≡ some (ret ++ r)) × Kept s r
    long_more pos (r, e, k) = (
      take 1024 s ++ r,
      loop_goes_on f s ret left (next_long s full) (λ z. ground (arith, ap (length {0}) z))
          ∙ e
          ∙ ap some (append_assoc ret (take 1024 s) r),
      omega (
        arith,
        k,
        length-left,
        length-take_lt 1024 s (omega arith),
        length-append (take 1024 s) r,
      ),
    )

copy_keeps :
    (f : ℕ) (s ret : Bytes)
    → length s < f
    → (r : Bytes) × (convert_loop copying f tt s ret ≡ some (ret ++ r)) × Kept s r
copy_keeps zero s ret h = absurd (omega arith)
copy_keeps (suc f) s ret h = elim (Bool-cases (leb (length s) 1024)) [
  | inl fits ↦ let le = leb→le (length s) 1024 fits in (s, short_copy f s ret le, omega arith)
  | inr full ↦
      let gt : 1024 < length s = ground arith in
      let size = length-left f s ret gt in
      let rest = copy_keeps f (drop 1 (drop 1024 s)) (ret ++ take 1024 s) (omega arith) in
      elim (zero_or_more (left f s ret gt)) [
        | inl e ↦ long_last f s ret gt full e
        | inr pos ↦ long_more f s ret gt full pos rest
      ]
]

-- Where the encoding of the locale is the one of the text, so that iconv copies bytes: a text of up
-- to 1024 bytes is kept, and of a longer one the program loses a byte of each 1025.
pub narrow_to_narrow-copying :
    (s : Bytes)
    → (r : Bytes) × (narrow_to_narrow copying s ≡ some r)
      × (length r + length s / 1025 ≡ length s)
      × (length s ≤ 1024 → r ≡ s)
unfolding narrow_to_narrow
narrow_to_narrow-copying s = elim (Bool-cases (leb (length s) 1024)) [
  | inl fits ↦
      let le = leb→le (length s) 1024 fits in
      let fuel : length s + 1 ≡ suc (length s) = omega arith in
      (s, rw fuel (short_copy (length s) s [] le), omega arith, λ _. refl)
  | inr full ↦
      let (r, e, k) = copy_keeps (length s + 1) s [] (omega arith) in
      (r, e, k, λ le. absurd (ground arith))
]
