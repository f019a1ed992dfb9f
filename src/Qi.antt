-- ===== src/Qi.antt =====
-- What the program uses of Boost.Spirit.Qi: parsers over bytes, as an interface with what its
-- documentation says of each. The grammars of http_client_inst.cc are terms of this interface.
pub mod Recursive
pub mod Rules
use black_circle.Prelude.{
  ℕ, ◌+◌, ◌-◌, ◌*◌, ◌^◌, ◌≤◌, ◌<◌, Bool, true, false, ◌||◌, ◌&&◌, ◌≡◌, ◌≢◌, ◌⊎◌, List, [], ◌∷◌,
  ◌++◌, foldl, Bytes, All, length, leb, ◌==◌, if◌then◌else◌,
}
use black_circle.Prelude.Int.{ℤ, pos}

-- The result of a parser on a text: the attribute and the rest; no match; or an
-- `expectation_failure`.
pub data Parsed (A : Type 0) : Type 0 where
  matched : A → Bytes → Parsed A
  failed threw : Parsed A

-- The text behind a prefix.
unfoldable pub strip : Bytes → Bytes → Parsed (Unit {0})
strip [] s = matched tt s
strip (c ∷ w) [] = failed
strip (c ∷ w) (d ∷ s) = let rest = strip w s in if c == d then rest else failed

-- Whether a byte is one of a list.
abbrev pub is_one_of : Bytes → ℕ → Bool
is_one_of [] c = false
is_one_of (d ∷ cs) c = c == d || is_one_of cs c

-- The bytes before the first that is one of `cs`, and the rest.
unfoldable pub span : Bytes → Bytes → Bytes × Bytes
span cs [] = ([], [])
span cs (c ∷ s) =
    let rest = span cs s in if is_one_of cs c then ([], c ∷ s) else (c ∷ rest.0, rest.1)

-- At least one byte.
abbrev pub some_of : Bytes × Bytes → Parsed Bytes
some_of ([], s) = failed
some_of (c ∷ w, s) = matched (c ∷ w) s

-- A second parser behind a first; `f` is what its failure amounts to.
abbrev pub pair_with : {A B : Type 0} → Parsed (A × B) → A → Parsed B → Parsed (A × B)
pair_with f x (matched y t) = matched (x, y) t
pair_with f x failed = f
pair_with f x threw = threw

abbrev pub behind : {A B : Type 0} → Parsed (A × B) → Parsed A → (Bytes → Parsed B) → Parsed (A × B)
behind f (matched x t) k = pair_with f x (k t)
behind f failed k = failed
behind f threw k = threw

abbrev pub prepend : {A : Type 0} → A → Parsed (List A) → Parsed (List A)
prepend x (matched xs t) = matched (x ∷ xs) t
prepend x failed = failed
prepend x threw = threw

-- Numbers in decimal and in hexadecimal.
abbrev pub IsDigit : ℕ → Type 0
IsDigit c = (b'0' ≤ c) × (c ≤ b'9')

abbrev pub IsHexDigit : ℕ → Type 0
IsHexDigit c = IsDigit c ⊎ (((b'A' ≤ c) × (c ≤ b'F')) ⊎ ((b'a' ≤ c) × (c ≤ b'f')))

abbrev pub digit_value : ℕ → ℕ
digit_value c = if leb c b'9' then c - b'0' else if leb c b'F' then c - 55 else c - 87

abbrev pub number : ℕ → Bytes → ℕ
number base w = foldl (λ n c. n * base + digit_value c) 0 w

-- The next byte, if there is one, is not of a kind.
abbrev pub Stops : (ℕ → Type 0) → Bytes → Type 0
Stops P [] = Unit
Stops P (c ∷ s) = ¬ P c

pub record Qi : Type 1 where
  pub Rule : Type 0 → Type 0
  -- `qi::parse`, without its iterators.
  pub run : {A : Type 0} → Rule A → Bytes → Parsed A
  -- A literal; `+(char_ - c - …)` and `*(char_ - c - …)`; `digit`, `int_` and `hex`.
  pub lit : Bytes → Rule (Unit {0})
  pub some_but : Bytes → Rule Bytes
  pub many_but : Bytes → Rule Bytes
  pub digit : Rule ℕ
  pub int : Rule ℤ
  pub hex : Rule ℕ
  -- `a >> b`, `a > b` and `*a`.
  pub seq : {A B : Type 0} → Rule A → Rule B → Rule (A × B)
  pub expect : {A B : Type 0} → Rule A → Rule B → Rule (A × B)
  pub many : {A : Type 0} → Rule A → Rule (List A)
  pub run-lit : (w s : Bytes) → run (lit w) s ≡ strip w s
  pub run-some_but : (cs s : Bytes) → run (some_but cs) s ≡ some_of (span cs s)
  pub run-many_but : (cs s : Bytes) → run (many_but cs) s ≡ matched (span cs s).0 (span cs s).1
  pub run-digit : (c : ℕ) (s : Bytes) → IsDigit c → run digit (c ∷ s) ≡ matched c s
  -- The longest number, if it fits into an `int`, and into an `unsigned`.
  pub run-int :
      (w s : Bytes)
      → w ≢ []
      → All IsDigit w
      → Stops IsDigit s
      → number 10 w < 2 ^ 31
      → run int (w ++ s) ≡ matched (pos (number 10 w)) s
  pub run-hex :
      (w s : Bytes)
      → w ≢ []
      → All IsHexDigit w
      → Stops IsHexDigit s
      → number 16 w < 2 ^ 32
      → run hex (w ++ s) ≡ matched (number 16 w) s
  pub run-seq :
      {A B : Type 0} (a : Rule A) (b : Rule B) (s : Bytes)
      → run (seq a b) s ≡ behind failed (run a s) (run b)
  pub run-expect :
      {A B : Type 0} (a : Rule A) (b : Rule B) (s : Bytes)
      → run (expect a b) s ≡ behind threw (run a s) (run b)
  -- A round of `*a`: at the end, and on a match that reads something.
  pub run-many-failed :
      {A : Type 0} (a : Rule A) (s : Bytes) → run a s ≡ failed → run (many a) s ≡ matched [] s
  pub run-many-matched :
      {A : Type 0} (a : Rule A) (s t : Bytes) (x : A)
      → run a s ≡ matched x t
      → length t < length s
      → run (many a) s ≡ prepend x (run (many a) t)
