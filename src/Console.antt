-- ===== src/Console.antt =====
-- `output_handler_impl` of console.cc: the lines of the program above the line that is typed.
pub mod Newlines
pub mod Typing
use black_circle.Prelude.{
  ℕ, Bool, true, false, List, [], ◌∷◌, ◌++◌, Option, none, some, Bytes, codes, length, map, ◌==◌,
  if◌then◌else◌,
}
use black_circle.Conversion.{IoEncoding, IconvLibrary, utf8_to_extern}

-- The loop over `s[n]` of both handlers: a '\n' gets a '\r' before it, and what follows a '\r' is
-- passed over.
unfoldable pub return_lines : Bytes → Bytes
return_lines [] = []
return_lines (c ∷ []) = if c == b'\n' then b'\r' ∷ c ∷ [] else c ∷ []
return_lines (c ∷ x ∷ s) =
    let rest = return_lines (x ∷ s) in
    let skipped = return_lines s in
    if c == b'\n' then b'\r' ∷ c ∷ rest else if c == b'\r' then c ∷ x ∷ skipped else c ∷ rest

-- `string(n, ' ')`.
abbrev pub blanks : ℕ → Bytes
blanks Prim.Native.Nat.zero = []
blanks (Prim.Native.Nat.suc n) = b' ' ∷ blanks n

-- What `out_handler` writes for a line `s` of the program while `lastline` is typed; `none` is that
-- the conversion ran out of fuel.
pub out_handler : IconvLibrary → IoEncoding → Bytes → Bytes → Option Bytes
out_handler lib enc lastline s = elim (utf8_to_extern lib enc (return_lines s)) [
  | none ↦ none
  | some d ↦
      some (b'\r' ∷ (blanks (length lastline) ++ (b'\r' ∷ (d ++ (codes "\r\n" ++ lastline)))))
]

-- What `in_handler` writes when the typed line is not at its end.
pub redraw : Bytes → Bytes
unfolding return_lines
redraw lastline = return_lines (b'\r' ∷ (lastline ++ (codes "  \r" ++ lastline)))
