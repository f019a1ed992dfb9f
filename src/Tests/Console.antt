-- ===== src/Tests/Console.antt =====
-- A line of the program, and typing.
use mathlib.Core.Option.{some-injective}
use black_circle.Prelude.{◌≡◌, subst, ◌≢◌, refl, [], ◌∷◌, ◌++◌, ◌⊎◌, All, false, some, Bytes, codes}
use black_circle.Conversion.{IconvLibrary, IsOpened, enc_utf_8}
use black_circle.Conversion.Skips.{copying, copying-IsOpened}
use black_circle.Console.{blanks, out_handler, return_lines}
use black_circle.Console.Newlines.{Returns, IsReturned, out_handler_lem}
use black_circle.Console.Typing.{cut, in_handler, Input, in_handler_lem}

abbrev copies : IconvLibrary
copies = record {
  iconv_open = λ to from. some copying;
  opened = λ to from cd e. subst IsOpened (some-injective _ _ e) copying-IsOpened;
}

return_lines_run : return_lines (codes "a\nb\r\n") ≡ codes "a\r\nb\r\n"
unfolding return_lines
return_lines_run = refl

out_handler_lem_example :
    (d : Bytes) × (out_handler copies enc_utf_8 (codes "po") (codes "a\nb")
      ≡ some (b'\r' ∷ (blanks 2 ++ (b'\r' ∷ (d ++ (codes "\r\n" ++ codes "po"))))))
    × Returns (codes "a\nb") d
    × IsReturned false d
out_handler_lem_example = out_handler_lem copies (codes "po") (codes "a\nb")

in_handler_lem_example :
    (i : Input) × (d : Bytes) × (in_handler copies enc_utf_8 (codes "ge") (codes "t\rx") ≡ some i)
    × (i.given ≡ some d)
    × (d ++ i.lastline ≡ codes "get\nx")
    × (((x : Bytes) × (d ≡ x ++ (b'\n' ∷ [])) × All (λ c. c ≢ b'\n') x)
        ⊎ ((d ≡ []) × All (λ c. c ≢ b'\n') i.lastline))
unfolding cut
in_handler_lem_example = in_handler_lem copies (codes "ge") (codes "t\rx") refl
