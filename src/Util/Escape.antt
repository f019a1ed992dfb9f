-- ===== src/Util/Escape.antt =====
-- `isalnum`, `do_escape` and `url_escape` of util.hpp; what they guarantee is in Decode.
pub mod Decode
use black_circle.Prelude.{
  ℕ, Bool, ◌&&◌, ◌||◌, [], ◌∷◌, ◌++◌, foldl, Bytes, codes, leb, ◌==◌, if◌then◌else◌,
}
use black_circle.Util.Hex.{hexanizer}

-- `detail::isalnum`. A `char` above 127 is negative as an `int`, and is in no range either way.
abbrev isalnum : ℕ → Bool
isalnum c = (leb b'0' c && leb c b'9') || (leb b'a' c && leb c b'z') || (leb b'A' c && leb c b'Z')

-- `do_escape::operator ()`, with its member `hexz("%")`.
unfoldable pub do_escape : Bytes → ℕ → Bytes
do_escape str c =
    if isalnum c || c == b'-' || c == b'.' || c == b'_' || c == b'~'
    then str ++ c ∷ []
    else hexanizer (codes "%") str c

-- `boost::accumulate(s, string(), do_escape())`.
unfoldable pub url_escape : Bytes → Bytes
unfolding do_escape
url_escape s = foldl do_escape [] s
