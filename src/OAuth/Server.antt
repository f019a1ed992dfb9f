-- ===== src/OAuth/Server.antt =====
-- The server of the OAuth core, 1.0a: what it makes of the parameters of a request. It shares
-- no definition with `token_requester` but the order of texts and the look-up of a key.
use black_circle.Prelude.{
  ℕ, ◌^◌, ◌<◌, append-nil, append_assoc, all_below, all_below_sound, All, ◌/◌, ◌%◌, Bool, true,
  false, ◌&&◌, ◌||◌, [], ◌∷◌, ◌++◌, none, some, ◌≡◌, ◌∙◌, refl, sym, ap, arith, Bytes, codes,
  bytes_eq, bytes_lt, bytes_eq_iff, bytes_eq_refl, bytes_lt_irrefl, bytes_lt_trans,
  bytes_trichotomy, leb, ltb, ◌==◌, if◌then◌else◌, ◌+◌,
}
use black_circle.Prelude.Bits.{and_15}
use black_circle.Util.Base64.{base64_encode}
use black_circle.Util.Hex.{hex_digit, hexanizer}
use black_circle.Util.Escape.{do_escape, url_escape}
use black_circle.Util.Escape.Decode.{escaped_byte, url_escape-cons, url_escape-nil}
use black_circle.StringMap.{StringMap, find, erase, assign, IsSorted}
use black_circle.OAuth.Query.{tail_of, make_request-cons}
use black_circle.OAuth.{Crypto, make_request, combine_as_get_param, base_string}

-- The unreserved characters of section 5.1.
abbrev pub is_unreserved : ℕ → Bool
is_unreserved c =
    (leb 48 c && leb c 57)
    || (leb 65 c && leb c 90)
    || (leb 97 c && leb c 122)
    || c == 45
    || c == 46
    || c == 95
    || c == 126

abbrev pub all_unreserved : Bytes → Bool
all_unreserved [] = true
all_unreserved (c ∷ s) = is_unreserved c && all_unreserved s

-- An upper case hexadecimal digit.
upper_digit : ℕ → ℕ
upper_digit n = if ltb n 10 then 48 + n else 55 + n

-- Section 5.1: every octet that is not unreserved is a percent sign and its two digits.
pub percent_encode : Bytes → Bytes
percent_encode [] = []
percent_encode (c ∷ s) =
    let rest = percent_encode s in
    if is_unreserved c
    then c ∷ rest
    else 37 ∷ upper_digit (c / 16 % 16) ∷ upper_digit (c % 16) ∷ rest

-- Section 9.1.1: the parameters are sorted by name.
place : Bytes × Bytes → StringMap Bytes → StringMap Bytes
place p [] = p ∷ []
place p (q ∷ m) = let rest = place p m in if bytes_lt q.0 p.0 then q ∷ rest else p ∷ q ∷ m

pub arrange : StringMap Bytes → StringMap Bytes
arrange [] = []
arrange (p ∷ m) = place p (arrange m)

-- Section 9.1.1: names and values are encoded, with `=` between them and `&` between the pairs.
pub normalise : StringMap Bytes → Bytes
normalise [] = []
normalise (p ∷ []) = percent_encode p.0 ++ (b'=' ∷ percent_encode p.1)
normalise (p ∷ q ∷ m) =
    percent_encode p.0 ++ (b'=' ∷ (percent_encode p.1 ++ (b'&' ∷ normalise (q ∷ m))))

-- Section 9.1.3: the signature base string.
pub signature_base : Bytes → Bytes → StringMap Bytes → Bytes
signature_base method uri m =
    method ++ (b'&' ∷ (percent_encode uri ++ (b'&' ∷ percent_encode (normalise m))))

-- Section 9.2: the key of the signature is the two secrets, encoded.
pub secrets_key : Bytes → Bytes → Bytes
secrets_key consumer token = percent_encode consumer ++ (b'&' ∷ percent_encode token)

-- The check of section 3.2: the parameters without the signature are signed, and the two
-- signatures are compared.
pub has_signature : Crypto → Bytes → Bytes → Bytes → StringMap Bytes → Bool
has_signature c key uri method m = elim (find (codes "oauth_signature") m) [
  | none ↦ false
  | some s ↦
      elim (c.hmac_sha1 key (signature_base method uri (erase (codes "oauth_signature") m))) [
        | none ↦ false
        | some md ↦ bytes_eq s (base64_encode md)
      ]
]

-- The check of parameters that come in whatever order.
pub accepts : Crypto → Bytes → Bytes → Bytes → StringMap Bytes → Bool
accepts c key uri method m = has_signature c key uri method (arrange m)

digits_agree : ℕ → Bool
digits_agree i = hex_digit i == upper_digit i

digit_table : all_below 16 digits_agree ≡ true
unfolding all_below digits_agree hex_digit upper_digit
digit_table = refl

hex_digit-upper_digit : (i : ℕ) → i < 16 → hex_digit i ≡ upper_digit i
unfolding digits_agree
hex_digit-upper_digit i h = ground (arith, all_below_sound 16 digits_agree i digit_table h)

-- The encoding of the program is the one of the server.
pub url_escape-percent_encode : (s : Bytes) → url_escape s ≡ percent_encode s
unfolding percent_encode escaped_byte do_escape hexanizer
url_escape-percent_encode [] = url_escape-nil
url_escape-percent_encode (c ∷ s) =
    url_escape-cons c s
    ∙ ground (
      arith,
      url_escape-percent_encode s,
      and_15 (c / 2 ^ 4),
      and_15 c,
      hex_digit-upper_digit (c / 16 % 16) (omega arith),
      hex_digit-upper_digit (c % 16) (omega arith),
    )

-- A text of unreserved characters is encoded as it is.
pub percent_encode-id : (s : Bytes) → all_unreserved s ≡ true → percent_encode s ≡ s
unfolding percent_encode
percent_encode-id [] h = refl
percent_encode-id (c ∷ s) h = ground (arith, percent_encode-id s)

-- The secrets of a program that writes them as they are.
pub secrets_key_lem :
    (a b : Bytes)
    → all_unreserved a ≡ true
    → all_unreserved b ≡ true
    → secrets_key a b ≡ a ++ (b'&' ∷ b)
unfolding secrets_key
secrets_key_lem a b ha hb = rw (percent_encode-id a ha, percent_encode-id b hb)

place_first : (p : Bytes × Bytes) (m : StringMap Bytes) → IsSorted (p ∷ m) → place p m ≡ p ∷ m
unfolding place
place_first p [] h = refl
place_first p (q ∷ m) h = ground (arith, bytes_lt_irrefl p.0, bytes_lt_trans p.0 q.0 p.0 h.0.0)

pub arrange-IsSorted : (m : StringMap Bytes) → IsSorted m → arrange m ≡ m
unfolding arrange
arrange-IsSorted [] h = refl
arrange-IsSorted (p ∷ m) h = rw (arrange-IsSorted m h.1) (place_first p m h)

pub accepts-has_signature :
    (c : Crypto) (key uri method md : Bytes) (m : StringMap Bytes)
    → IsSorted m
    → find (codes "oauth_signature") m ≡ some (base64_encode md)
    → c.hmac_sha1 key (signature_base method uri (erase (codes "oauth_signature") m)) ≡ some md
    → accepts c key uri method m ≡ true
unfolding accepts has_signature
accepts-has_signature c key uri method md m s f e =
    rw (arrange-IsSorted m s) (rw (f, has_signature) (rw e (bytes_eq_refl (base64_encode md))))

pub accepts_arranged :
    (c : Crypto) (key uri method : Bytes) (l m : StringMap Bytes)
    → arrange l ≡ m
    → IsSorted m
    → accepts c key uri method m ≡ true
    → accepts c key uri method l ≡ true
unfolding accepts
accepts_arranged c key uri method l m e s a =
    ap (has_signature c key uri method) (e ∙ sym (arrange-IsSorted m s)) ∙ a

-- A new key comes to the place where the program sets it.
place-assign : (k v : Bytes) (m : StringMap Bytes) → find k m ≡ none → place (k, v) m ≡ assign k v m
unfolding place assign find
place-assign k v [] h = refl
place-assign k v (p ∷ m) h = ground (
  arith,
  place-assign k v m,
  bytes_eq_iff k p.0,
  bytes_trichotomy k p.0,
  bytes_lt_irrefl k,
  bytes_lt_trans k p.0 k,
)

pub arrange_new :
    (k v : Bytes) (m : StringMap Bytes)
    → IsSorted m
    → find k m ≡ none
    → arrange ((k, v) ∷ m) ≡ assign k v m
unfolding arrange
arrange_new k v m s h = rw (arrange-IsSorted m s) (place-assign k v m h)

-- The keys of a map are unreserved.
abbrev pub IsPlain : Bytes × Bytes → Type 0
IsPlain p = all_unreserved p.0 ≡ true

normalise-tail_of :
    (p : Bytes × Bytes) (m : StringMap Bytes)
    → All IsPlain (p ∷ m)
    → combine_as_get_param.apply p ++ tail_of combine_as_get_param m ≡ normalise (p ∷ m)
unfolding normalise tail_of
normalise-tail_of p [] h = rw (append-nil, url_escape-percent_encode p.1, percent_encode-id p.0 h.0)
normalise-tail_of p (q ∷ m) h = rw (
  sym (normalise-tail_of q m h.1),
  url_escape-percent_encode p.1,
  percent_encode-id p.0 h.0,
  append_assoc,
)

-- The parameters as the program joins them for its signature.
make_request-normalise :
    (m : StringMap Bytes) → All IsPlain m → make_request combine_as_get_param m ≡ normalise m
unfolding normalise make_request
make_request-normalise [] h = refl
make_request-normalise (p ∷ m) h =
    make_request-cons combine_as_get_param p m ∙ normalise-tail_of p m h

pub base_string-signature_base :
    (method uri : Bytes) (m : StringMap Bytes)
    → All IsPlain m
    → base_string method uri (make_request combine_as_get_param m) ≡ signature_base method uri m
unfolding signature_base
base_string-signature_base method uri m h = rw (
  make_request-normalise m h,
  url_escape-percent_encode uri,
  url_escape-percent_encode (normalise m),
)
