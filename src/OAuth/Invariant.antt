-- ===== src/OAuth/Invariant.antt =====
-- What holds of a `token_requester` after every sequence of its calls.
use black_circle.Prelude.{
  ◌≡◌, ◌≢◌, refl, arith, [], ◌∷◌, foldl, some, Bytes, AllBytes, codes, bytes_eq, All, false,
  Option-cases, inl, inr,
}
use black_circle.Util.Base64.{base64_encode}
use black_circle.Util.Base64.Decode.{base64_encode-AllBytes}
use black_circle.Util.Hex.{hexanizer, hexanizer-AllBytes}
use black_circle.StringMap.{StringMap, find, assign, erase, IsSorted}
use black_circle.StringMap.Laws.{
  assign-IsSorted, erase-IsSorted, find-assign, find-erase, assign-All, erase-All,
}
use black_circle.OAuth.Query.{IsClean}
use black_circle.OAuth.Server.{IsPlain}
use black_circle.OAuth.Signing.{gen_request_signature_threw, gen_request_signature_returned}
use black_circle.OAuth.{
  Crypto, Draw, TokenRequester, token_requester, set_consumer, set_token, set_pin_number,
  clear_pin_number, gen_nonce, get_time, unsigned_params, sign_request, gen_request_signature,
}

-- A well-formed set of parameters: ordered keys of unreserved characters, pairs that a query can
-- carry, and the two constants.
pub record IsValid (m : StringMap Bytes) : Type 0 where
  pub sorted : IsSorted m
  pub clean : All IsClean m
  pub plain : All IsPlain m
  pub method : find (codes "oauth_signature_method") m ≡ some (codes "HMAC-SHA1")
  pub version : find (codes "oauth_version") m ≡ some (codes "1.0")

-- A key that an operation may set: none of the two constants, clean and unreserved.
pub record IsFree (k : Bytes) : Type 0 where
  pub not_method : bytes_eq (codes "oauth_signature_method") k ≡ false
  pub not_version : bytes_eq (codes "oauth_version") k ≡ false
  pub key : IsClean (k, [])
  pub plain : IsPlain (k, [])

pub assign-IsValid :
    (k v : Bytes) (m : StringMap Bytes) → IsFree k → AllBytes v → IsValid m → IsValid (assign k v m)
assign-IsValid k v m f b h = record {
  sorted = assign-IsSorted k v m h.sorted;
  clean = assign-All IsClean k v m (f.key.0, f.key.1, b) h.clean;
  plain = assign-All IsPlain k v m f.plain h.plain;
  method = rw (find-assign (codes "oauth_signature_method") k v m, f.not_method) h.method;
  version = rw (find-assign (codes "oauth_version") k v m, f.not_version) h.version;
}

pub erase-IsValid : (k : Bytes) (m : StringMap Bytes) → IsFree k → IsValid m → IsValid (erase k m)
erase-IsValid k m f h = record {
  sorted = erase-IsSorted k m h.sorted;
  clean = erase-All IsClean k m h.clean;
  plain = erase-All IsPlain k m h.plain;
  method = rw (find-erase (codes "oauth_signature_method") k m h.sorted, f.not_method) h.method;
  version = rw (find-erase (codes "oauth_version") k m h.sorted, f.not_version) h.version;
}

-- A valid requester has parameters, so `*params.begin()` is there.
pub IsValid-ne-nil : (m : StringMap Bytes) → IsValid m → m ≢ []
unfolding find
IsValid-ne-nil [] h = λ e. cc (h.method)
IsValid-ne-nil (p ∷ m) h = cc

timestamp-IsFree : IsFree (codes "oauth_timestamp")
timestamp-IsFree = record { not_method = refl; not_version = refl; key = omega arith; plain = refl }

nonce-IsFree : IsFree (codes "oauth_nonce")
nonce-IsFree = record { not_method = refl; not_version = refl; key = omega arith; plain = refl }

signature-IsFree : IsFree (codes "oauth_signature")
signature-IsFree = record { not_method = refl; not_version = refl; key = omega arith; plain = refl }

consumer_key-IsFree : IsFree (codes "oauth_consumer_key")
consumer_key-IsFree = record {
  not_method = refl;
  not_version = refl;
  key = omega arith;
  plain = refl;
}

token-IsFree : IsFree (codes "oauth_token")
token-IsFree = record { not_method = refl; not_version = refl; key = omega arith; plain = refl }

verifier-IsFree : IsFree (codes "oauth_verifier")
verifier-IsFree = record { not_method = refl; not_version = refl; key = omega arith; plain = refl }

token_requester-IsValid : IsValid token_requester.params
unfolding token_requester assign find
token_requester-IsValid = record {
  sorted = ((refl, tt), (tt, tt));
  clean = omega arith;
  plain = (refl, (refl, tt));
  method = refl;
  version = refl;
}

foldl-hexanizer-AllBytes :
    (a s : Bytes) → AllBytes a → AllBytes s → AllBytes (foldl (hexanizer []) s a)
foldl-hexanizer-AllBytes [] s ha hs = hs
foldl-hexanizer-AllBytes (c ∷ a) s ha hs =
    foldl-hexanizer-AllBytes a (hexanizer [] s c) ha.1 (hexanizer-AllBytes [] s c tt hs ha.0)

module _ (c : Crypto) (d : Draw) where
  gen_nonce-AllBytes : AllBytes (gen_nonce c d)
  unfolding gen_nonce
  gen_nonce-AllBytes = foldl-hexanizer-AllBytes _ [] (c.md5_bytes _) tt

  get_time-AllBytes : AllBytes (get_time c d)
  unfolding get_time
  get_time-AllBytes = c.time_string_bytes d.stamp_time

  pub unsigned_params-IsValid : (m : StringMap Bytes) → IsValid m → IsValid (unsigned_params c d m)
  unfolding unsigned_params
  unsigned_params-IsValid m h =
      let m1 = assign (codes "oauth_nonce") (gen_nonce c d) m in
      let h1 =
        assign-IsValid (codes "oauth_nonce") (gen_nonce c d) m nonce-IsFree gen_nonce-AllBytes h in
      let m2 = assign (codes "oauth_timestamp") (get_time c d) m1 in
      let h2 =
        assign-IsValid (codes "oauth_timestamp") (get_time c d) m1 timestamp-IsFree
          get_time-AllBytes h1 in
      erase-IsValid (codes "oauth_signature") m2 signature-IsFree h2

  pub gen_request_signature-IsValid :
      (uri method : Bytes) (r : TokenRequester)
      → IsValid r.params
      → IsValid (gen_request_signature c uri method d r).0.params
  gen_request_signature-IsValid uri method r h =
      let m = unsigned_params c d r.params in
      let valid = unsigned_params-IsValid r.params h in
      elim (Option-cases (sign_request c uri method r m)) [
        | inl failed ↦ rw (gen_request_signature_threw c uri method d r failed) valid
        | inr (md, signed) ↦ rw (gen_request_signature_returned c uri method d r md signed) (
            assign-IsValid (codes "oauth_signature") (base64_encode md) m signature-IsFree
              (base64_encode-AllBytes md) valid)
      ]

-- A call of the class: the strings that a program passes are bytes.
pub data Call (c : Crypto) : TokenRequester → TokenRequester → Type 0 where
  consumer :
      (r : TokenRequester) (key secret : Bytes)
      → AllBytes key
      → Call c r (set_consumer key secret r)
  token :
      (r : TokenRequester) (key secret : Bytes) → AllBytes key → Call c r (set_token key secret r)
  pin : (r : TokenRequester) (p : Bytes) → AllBytes p → Call c r (set_pin_number p r)
  clear : (r : TokenRequester) → Call c r (clear_pin_number r)
  sign :
      (r : TokenRequester) (uri method : Bytes) (d : Draw)
      → Call c r (gen_request_signature c uri method d r).0

-- What a program can make of a fresh `token_requester`.
pub data Reachable (c : Crypto) : TokenRequester → Type 0 where
  fresh : Reachable c token_requester
  call : {r s : TokenRequester} → Reachable c r → Call c r s → Reachable c s

pub Call-IsValid :
    {c : Crypto} {r s : TokenRequester} → Call c r s → IsValid r.params → IsValid s.params
unfolding set_consumer set_token set_pin_number clear_pin_number
Call-IsValid (consumer r key secret b) h =
    assign-IsValid (codes "oauth_consumer_key") key r.params consumer_key-IsFree b h
Call-IsValid (token r key secret b) h =
    assign-IsValid (codes "oauth_token") key r.params token-IsFree b h
Call-IsValid (pin r p b) h = assign-IsValid (codes "oauth_verifier") p r.params verifier-IsFree b h
Call-IsValid (clear r) h = erase-IsValid (codes "oauth_verifier") r.params verifier-IsFree h
Call-IsValid {c = c} (sign r uri method d) h = gen_request_signature-IsValid c d uri method r h

-- Whatever sequence of calls made a requester, signatures that failed included, its keys ascend
-- strictly and are unreserved characters, its pairs can be written in a query, and the method and version are the constants of
-- the constructor.
pub Reachable-IsValid : {c : Crypto} {r : TokenRequester} → Reachable c r → IsValid r.params
Reachable-IsValid fresh = token_requester-IsValid
Reachable-IsValid (call h s) = Call-IsValid s (Reachable-IsValid h)
