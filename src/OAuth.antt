-- ===== src/OAuth.antt =====
-- oauth.hpp: `token_requester`, which holds the OAuth parameters and signs a request with them.
pub mod Frame
pub mod Invariant
pub mod Query
pub mod Server
pub mod Header
mod Signing
pub mod Verify
use black_circle.Prelude.{
  ℕ, Bool, [], ◌∷◌, ◌++◌, foldl, Option, none, some, Bytes, AllBytes, codes, ◌≡◌, length,
}
use black_circle.Util.Hex.{hexanizer}
use black_circle.Util.Escape.{url_escape}
use black_circle.Util.Base64.{base64_encode}
use black_circle.StringMap.{StringMap, find, assign, erase}

-- What OpenSSL and Boost compute for this file, with the facts that the proofs use.
pub record Crypto : Type 0 where
  -- `HMAC(EVP_sha1(), key, message)`: the digest, or `none` where it returns a null pointer.
  pub hmac_sha1 : Bytes → Bytes → Option Bytes
  -- `MD5`.
  pub md5 : Bytes → Bytes
  -- `lexical_cast<string>` of a `time_t`.
  pub time_string : ℕ → Bytes
  pub hmac_sha1_bytes :
      (key message : Bytes) {d : Bytes} → hmac_sha1 key message ≡ some d → AllBytes d
  pub md5_bytes : (a : Bytes) → AllBytes (md5 a)
  pub time_string_bytes : (t : ℕ) → AllBytes (time_string t)

-- What one call meets outside: the random bytes, the clock at its two calls of `time(0)`, and
-- whether a connection that it makes is made (the host is found, and connect and handshake succeed).
pub record Draw : Type 0 where
  pub random : Bytes
  pub nonce_time : ℕ
  pub stamp_time : ℕ
  pub connects : Bool

-- Whether a call returned or threw.
pub data Outcome : Type 0 where
  returned threw : Outcome

pub record TokenRequester : Type 0 where
  pub req_uri : Bytes
  pub consumer_secret : Bytes
  pub token_secret : Bytes
  pub params : StringMap Bytes

-- `combine_as_get_param` and `combine_as_post_param`: a functor and its `joiner()`.
pub record Combiner : Type 0 where
  pub apply : Bytes × Bytes → Bytes
  pub joiner : Bytes

abbrev pub combine_as_get_param : Combiner
combine_as_get_param = record { apply = λ p. p.0 ++ (b'=' ∷ url_escape p.1); joiner = codes "&" }

abbrev pub combine_as_post_param : Combiner
combine_as_post_param = record {
  apply = λ p. p.0 ++ (codes "=\"" ++ (url_escape p.1 ++ (b'"' ∷ [])));
  joiner = codes ", ";
}

-- `combine_params::operator ()`.
abbrev pub combine_params : Combiner → Bytes → Bytes × Bytes → Bytes
combine_params cmb s p = s ++ (cmb.joiner ++ cmb.apply p)

-- `make_request`. On an empty map the source reads `*params.begin()`, which is undefined; a valid
-- requester has parameters.
unfoldable pub make_request : Combiner → StringMap Bytes → Bytes
make_request cmb [] = []
make_request cmb (p ∷ m) = foldl (combine_params cmb) (cmb.apply p) m

unfoldable pub token_requester : TokenRequester
token_requester = record {
  req_uri = [];
  consumer_secret = [];
  token_secret = [];
  params =
      assign (codes "oauth_version") (codes "1.0")
        (assign (codes "oauth_signature_method") (codes "HMAC-SHA1") []);
}

unfoldable pub gen_geturl : TokenRequester → Bytes
gen_geturl r = r.req_uri ++ (b'?' ∷ make_request combine_as_get_param r.params)

unfoldable pub gen_getquery : TokenRequester → Bytes
gen_getquery r = make_request combine_as_get_param r.params

unfoldable pub gen_postparam : TokenRequester → Bytes
gen_postparam r = make_request combine_as_post_param r.params

unfoldable pub set_consumer : Bytes → Bytes → TokenRequester → TokenRequester
set_consumer key secret r = record r {
  consumer_secret = secret;
  params = assign (codes "oauth_consumer_key") key r.params;
}

unfoldable pub set_token : Bytes → Bytes → TokenRequester → TokenRequester
set_token key secret r = record r {
  token_secret = secret;
  params = assign (codes "oauth_token") key r.params;
}

unfoldable pub set_pin_number : Bytes → TokenRequester → TokenRequester
set_pin_number pin r = record r { params = assign (codes "oauth_verifier") pin r.params }

unfoldable pub clear_pin_number : TokenRequester → TokenRequester
clear_pin_number r = record r { params = erase (codes "oauth_verifier") r.params }

-- `method + '&' + url_escape(req_uri) + '&' + url_escape(...)`.
abbrev pub base_string : Bytes → Bytes → Bytes → Bytes
base_string method req_uri request =
    method ++ (b'&' ∷ (url_escape req_uri ++ (b'&' ∷ url_escape request)))

abbrev pub signing_key : TokenRequester → Bytes
signing_key r = r.consumer_secret ++ (b'&' ∷ r.token_secret)

module _ (c : Crypto) where
  -- `gen_nonce`: the MD5 of 16 random bytes and the time, in hexadecimal.
  pub gen_nonce : Draw → Bytes
  gen_nonce d = foldl (hexanizer []) [] (c.md5 (d.random ++ c.time_string d.nonce_time))

  pub get_time : Draw → Bytes
  get_time d = c.time_string d.stamp_time

  -- `gen_request_signature` up to the signing: the parameters that the signature covers.
  unfoldable pub unsigned_params : Draw → StringMap Bytes → StringMap Bytes
  unsigned_params d m =
      erase (codes "oauth_signature") (
        assign (codes "oauth_timestamp") (get_time d)
          (assign (codes "oauth_nonce") (gen_nonce d) m))

  -- `sign_hmac_sha1(consumer_secret + '&' + token_secret, message)`, for a request with parameters
  -- `m`.
  abbrev pub sign_request : Bytes → Bytes → TokenRequester → StringMap Bytes → Option Bytes
  sign_request req_uri method r m =
      c.hmac_sha1 (signing_key r) (base_string method req_uri (make_request combine_as_get_param m))

  -- The signing itself. If HMAC fails, `sign_hmac_sha1` throws: the new parameters stay, unsigned.
  pub sign_params : Bytes → Bytes → TokenRequester → StringMap Bytes → TokenRequester × Outcome
  sign_params req_uri method r m = elim (sign_request req_uri method r m) [
    | none ↦ (record r { req_uri = req_uri; params = m }, threw)
    | some md ↦ (
      record r {
        req_uri = req_uri;
        params = assign (codes "oauth_signature") (base64_encode md) m;
      },
      returned,
    )
  ]

  unfoldable pub gen_request_signature :
      Bytes → Bytes → Draw → TokenRequester → TokenRequester × Outcome
  unfolding sign_params
  gen_request_signature req_uri method d r =
      sign_params req_uri method r (unsigned_params d r.params)
