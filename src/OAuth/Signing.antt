-- ===== src/OAuth/Signing.antt =====
-- The two ways that `gen_request_signature` ends.
use black_circle.Prelude.{◌≡◌, arith, none, some, Bytes, codes}
use black_circle.Util.Base64.{base64_encode}
use black_circle.StringMap.{assign}
use black_circle.OAuth.{
  Crypto, Draw, returned, threw, TokenRequester, unsigned_params, sign_request,
  gen_request_signature,
}

module _ (c : Crypto) (uri method : Bytes) (d : Draw) (r : TokenRequester) where
  pub gen_request_signature_threw :
      sign_request c uri method r (unsigned_params c d r.params) ≡ none
      → gen_request_signature c uri method d r
        ≡ (record r { req_uri = uri; params = unsigned_params c d r.params }, threw)
  unfolding gen_request_signature
  gen_request_signature_threw h = ground arith

  pub gen_request_signature_returned :
      (md : Bytes)
      → sign_request c uri method r (unsigned_params c d r.params) ≡ some md
      → gen_request_signature c uri method d r ≡ (
        record r {
          req_uri = uri;
          params =
              assign (codes "oauth_signature") (base64_encode md) (unsigned_params c d r.params);
        },
        returned,
      )
  unfolding gen_request_signature
  gen_request_signature_returned md h = ground arith
