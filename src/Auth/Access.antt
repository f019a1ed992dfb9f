-- ===== src/Auth/Access.antt =====
-- The request for an access token.
use black_circle.Prelude.{
  ℕ, ◌+◌, ◌*◌, ◌-◌, ◌&&◌, leb, if◌then◌else◌, Option, none, ◌≡◌, refl, sym, ap, ◌∙◌, subst, true,
  [], ◌∷◌, ◌++◌, List, some, Bytes, AllBytes, codes, All,
}
use black_circle.Prelude.Int.{pos}
use black_circle.StringMap.{StringMap, find, assign}
use black_circle.StringMap.Laws.{find-assign}
use black_circle.OAuth.{
  Crypto, Draw, Outcome, returned, threw, TokenRequester, gen_request_signature, gen_getquery,
  set_token, set_pin_number, signing_key,
}
use black_circle.OAuth.Invariant.{
  IsValid, token, pin, Call-IsValid, gen_request_signature-IsValid, IsValid-ne-nil,
}
use black_circle.OAuth.Frame.{gen_request_signature-Signed}
use black_circle.OAuth.Query.{parse_query, parse_query-gen_getquery}
use black_circle.OAuth.Server.{all_unreserved, secrets_key, secrets_key_lem}
use black_circle.OAuth.Verify.{accepts_query, accepts_query-signing_key}
use black_circle.Http.{Response, HttpClient, get_uri}
use black_circle.Client.{Sent, client_of, make_http_client, make_http_client-both}
use black_circle.Qi.{Qi}
use black_circle.Qi.Rules.{print_all}
use black_circle.Answers.Grammar.{split_params, insert_all}
use black_circle.Answers.Grammar.Params.{IsParam, param_text, open_text, split_params_lem}
use black_circle.Auth.{
  Authoriser, access_token, value_of, after_signature, sign_get, request_access, auth_req_handler,
}

-- The number that a server reads from digits.
unfoldable pub digits_from : ℕ → Bytes → Option ℕ
digits_from n [] = some n
digits_from n (c ∷ s) =
    let rest = digits_from (10 * n + (c - 48)) s in if leb 48 c && leb c 57 then rest else none

unfoldable pub number_of : Bytes → Option ℕ
number_of s = digits_from 0 s

-- A request for an access token that is answered: a server with the key `key` accepts it, and reads
-- the request token and the number of the PIN from its query.
pub record IsAccess (c : Crypto) (key t : Bytes) (p : ℕ) (s : Sent) : Type 0 where
  pub asked : get_uri s.client ≡ codes "https://twitter.com/oauth/access_token"
  pub no_body : s.body ≡ []
  pub accepted : accepts_query c key (get_uri s.client) (codes "GET") s.client.query ≡ true
  pub params : StringMap Bytes
  pub parsed : parse_query s.client.query ≡ some params
  pub has_token : find (codes "oauth_token") params ≡ some t
  pub pin_text : Bytes
  pub has_pin : find (codes "oauth_verifier") params ≡ some pin_text
  pub reads_pin : number_of pin_text ≡ some p

-- What was sent last, if a call returned.
after_signature_returned :
    (h : HttpClient) (a : Authoriser) (r : TokenRequester × Outcome)
    → (after_signature h a r).1 ≡ returned
    → (r.1 ≡ returned)
      × ((after_signature h a r).0.sent
          ≡ record { client = record h { query = gen_getquery r.0 }; body = [] } ∷ a.sent)
unfolding after_signature
after_signature_returned h a (r, returned) e = (refl, refl)
after_signature_returned h a (r, threw) e = cc

module _ (c : Crypto) where
  sign_get-IsAccess :
      (d : Draw) (h : HttpClient) (t s b : Bytes) (p : ℕ) (a : Authoriser) (r : TokenRequester)
      → get_uri h ≡ codes "https://twitter.com/oauth/access_token"
      → a.req ≡ set_pin_number b (set_token t s r)
      → number_of b ≡ some p
      → IsValid a.req.params
      → (sign_get c h d a).1 ≡ returned
      → (m : Sent) × ((sign_get c h d a).0.sent ≡ m ∷ a.sent)
        × IsAccess c (r.consumer_secret ++ (b'&' ∷ s)) t p m
  unfolding set_pin_number set_token
  sign_get-IsAccess d h t s b p a r u e n v ok =
      let g = gen_request_signature c (get_uri h) (codes "GET") d a.req in
      let w = gen_request_signature-IsValid c d (get_uri h) (codes "GET") a.req v in
      let others =
        (gen_request_signature-Signed c d (get_uri h) (codes "GET") a.req v.sorted).0.others in
      let (done, last) = after_signature_returned h a g ok in
      (
        record { client = record h { query = gen_getquery g.0 }; body = [] },
        last,
        record {
          asked = u;
          no_body = refl;
          accepted =
              subst (λ k. accepts_query c k (get_uri h) (codes "GET") (gen_getquery g.0) ≡ true)
                (ap signing_key e)
                (accepts_query-signing_key c (get_uri h) (codes "GET") d a.req v done);
          params = g.0.params;
          parsed = parse_query-gen_getquery g.0 (IsValid-ne-nil g.0.params w) w.clean;
          has_token =
              others (codes "oauth_token") refl refl refl
              ∙ rw e (
                  rw
                    (find-assign (codes "oauth_token") (codes "oauth_verifier") b
                      (assign (codes "oauth_token") t r.params))
                    (find-assign (codes "oauth_token") (codes "oauth_token") t r.params));
          pin_text = b;
          has_pin =
              others (codes "oauth_verifier") refl refl refl
              ∙ rw e (
                  find-assign (codes "oauth_verifier") (codes "oauth_verifier") b
                    (assign (codes "oauth_token") t r.params));
          reads_pin = n;
        },
      )

  -- For a valid requester, a token that is bytes, and a typed number that `lexical_cast` writes in
  -- digits:
  -- if the answer to the request for a token is a success, its body ends in a parameter that no `&`
  -- follows, the two secrets are unreserved characters, and neither the connection nor the signing
  -- throws, then one more request is sent: a server of the OAuth core that has the consumer's secret
  -- and the secret of the answer accepts it, and reads the token of the answer and the number.
  pub auth_req_handler-IsAccess :
      (q : Qi) (lexical_cast : ℕ → Bytes) (d : Draw) (p : ℕ) (t s : Bytes)
      (ps : List (Bytes × Bytes)) (last : Bytes × Bytes) (r : Response) (a : Authoriser)
      → IsValid a.req.params
      → AllBytes (lexical_cast p)
      → number_of (lexical_cast p) ≡ some p
      → AllBytes t
      → all_unreserved a.req.consumer_secret ≡ true
      → all_unreserved s ≡ true
      → r.code ≡ pos 200
      → r.content ≡ print_all param_text ps ++ open_text last
      → All IsParam ps
      → IsParam last
      → value_of (insert_all ps []) (codes "oauth_token") ≡ t
      → value_of (insert_all ps []) (codes "oauth_token_secret") ≡ s
      → (auth_req_handler c q lexical_cast p d (some r) a).1 ≡ returned
      → (m : Sent) × ((auth_req_handler c q lexical_cast p d (some r) a).0.sent ≡ m ∷ a.sent)
        × IsAccess c (secrets_key a.req.consumer_secret s) t p m
  unfolding auth_req_handler request_access make_http_client
  auth_req_handler-IsAccess q cast d p t s ps last r a v bp np bt uc us code body all last_ok ht
        hs =
      let par : split_params q r.content ≡ insert_all ps [] =
        ap (split_params q) body ∙ (split_params_lem q ps last all last_ok).1 in
      let valid : IsValid (set_pin_number (cast p) (set_token t s a.req)).params =
        Call-IsValid {c = c} (pin (set_token t s a.req) (cast p) bp)
          (Call-IsValid {c = c} (token a.req t s bt) v) in
      let asking = record a {
        req = set_pin_number (cast p) (set_token t s a.req);
        printed =
            (codes "Access to https://twitter.com/oauth/authorize?oauth_token="
              ++ (t ++ codes " and input PIN number.\n"))
            ∷ a.printed;
      } in
      let Done : Authoriser × Outcome → Type 0 = λ u.
        u.1 ≡ returned
        → (m : Sent) × (u.0.sent ≡ m ∷ a.sent)
          × IsAccess c (secrets_key a.req.consumer_secret s) t p m in
      let handled : auth_req_handler c q cast p d (some r) a
          ≡ make_http_client d (codes "twitter.com") (asking, threw)
              (λ h. sign_get c (access_token h) d asking) =
        rw code (rw par (rw (ht, hs))) in
      subst Done (sym handled) (
        make_http_client-both Done d (codes "twitter.com") (asking, threw)
          (λ h. sign_get c (access_token h) d asking) (λ e. cc)
          (rw (secrets_key_lem a.req.consumer_secret s uc us) (
            sign_get-IsAccess d (access_token (client_of (codes "twitter.com"))) t s (cast p) p
              asking a.req refl refl np valid)))
