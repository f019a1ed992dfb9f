-- ===== src/Auth.antt =====
-- black_circle.cc: how the program gets an access token for an account.
pub mod Access
use black_circle.Prelude.{ℕ, [], ◌∷◌, ◌++◌, List, Option, none, some, Bytes, codes, if◌then◌else◌}
use black_circle.StringMap.{StringMap}
use black_circle.OAuth.{
  Crypto, Draw, Outcome, returned, threw, TokenRequester, gen_request_signature, gen_getquery,
  set_token, set_pin_number,
}
use black_circle.Http.{HttpClient, Response, get_uri, map_get_or}
use black_circle.Client.{Sent, make_http_client, closing}
use black_circle.Client.Handler.{is_ok}
use black_circle.Qi.{Qi}
use black_circle.Answers.Grammar.{split_params}

-- The `token_requester` of the program, with the requests that were sent and the lines that were
-- printed, the last one first.
pub record Authoriser : Type 0 where
  pub req : TokenRequester
  pub sent : List Sent
  pub printed : List Bytes

-- `par[key]`. The default that `operator []` inserts is read nowhere else.
abbrev pub value_of : StringMap Bytes → Bytes → Bytes
value_of par key = map_get_or par key []

abbrev pub request_uri : Bytes
request_uri = codes "https://twitter.com/oauth/request_token"

abbrev pub request_token : HttpClient → HttpClient
request_token h = closing h (codes "/oauth/request_token")

abbrev pub access_token : HttpClient → HttpClient
access_token h = closing h (codes "/oauth/access_token")

-- `c->query = ….gen_getquery(); c->request();` behind a call that signs, which may have thrown.
unfoldable pub after_signature :
    HttpClient → Authoriser → TokenRequester × Outcome → Authoriser × Outcome
after_signature h a (r, threw) = (record a { req = r }, threw)
after_signature h a (r, returned) = (
  record a {
    req = r;
    sent = record { client = record h { query = gen_getquery r }; body = [] } ∷ a.sent;
  },
  returned,
)

module _ (c : Crypto) where
  abbrev pub sign_get : HttpClient → Draw → Authoriser → Authoriser × Outcome
  sign_get h d a = after_signature h a (gen_request_signature c (get_uri h) (codes "GET") d a.req)

  -- `do_initial_auth` behind its first signature, whose URL nothing reads.
  unfoldable pub after_first : Draw → Authoriser → TokenRequester × Outcome → Authoriser × Outcome
  unfolding make_http_client
  after_first d a (r, threw) = (record a { req = r }, threw)
  after_first d a (r, returned) =
      let asking = record a { req = r } in
      make_http_client d (codes "twitter.com") (asking, threw)
        λ h. sign_get (request_token h) d asking

  -- `do_initial_auth` up to `service.run()`.
  unfoldable pub do_initial_auth : Draw → Draw → Authoriser → Authoriser × Outcome
  do_initial_auth d1 d2 a =
      after_first d2 a (gen_request_signature c request_uri (codes "GET") d1 a.req)

  -- What is set and printed before the connection for the access token. `lexical_cast` writes the
  -- number `pin` in decimal.
  abbrev pub with_pin : (ℕ → Bytes) → ℕ → StringMap Bytes → Authoriser → Authoriser
  with_pin lexical_cast pin par a =
      let token = value_of par (codes "oauth_token") in
      record a {
        req =
            set_pin_number (lexical_cast pin)
              (set_token token (value_of par (codes "oauth_token_secret")) a.req);
        printed =
            (codes "Access to https://twitter.com/oauth/authorize?oauth_token="
              ++ (token ++ codes " and input PIN number.\n"))
            ∷ a.printed;
      }

  -- `auth_req_handler` from `split_params` on. `pin` is what `cin >> n` makes of the line that is
  -- typed, an `unsigned`.
  unfoldable pub request_access :
      (ℕ → Bytes) → ℕ → Draw → StringMap Bytes → Authoriser → Authoriser × Outcome
  unfolding make_http_client
  request_access lexical_cast pin d par a =
      let asking = with_pin lexical_cast pin par a in
      make_http_client d (codes "twitter.com") (asking, threw)
        λ h. sign_get (access_token h) d asking

  unfoldable pub auth_req_handler :
      Qi → (ℕ → Bytes) → ℕ → Draw → Option Response → Authoriser → Authoriser × Outcome
  auth_req_handler q lexical_cast pin d none a = (a, returned)
  auth_req_handler q lexical_cast pin d (some r) a =
      if is_ok r.code
      then request_access lexical_cast pin d (split_params q r.content) a
      else (a, threw)

-- The two lines of `auth_pin_handler`.
abbrev pub show_tokens : StringMap Bytes → List Bytes → List Bytes
show_tokens par out =
    (codes " --token="
      ++ (value_of par (codes "oauth_token")
          ++ (codes " --secret=" ++ (value_of par (codes "oauth_token_secret") ++ codes "\n"))))
    ∷ codes "Authorization Succeed. Re-Launch with these parameters:\n"
    ∷ out

unfoldable pub auth_pin_handler : Qi → Option Response → Authoriser → Authoriser × Outcome
auth_pin_handler q none a = (a, returned)
auth_pin_handler q (some r) a =
    if is_ok r.code
    then (record a { printed = show_tokens (split_params q r.content) a.printed }, returned)
    else (a, threw)
