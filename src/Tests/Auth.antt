-- ===== src/Tests/Auth.antt =====
-- A request for an access token, and a start of the program.
use black_circle.Prelude.{ℕ, ◌+◌, ◌/◌, ◌%◌, Bytes, ◌≡◌, refl, false, arith, [], ◌∷◌, some, codes}
use black_circle.Prelude.Int.{pos}
use black_circle.StringMap.{find, insert, assign}
use black_circle.OAuth.{
  TokenRequester, token_requester, set_consumer, set_token, gen_request_signature,
}
use black_circle.OAuth.Server.{secrets_key}
use black_circle.OAuth.Invariant.{Reachable-IsValid, fresh, call, consumer}
use black_circle.Http.{Response, map_get_or}
use black_circle.Client.{Sent, TwitterClient, make_userstream, make_http_client}
use black_circle.Qi.Rules.{print_all}
use black_circle.Answers.Grammar.{insert_all}
use black_circle.Auth.{after_signature, Authoriser, auth_req_handler, request_access}
use black_circle.Auth.Access.{IsAccess, number_of, digits_from, auth_req_handler-IsAccess}
use black_circle.Launch.{Options, members_of, consumer_secret}
use black_circle.Tests.Data.{crypto, draw}
use black_circle.Tests.Peg.{peg}

abbrev asking : Authoriser
asking = record {
  req = set_consumer (codes "k") (codes "c") token_requester;
  sent = [];
  printed = [];
}

-- What the server of Twitter answers: the last parameter is lost, and not needed.
abbrev request_tokens : Response
request_tokens = record {
  code = pos 200;
  reason = codes "OK";
  header = [];
  content = codes "oauth_token=t&oauth_token_secret=s&oauth_callback_confirmed=true";
}

-- `lexical_cast` of a number below 100.
abbrev two_digits : ℕ → Bytes
two_digits n = (48 + n / 10) ∷ (48 + n % 10) ∷ []

auth_req_handler-IsAccess_example :
    (m : Sent) × ((auth_req_handler crypto peg two_digits 12 draw
        (some request_tokens)
        asking).0.sent
      ≡ m ∷ [])
    × IsAccess crypto (secrets_key (codes "c") (codes "s")) (codes "t") 12 m
unfolding auth_req_handler request_access gen_request_signature print_all insert_all insert assign
    find map_get_or after_signature set_consumer make_http_client token_requester number_of
    digits_from
auth_req_handler-IsAccess_example =
    auth_req_handler-IsAccess crypto peg two_digits draw 12 (codes "t") (codes "s")
      ((codes "oauth_token", codes "t") ∷ (codes "oauth_token_secret", codes "s") ∷ [])
      (codes "oauth_callback_confirmed", codes "true") request_tokens asking
      (Reachable-IsValid {c = crypto}
        (call fresh (consumer token_requester (codes "k") (codes "c") (omega arith))))
      (omega arith) refl (omega arith) refl refl refl refl (ground arith) (ground arith) refl refl
      refl

abbrev options : Options
options = record { help = false; auth = false; token = codes "1-t"; secret = codes "s" }

abbrev configured : TokenRequester
configured =
    set_token (codes "1-t") (codes "s")
      (set_consumer (codes "rsMOC9H8ktdcmyipPMO9g") consumer_secret token_requester)

abbrev client : TwitterClient
client = (make_userstream crypto draw (members_of configured)).0
