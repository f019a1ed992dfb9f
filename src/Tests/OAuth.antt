-- ===== src/Tests/OAuth.antt =====
-- Requests of a program that sets a consumer and signs twice.
use black_circle.Prelude.{◌≡◌, refl, true, arith, [], codes, some, none}
use black_circle.StringMap.{assign, find}
use black_circle.OAuth.{
  TokenRequester, token_requester, set_consumer, gen_request_signature, gen_getquery, threw,
}
use black_circle.OAuth.Server.{secrets_key}
use black_circle.OAuth.Query.{parse_query, parse_query-gen_getquery}
use black_circle.OAuth.Verify.{accepts_query, accepts_query-gen_request_signature}
use black_circle.OAuth.Invariant.{
  IsValid, IsValid-ne-nil, Reachable, fresh, call, consumer, sign, Reachable-IsValid,
}
use black_circle.OAuth.Frame.{Signed, gen_request_signature_lem}
use black_circle.Tests.Data.{crypto, draw, uri}

abbrev configured : TokenRequester
configured = set_consumer (codes "key&=") (codes "s") token_requester

configured-Reachable : Reachable crypto configured
configured-Reachable =
    call fresh (consumer token_requester (codes "key&=") (codes "s") (omega arith))

abbrev signed : TokenRequester
signed = (gen_request_signature crypto uri (codes "GET") draw configured).0

signed-Reachable : Reachable crypto signed
signed-Reachable = call configured-Reachable (sign configured uri (codes "GET") draw)

-- The second request of the same requester is accepted too.
accepts_query-gen_request_signature_example :
    accepts_query crypto
      (secrets_key (codes "s") [])
      uri
      (codes "POST")
      (gen_getquery (gen_request_signature crypto uri (codes "POST") draw signed).0)
    ≡ true
unfolding gen_request_signature set_consumer token_requester
accepts_query-gen_request_signature_example =
    accepts_query-gen_request_signature crypto uri (codes "POST") draw signed
      (Reachable-IsValid signed-Reachable) refl refl refl

parse_query-gen_getquery_example : parse_query (gen_getquery signed) ≡ some signed.params
parse_query-gen_getquery_example =
    parse_query-gen_getquery signed
      (IsValid-ne-nil signed.params (Reachable-IsValid signed-Reachable))
      (Reachable-IsValid signed-Reachable).clean

Reachable-IsValid_example : IsValid signed.params
Reachable-IsValid_example = Reachable-IsValid {c = crypto} {r = signed} signed-Reachable

gen_request_signature_lem_example :
    Signed crypto draw uri configured signed
    × ((gen_request_signature crypto uri (codes "GET") draw configured).1 ≡ threw
        → find (codes "oauth_signature") signed.params ≡ none)
    × (gen_request_signature crypto uri (codes "GET") draw (record configured {
      params = assign (codes "oauth_signature") (codes "old") configured.params;
    })
        ≡ gen_request_signature crypto uri (codes "GET") draw configured)
gen_request_signature_lem_example =
    gen_request_signature_lem crypto draw uri (codes "GET") (codes "old") configured
      (Reachable-IsValid configured-Reachable).sorted
