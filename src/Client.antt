-- ===== src/Client.antt =====
-- `twitter_client` of black_circle.cc: which requests it sends, and what it does with an answer.
pub mod Session
pub mod Handler
use black_circle.Prelude.{
  ℕ, ◌+◌, Bool, true, false, not, ◌&&◌, List, [], ◌∷◌, ◌++◌, Option, none, some, Bytes, codes, ◌==◌,
  if◌then◌else◌,
}
use black_circle.Util.Escape.{url_escape}
use black_circle.StringMap.{StringMap, assign, erase}
use black_circle.OAuth.{
  Crypto, Draw, Outcome, returned, threw, TokenRequester, gen_request_signature, gen_getquery,
  gen_postparam,
}
use black_circle.Http.{HttpClient, get_uri}
use black_circle.Json.{Value, get_array}
use black_circle.Twitter.Types.{Platform, Fresh, Stores}
use black_circle.Entity.{process_single_entity, for_each_reversed}

-- A request that was sent: the `http_client` as it was then, and the body (`data`).
pub record Sent : Type 0 where
  pub client : HttpClient
  pub body : Bytes

-- `twitter_client`, with the requests it sent, the last one first. A `shared_ptr<http_client>` is a
-- number, new for each `make_http_client`; `stopped` is that `service.stop` was posted.
pub record TwitterClient : Type 0 where
  pub req : TokenRequester
  pub ust : Option ℕ
  pub next : ℕ
  pub sent : List Sent
  pub stopped : Bool

-- The members of an `http_client` that is connected to `host`.
abbrev pub client_of : Bytes → HttpClient
client_of host = record { host = host; path = []; query = []; header = []; secure = true }

-- `make_http_client(service, handler, host, ctx)`, which looks the host up, connects and shakes hands
-- before it returns, and throws if one of them fails: then the caller ends as `failed` says, else it
-- goes on with the client.
unfoldable pub make_http_client {ℓ} : {A : Type ℓ} → Draw → Bytes → A → (HttpClient → A) → A
make_http_client d host failed next = if d.connects then next (client_of host) else failed

-- What holds of both ends of a caller.
pub make_http_client-both {ℓ κ} :
    {A : Type ℓ} (P : A → Type κ) (d : Draw) (host : Bytes) (failed : A) (next : HttpClient → A)
    → P failed
    → P (next (client_of host))
    → P (make_http_client d host failed next)
unfolding make_http_client
make_http_client-both P d host failed next f n = either d.connects
  where
    either : (b : Bool) → P (if b then next (client_of host) else failed)
    either true = n
    either false = f

-- The members that the callers set.
abbrev pub userstream : HttpClient → HttpClient
userstream c = record c {
  path = codes "/2/user.json";
  header =
      assign (codes "Accept") (codes "*/*")
        (assign (codes "User-Agent") (codes "Grimoiretter/0.1") []);
}

abbrev pub closing : HttpClient → Bytes → HttpClient
closing c path = record c { path = path; header = assign (codes "Connection") (codes "close") [] }

abbrev pub friends_timeline : HttpClient → HttpClient
friends_timeline c = closing c (codes "/1/statuses/friends_timeline.json")

abbrev pub update : HttpClient → HttpClient
update c = closing c (codes "/1/statuses/update.json")

-- `c->request(body)`.
abbrev pub request : HttpClient → Bytes → TwitterClient → TwitterClient
request c body t = record t { sent = record { client = c; body = body } ∷ t.sent }

unfoldable pub shutdown : TwitterClient → TwitterClient
shutdown t = record t { ust = none; stopped = true }

module _ (c : Crypto) where
  -- `c->query = req.gen_request_signature(c->get_uri(), "GET").gen_getquery(); c->request();`, unless
  -- the signing threw.
  unfoldable pub after_get :
      HttpClient → TwitterClient → TokenRequester × Outcome → TwitterClient × Outcome
  after_get h t (r, threw) = (record t { req = r }, threw)
  after_get h t (r, returned) =
      (request (record h { query = gen_getquery r }) [] (record t { req = r }), returned)

  unfoldable pub get : HttpClient → Draw → TwitterClient → TwitterClient × Outcome
  unfolding after_get
  get h d t = after_get h t (gen_request_signature c (get_uri h) (codes "GET") d t.req)

  -- `ust` is set when the client is there: if it cannot be made, the old one stays.
  unfoldable pub make_userstream : Draw → TwitterClient → TwitterClient × Outcome
  unfolding get make_http_client
  make_userstream d t =
      make_http_client d (codes "userstream.twitter.com") (t, threw)
        λ h. get (userstream h) d (record t { ust = some t.next; next = t.next + 1 })

  unfoldable pub request_friends_timeline : Draw → TwitterClient → TwitterClient × Outcome
  unfolding get make_http_client
  request_friends_timeline d t =
      make_http_client d (codes "api.twitter.com") (t, threw)
        λ h. get (friends_timeline h) d (record t { next = t.next + 1 })

  -- `statuses_update` from the signing on. If it threw, the parameter "status" stays.
  pub after_post :
      HttpClient → Bytes → TwitterClient → TokenRequester × Outcome → TwitterClient × Outcome
  after_post h status t (r, threw) = (record t { req = r }, threw)
  after_post h status t (r, returned) =
      let signed = record r { params = erase (codes "status") r.params } in
      (
        request
            (record h {
              header =
                  assign (codes "Authorization") (codes "OAuth " ++ gen_postparam signed) h.header;
            })
            (codes "status=" ++ url_escape status) (record t { req = signed }),
        returned,
      )

  -- `statuses_update` behind `make_http_client`.
  unfoldable pub post : HttpClient → Bytes → Draw → TwitterClient → TwitterClient × Outcome
  unfolding after_post
  post h status d t = after_post h status t (
      gen_request_signature c (get_uri h) (codes "POST") d
        (record t.req { params = assign (codes "status") status t.req.params }))

  unfoldable pub statuses_update : Bytes → Draw → TwitterClient → TwitterClient × Outcome
  unfolding post make_http_client
  statuses_update status d t =
      make_http_client d (codes "api.twitter.com") (t, threw)
        λ h. post (update h) status d (record t { next = t.next + 1 })
