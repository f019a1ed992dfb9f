-- ===== src/Client/Session.antt =====
-- What a client sends over its whole life.
use black_circle.Prelude.{
  ◌+◌, true, ◌≡◌, refl, sym, ◌∙◌, subst, arith, [], ◌++◌, some, Bytes, AllBytes, codes,
  bytes_eq_iff, All,
}
use black_circle.Util.Escape.{url_escape}
use black_circle.StringMap.{StringMap, find, assign, erase, IsSorted}
use black_circle.StringMap.Laws.{
  assign-IsSorted, erase-IsSorted, find-assign, find-erase, eq_of_find,
}
use black_circle.OAuth.{
  Crypto, Draw, Outcome, returned, threw, TokenRequester, gen_request_signature, gen_getquery,
  signing_key, gen_postparam,
}
use black_circle.OAuth.Invariant.{
  IsValid, IsFree, assign-IsValid, erase-IsValid, gen_request_signature-IsValid,
}
use black_circle.OAuth.Frame.{Signed, gen_request_signature-Signed}
use black_circle.OAuth.Server.{all_unreserved, secrets_key, secrets_key_lem, accepts}
use black_circle.OAuth.Verify.{
  accepts_query, accepts_query-signing_key, accepts_post, accepts_post-gen_postparam,
  accepts-gen_request_signature,
}
use black_circle.Http.{HttpClient, get_uri}
use black_circle.Client.{
  Sent, TwitterClient, userstream, friends_timeline, update, after_get, get, make_userstream,
  client_of, make_http_client, make_http_client-both, post, request_friends_timeline, after_post,
  statuses_update, shutdown,
}

-- A request that a server of the OAuth core with the key `key` accepts: a GET by its query; a POST
-- by the parameters that it reads from the `Authorization` and from the body.
pub data IsSigned (c : Crypto) (key : Bytes) : Sent → Type 0 where
  by_query :
      (h : HttpClient)
      → accepts_query c key (get_uri h) (codes "GET") h.query ≡ true
      → IsSigned c key (record { client = h; body = [] })
  by_header :
      (h : HttpClient) (authorization body : Bytes)
      → find (codes "Authorization") h.header ≡ some authorization
      → accepts_post c key (get_uri h) authorization body ≡ true
      → IsSigned c key (record { client = h; body = body })

-- What holds of a client all the time.
pub record IsSession (c : Crypto) (key : Bytes) (t : TwitterClient) : Type 0 where
  pub valid : IsValid t.req.params
  pub same_key : signing_key t.req ≡ key
  pub all_signed : All (IsSigned c key) t.sent

status-IsFree : IsFree (codes "status")
status-IsFree = record { not_method = refl; not_version = refl; key = omega arith; plain = refl }

-- A parameter that is taken away can be set again.
assign-erase :
    (k v : Bytes) (m : StringMap Bytes)
    → IsSorted m
    → find k m ≡ some v
    → assign k v (erase k m) ≡ m
assign-erase k v m s h =
    eq_of_find _ m (assign-IsSorted k v _ (erase-IsSorted k m s)) s
      λ j. ground (arith, find-assign j k v (erase k m), find-erase j k m s, bytes_eq_iff j k)

module _ (c : Crypto) (key : Bytes) where
  signing_key-Signed :
      (d : Draw) (uri : Bytes) (r s : TokenRequester)
      → Signed c d uri r s
      → signing_key s ≡ signing_key r
  signing_key-Signed d uri r s h = rw (h.consumer_kept, h.token_kept)

  after_get-IsSession :
      (h : HttpClient) (t : TwitterClient) (r : TokenRequester × Outcome)
      → IsSession c key t
      → IsValid r.0.params
      → signing_key r.0 ≡ key
      → (r.1 ≡ returned → accepts_query c key (get_uri h) (codes "GET") (gen_getquery r.0) ≡ true)
      → IsSession c key (after_get c h t r).0
  unfolding after_get
  after_get-IsSession h t (r, threw) s v k a = record {
    valid = v;
    same_key = k;
    all_signed = s.all_signed;
  }
  after_get-IsSession h t (r, returned) s v k a = record {
    valid = v;
    same_key = k;
    all_signed = (by_query (record h { query = gen_getquery r }) (a refl), s.all_signed);
  }

  get-IsSession :
      (h : HttpClient) (d : Draw) (t : TwitterClient)
      → IsSession c key t
      → IsSession c key (get c h d t).0
  unfolding get
  get-IsSession h d t s =
      let uri = get_uri h in
      let r = gen_request_signature c uri (codes "GET") d t.req in
      after_get-IsSession h t r s
        (gen_request_signature-IsValid c d uri (codes "GET") t.req s.valid)
        (signing_key-Signed d uri t.req r.0
            (gen_request_signature-Signed c d uri (codes "GET") t.req s.valid.sorted).0
          ∙ s.same_key)
        (λ ok.
          subst (λ k. accepts_query c k uri (codes "GET") (gen_getquery r.0) ≡ true) s.same_key
            (accepts_query-signing_key c uri (codes "GET") d t.req s.valid ok))

  after_post-IsSession :
      (h : HttpClient) (status : Bytes) (t : TwitterClient) (r : TokenRequester × Outcome)
      → AllBytes status
      → IsSession c key t
      → IsValid r.0.params
      → signing_key r.0 ≡ key
      → find (codes "status") r.0.params ≡ some status
      → (r.1 ≡ returned → accepts c key (get_uri h) (codes "POST") r.0.params ≡ true)
      → IsSession c key (after_post c h status t r).0
  unfolding after_post
  after_post-IsSession h status t (r, threw) b s v k f a = record {
    valid = v;
    same_key = k;
    all_signed = s.all_signed;
  }
  after_post-IsSession h status t (r, returned) b s v k f a =
      let signed = record r { params = erase (codes "status") r.params } in
      let authorization = codes "OAuth " ++ gen_postparam signed in
      let w = erase-IsValid (codes "status") r.params status-IsFree v in
      record {
        valid = w;
        same_key = k;
        all_signed = (
          by_header (record h { header = assign (codes "Authorization") authorization h.header })
              authorization (codes "status=" ++ url_escape status)
              (find-assign (codes "Authorization") (codes "Authorization") authorization h.header)
              (accepts_post-gen_postparam c key (get_uri h) (codes "status") status signed r.params
                w (status-IsFree.key.0, status-IsFree.key.1, b)
                (find-erase (codes "status") (codes "status") r.params v.sorted)
                (assign-erase (codes "status") status r.params v.sorted f) v.sorted (a refl)),
          s.all_signed,
        );
      }

  post-IsSession :
      (h : HttpClient) (status : Bytes) (d : Draw) (t : TwitterClient)
      → AllBytes status
      → IsSession c key t
      → IsSession c key (post c h status d t).0
  unfolding post
  post-IsSession h status d t b s =
      let uri = get_uri h in
      let q = record t.req { params = assign (codes "status") status t.req.params } in
      let v = assign-IsValid (codes "status") status t.req.params status-IsFree b s.valid in
      let r = gen_request_signature c uri (codes "POST") d q in
      let signed = (gen_request_signature-Signed c d uri (codes "POST") q v.sorted).0 in
      after_post-IsSession h status t r b s
        (gen_request_signature-IsValid c d uri (codes "POST") q v)
        (signing_key-Signed d uri q r.0 signed ∙ s.same_key)
        (signed.others (codes "status") refl refl refl
          ∙ find-assign (codes "status") (codes "status") status t.req.params)
        (λ ok.
          subst (λ k. accepts c k uri (codes "POST") r.0.params ≡ true) s.same_key
            (accepts-gen_request_signature c uri (codes "POST") d q v ok))

-- The calls of a client. The text of a status is bytes.
pub data Act (c : Crypto) : TwitterClient → TwitterClient → Type 0 where
  listen : (t : TwitterClient) (d : Draw) → Act c t (make_userstream c d t).0
  timeline : (t : TwitterClient) (d : Draw) → Act c t (request_friends_timeline c d t).0
  tweet :
      (t : TwitterClient) (status : Bytes) (d : Draw)
      → AllBytes status
      → Act c t (statuses_update c status d t).0
  stop : (t : TwitterClient) → Act c t (shutdown t)

-- What the calls make of a client that starts as `t`.
pub data Acts (c : Crypto) (t : TwitterClient) : TwitterClient → Type 0 where
  start : Acts c t t
  act : {u v : TwitterClient} → Acts c t u → Act c u v → Acts c t v

-- What a call keeps whose connection may not be made.
connected-IsSession :
    {c : Crypto} {key : Bytes} (d : Draw) (host : Bytes) (t : TwitterClient)
    (next : HttpClient → TwitterClient × Outcome)
    → IsSession c key t
    → IsSession c key (next (client_of host)).0
    → IsSession c key (make_http_client d host (t, threw) next).0
connected-IsSession {c = c} {key = key} d host t next =
    make_http_client-both (λ r. IsSession c key r.0) d host (t, threw) next

pub Act-IsSession :
    {c : Crypto} {key : Bytes} {t u : TwitterClient}
    → Act c t u
    → IsSession c key t
    → IsSession c key u
unfolding make_userstream request_friends_timeline statuses_update shutdown
Act-IsSession {c = c} {key = key} (listen t d) s =
    connected-IsSession d (codes "userstream.twitter.com") t
      (λ h. get c (userstream h) d (record t { ust = some t.next; next = t.next + 1 })) s
      (get-IsSession c key (userstream (client_of (codes "userstream.twitter.com"))) d
        (record t { ust = some t.next; next = t.next + 1 })
        (record { valid = s.valid; same_key = s.same_key; all_signed = s.all_signed }))
Act-IsSession {c = c} {key = key} (timeline t d) s =
    connected-IsSession d (codes "api.twitter.com") t
      (λ h. get c (friends_timeline h) d (record t { next = t.next + 1 })) s
      (get-IsSession c key (friends_timeline (client_of (codes "api.twitter.com"))) d
        (record t { next = t.next + 1 })
        (record { valid = s.valid; same_key = s.same_key; all_signed = s.all_signed }))
Act-IsSession {c = c} {key = key} (tweet t status d b) s =
    connected-IsSession d (codes "api.twitter.com") t
      (λ h. post c (update h) status d (record t { next = t.next + 1 })) s
      (post-IsSession c key (update (client_of (codes "api.twitter.com"))) status d
        (record t { next = t.next + 1 }) b
        (record { valid = s.valid; same_key = s.same_key; all_signed = s.all_signed }))
Act-IsSession (stop t) s = record {
  valid = s.valid;
  same_key = s.same_key;
  all_signed = s.all_signed;
}

pub Acts-IsSession :
    {c : Crypto} {t u : TwitterClient}
    → IsValid t.req.params
    → all_unreserved t.req.consumer_secret ≡ true
    → all_unreserved t.req.token_secret ≡ true
    → t.sent ≡ []
    → Acts c t u
    → IsSession c (secrets_key t.req.consumer_secret t.req.token_secret) u
Acts-IsSession {c = c} {t = t} v hc ht e start = record {
  valid = v;
  same_key = sym (secrets_key_lem t.req.consumer_secret t.req.token_secret hc ht);
  all_signed = rw e tt;
}
Acts-IsSession v hc ht e (act a s) = Act-IsSession s (Acts-IsSession v hc ht e a)
