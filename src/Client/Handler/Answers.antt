-- ===== src/Client/Handler/Answers.antt =====
-- What `http_handler` keeps, and when it opens a new user stream.
use black_circle.Prelude.{
  ℕ, ◌+◌, Bool, true, false, not, ◌≡◌, arith, Option, none, some, inl, inr, Option-cases, Bytes,
  length, ◌==◌,
}
use black_circle.Json.{Value, get_array}
use black_circle.OAuth.{Crypto, Draw, Outcome, returned, threw}
use black_circle.Http.{Response}
use black_circle.Twitter.Types.{Platform, Fresh, Stores}
use black_circle.Twitter.Build.Keeps.{IsStores}
use black_circle.Entity.Outcome.{process_single_entity-IsStores, for_each_reversed-IsStores}
use black_circle.Client.{TwitterClient}
use black_circle.Client.Session.{IsSession, Act-IsSession, listen}
use black_circle.Client.Handler.{
  ApiType, api_user_stream, api_friends_timeline, api_statuses_update, is_stream, is_closed,
  handle_value, handle_text, handle_response, after_check, listen_if, http_handler,
}

-- Whether the user stream is lost: its own connection ended, or an answer finds it closed.
abbrev pub lost : ℕ → Option Response → Bool → Option ℕ → Bool
lost p _ connected none = false
lost p none connected (some u) = p == u
lost p (some _) connected (some u) = not connected

-- The requests that a call sends which ends in this way.
abbrev pub requests : Outcome → ℕ
requests returned = 1
requests threw = 0

-- What listening again means for the client `u` after the handler, by whether the connection is made.
abbrev pub Listens : Bool → Bool → Outcome → TwitterClient → TwitterClient → Type 0
Listens true true o t u = (u.ust ≡ some t.next) × (length u.sent ≡ length t.sent + requests o)
Listens true false o t u = (o ≡ threw) × (u ≡ t)
Listens false b o t u = (o ≡ returned) × (u ≡ t)

module _ (P : Platform) (f : Fresh P.Time) (parse_json : Bytes → Option (Value P.Double)) where
  open P use {Time, Double}

  handle_value-IsStores :
      (api : ApiType) (text : Bytes) (v : Value Double) (s : Stores Time)
      → IsStores P s
      → IsStores P (handle_value P f api text v s).0
  unfolding handle_value
  handle_value-IsStores api_user_stream text v s h =
      ground (arith, process_single_entity-IsStores P f v s h)
  handle_value-IsStores api_friends_timeline text v s h = elim (Option-cases (get_array v)) [
    | inl e ↦ rw (e, handle_value) h
    | inr (xs, e) ↦ rw (e, handle_value) (for_each_reversed-IsStores P f xs s h)
  ]
  handle_value-IsStores api_statuses_update text v s h = h

  handle_text-IsStores :
      (api : ApiType) (text : Bytes) (s : Stores Time)
      → IsStores P s
      → IsStores P (handle_text P f parse_json api text s).0
  unfolding handle_text
  handle_text-IsStores api text s h = elim (Option-cases (parse_json text)) [
    | inl e ↦ rw (e, handle_text) h
    | inr (v, e) ↦ rw (e, handle_text) (handle_value-IsStores api text v s h)
  ]

  handle_response-IsStores :
      (api : ApiType) (r : Response) (s : Stores Time)
      → IsStores P s
      → IsStores P (handle_response P f parse_json api r s).0
  unfolding handle_response
  handle_response-IsStores api r s h = ground (arith, handle_text-IsStores api r.content s h)

  module _ (c : Crypto) (d : Draw) where
    listen_if-IsSession :
        (key : Bytes) (b : Bool) (t : TwitterClient)
        → IsSession c key t
        → IsSession c key (listen_if P f parse_json c d b t).0
    listen_if-IsSession key true t h = Act-IsSession (listen t d) h
    listen_if-IsSession key false t h = h

    after_check-keeps :
        (key : Bytes) (api : ApiType) (r : Response) (s : Stores Time) (u : TwitterClient × Outcome)
        → IsSession c key u.0
        → IsStores P s
        → IsSession c key (after_check P f parse_json api r s u).client
          × IsStores P (after_check P f parse_json api r s u).stores
    unfolding after_check
    after_check-keeps key api r s (t, threw) h k = (h, k)
    after_check-keeps key api r s (t, returned) h k = (h, handle_response-IsStores api r s k)

    -- Whatever the server answers, or if no answer is handed over, and however the handler itself
    -- ends, by a signing that throws or a connection that is not made too: all that the client has sent is
    -- still accepted by a server with its key, and the stores stay well formed.
    pub http_handler-keeps :
        (key : Bytes) (api : ApiType) (p : ℕ) (answer : Option Response) (connected : Bool)
        (t : TwitterClient) (s : Stores Time)
        → IsSession c key t
        → IsStores P s
        → IsSession c key (http_handler P f parse_json c d api p answer connected t s).client
          × IsStores P (http_handler P f parse_json c d api p answer connected t s).stores
    unfolding http_handler
    http_handler-keeps key api p none connected t s h k =
        (listen_if-IsSession key (is_stream p t.ust) t h, k)
    http_handler-keeps key api p (some r) connected t s h k =
        after_check-keeps key api r s _ (listen_if-IsSession key (is_closed connected t.ust) t h) k
