-- ===== src/Stream.antt =====
-- The user stream of black_circle.cc as a whole: `http_client` hands the responses that it reads to
-- `twitter_client::http_handler`, one after the other.
pub mod Tweets
use black_circle.Prelude.{ℕ, true, List, [], ◌∷◌, Option, some, Bytes}
use black_circle.Json.{Value}
use black_circle.OAuth.{Crypto, Draw, returned, threw}
use black_circle.Http.{Response}
use black_circle.Twitter.Types.{Platform, Fresh, Stores}
use black_circle.Client.{TwitterClient}
use black_circle.Client.Handler.{Handled, api_user_stream, http_handler}

module _ (P : Platform) (f : Fresh P.Time) (parse_json : Bytes → Option (Value P.Double))
    (c : Crypto) (d : Draw) where
  open P use {Time}

  -- The responses of the connection `p`, which stays open meanwhile. A handler that throws ends the
  -- reading.
  unfoldable pub deliver :
      ℕ → List Response → TwitterClient → Stores Time → TwitterClient × Stores Time
  deliver p [] t s = (t, s)
  deliver p (r ∷ rs) t s =
      let h = http_handler P f parse_json c d api_user_stream p (some r) true t s in
      let rest = deliver p rs h.client h.stores in
      elim h.outcome [ returned ↦ rest | threw ↦ (h.client, h.stores) ]
