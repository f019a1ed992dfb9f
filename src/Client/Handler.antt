-- ===== src/Client/Handler.antt =====
-- `http_handler` of `twitter_client`: what an answer, or the end of a connection, brings about.
pub mod Answers
pub mod Objects
use black_circle.Prelude.{
  ℕ, Bool, true, false, not, ◌&&◌, ◌||◌, List, [], ◌∷◌, Option, none, some, Bytes, ◌==◌,
  if◌then◌else◌,
}
use black_circle.Prelude.Int.{ℤ, pos, negsuc}
use black_circle.Http.{Response}
use black_circle.Json.{Value, Items, get_array}
use black_circle.OAuth.{Crypto, Draw, Outcome, returned, threw}
use black_circle.Twitter.Types.{Platform, Fresh, Stores}
use black_circle.Entity.{Reply, process_single_entity, for_each_reversed}
use black_circle.Client.{TwitterClient, make_userstream}

pub data ApiType : Type 0 where
  api_user_stream api_friends_timeline api_statuses_update : ApiType

-- What is printed: a rejection, a warning about a text that `parse_json` or `boost::get` refused, or
-- the replies of `process_single_entity`, the last one first; one that threw ends in a warning too.
pub data Report : Type 0 where
  nothing warned : Report
  rejected : Bytes → Bytes → Report
  replies : List Reply → Report

abbrev pub is_ok : ℤ → Bool
is_ok (pos n) = n == 200
is_ok (negsuc n) = false

-- `s.find('{') != s.npos`.
abbrev pub has_brace : Bytes → Bool
has_brace [] = false
has_brace (c ∷ s) = c == b'{' || has_brace s

-- `p == ust`.
abbrev pub is_stream : ℕ → Option ℕ → Bool
is_stream p none = false
is_stream p (some u) = p == u

-- `ust && !ust->connected()`.
abbrev pub is_closed : Bool → Option ℕ → Bool
is_closed connected none = false
is_closed connected (some u) = not connected

-- The client, the stores, what is printed, and whether the handler threw.
pub record Handled (T : Type 0) : Type 0 where
  pub client : TwitterClient
  pub stores : Stores T
  pub report : Report
  pub outcome : Outcome

module _ (P : Platform) (f : Fresh P.Time) where
  open P use {Time, Double}

  pub handle_value : ApiType → Bytes → Value Double → Stores Time → Stores Time × Report
  handle_value api_user_stream text v s =
      if has_brace text
      then ((process_single_entity P f v s).0, replies ((process_single_entity P f v s).1 ∷ []))
      else (s, nothing)
  handle_value api_friends_timeline text v s = elim (get_array v) [
    | none ↦ (s, warned)
    | some xs ↦ ((for_each_reversed P f xs s).0, replies (for_each_reversed P f xs s).1)
  ]
  handle_value api_statuses_update text v s = (s, nothing)

  -- `json::parse_json`, which throws on what it cannot read, is a parameter.
  module _ (parse_json : Bytes → Option (Value Double)) where
    pub handle_text : ApiType → Bytes → Stores Time → Stores Time × Report
    unfolding handle_value
    handle_text api text s = elim (parse_json text) [
      | none ↦ (s, warned)
      | some v ↦ handle_value api text v s
    ]

    pub handle_response : ApiType → Response → Stores Time → Stores Time × Report
    unfolding handle_text
    handle_response api r s =
        if is_ok r.code then handle_text api r.content s else (s, rejected r.reason r.content)

    -- The handler from the status on, unless `make_userstream` threw.
    pub after_check : ApiType → Response → Stores Time → TwitterClient × Outcome → Handled Time
    unfolding handle_response
    after_check api r s (t, threw) = record {
      client = t;
      stores = s;
      report = nothing;
      outcome = threw;
    }
    after_check api r s (t, returned) = record {
      client = t;
      stores = (handle_response api r s).0;
      report = (handle_response api r s).1;
      outcome = returned;
    }

    module _ (c : Crypto) (d : Draw) where
      abbrev pub listen_if : Bool → TwitterClient → TwitterClient × Outcome
      listen_if b t = if b then make_userstream c d t else (t, returned)

      -- `p` is the connection that the answer came from, and `connected` that of the user stream.
      unfoldable pub http_handler :
          ApiType → ℕ → Option Response → Bool → TwitterClient → Stores Time → Handled Time
      unfolding after_check
      http_handler api p none connected t s =
          let r = listen_if (is_stream p t.ust) t in
          record { client = r.0; stores = s; report = nothing; outcome = r.1 }
      http_handler api p (some r) connected t s =
          after_check api r s (listen_if (is_closed connected t.ust) t)
