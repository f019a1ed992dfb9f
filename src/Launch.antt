-- ===== src/Launch.antt =====
-- `main` of black_circle.cc, from the options on.
pub mod Session
use black_circle.Prelude.{ℕ, Bool, false, ◌||◌, ◌++◌, [], none, Bytes, codes, if◌then◌else◌}
use black_circle.OAuth.{
  Crypto, Draw, Outcome, returned, threw, TokenRequester, token_requester, set_consumer, set_token,
}
use black_circle.Answers.Reader.{is_nil}
use black_circle.Client.{TwitterClient, make_userstream}
use black_circle.Auth.{Authoriser, do_initial_auth}

abbrev pub consumer_key : Bytes
consumer_key = codes "rsMOC9H8ktdcmyipPMO9g"

abbrev pub consumer_secret : Bytes
consumer_secret = codes "U6EiksBEvtQyZH54LVwEUPNpzvvnf3kJxAWBfKmUo0g"

-- What is read of the command line. "locale" only tells the output which encoding to use.
pub record Options : Type 0 where
  pub help : Bool
  pub auth : Bool
  pub token : Bytes
  pub secret : Bytes

-- `main` returns a status, or it runs the event loop for a first request for a token, or for a
-- client.
pub data Launch : Type 0 where
  exits : ℕ → Launch
  authorises : Authoriser → Launch
  runs : TwitterClient → Launch

-- An exception ends `main` with this status.
abbrev pub failure : Launch
failure = exits 200

abbrev pub after_auth : Authoriser × Outcome → Launch
after_auth (a, returned) = authorises a
after_auth (a, threw) = failure

-- The constructor of `twitter_client` throws if its connection is not made or the signing fails.
abbrev pub after_client : TwitterClient × Outcome → Launch
after_client (t, returned) = runs t
after_client (t, threw) = failure

-- The members of a `twitter_client` before the body of its constructor.
abbrev pub members_of : TokenRequester → TwitterClient
members_of r = record { req = r; ust = none; next = 0; sent = []; stopped = false }

module _ (c : Crypto) where
  -- `twitter_client::twitter_client`.
  unfoldable pub twitter_client : Draw → TokenRequester → TwitterClient × Outcome
  twitter_client d r = make_userstream c d (members_of r)

  -- `d1` is drawn by the first signature of a run, `d2` by the second.
  unfoldable pub main : Draw → Draw → Options → Launch
  unfolding twitter_client
  main d1 d2 o =
      let req = set_consumer consumer_key consumer_secret token_requester in
      if o.help
      then exits 0
      else if o.auth
      then after_auth (do_initial_auth c d1 d2 (record { req = req; sent = []; printed = [] }))
      else if is_nil o.token || is_nil o.secret
      then exits 1
      else after_client (twitter_client d1 (set_token o.token o.secret req))
