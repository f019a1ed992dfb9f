-- ===== src/Twitter/Build.antt =====
-- The constructors of twitter.cc that take a JSON object, and `insert_new_tweet`. An exception leaves
-- what was written to the stores before it. Every object that is being made, the nested ones too,
-- finds the same values in its unset members.
pub mod Keeps
pub mod Found
pub mod Stored
pub mod Members
use mathlib.Core.Option
use black_circle.Prelude.{
  ℕ, ◌%◌, ◌^◌, Bool, true, false, ◌&&◌, List, map, Option, none, some, Bytes, codes, bytes_eq, ◌==◌,
  if◌then◌else◌,
}
use black_circle.Prelude.Int.{ℤ, to_uint64}
use black_circle.Json
use black_circle.Json.{
  Value, Fields, array, string, int, double, object, bool, null, end, field, get_string, get_int,
  get_object, get_bool,
}
use black_circle.Twitter.Types.{Platform, User, Tweet, Fresh, fresh_user, fresh_tweet, Stores}
use black_circle.Twitter.UserStore.{insert_user}
use black_circle.Twitter.TweetStore.{insert_tweet}

abbrev pub is_null : {D : Type 0} → Value D → Bool
is_null null = true
is_null _ = false

-- `set_if_found(v, o, name)`: the new value of `v`, and what it returns. `get` is `boost::get<replT>`
-- and `conv` the assignment of a `replT` to a `T`.
unfoldable pub set_if_found :
    {D R T : Type 0} → (Value D → Option R) → (R → T) → T → Fields D → Bytes → T × Bool
unfolding Json.find
set_if_found get conv v o name = elim (Json.find name o) [
  | none ↦ (v, false)
  | some x ↦
      if is_null x then (v, false) else elim (get x) [ none ↦ (v, false) | some r ↦ (conv r, true) ]
]

-- `std::replace(begin, end, '\r', '\n')`.
abbrev pub replace_cr : Bytes → Bytes
replace_cr = map (λ c. if c == b'\r' then b'\n' else c)

module _ (P : Platform) (f : Fresh P.Time) where
  open P use {Time, Double, parse_time, strtoul16}

  -- The members by their types.
  abbrev text_of : Bytes → Fields Double → Bytes → Bytes × Bool
  text_of = set_if_found get_string (λ s. s)

  abbrev flag_of : Bool → Fields Double → Bytes → Bool × Bool
  flag_of = set_if_found get_bool (λ b. b)

  abbrev uint64_of : ℕ → Fields Double → Bytes → ℕ × Bool
  uint64_of = set_if_found get_int to_uint64

  abbrev int64_of : ℤ → Fields Double → Bytes → ℤ × Bool
  int64_of = set_if_found get_int (λ z. z)

  abbrev optional_of : Option ℕ → Fields Double → Bytes → Option ℕ × Bool
  optional_of = set_if_found get_int (λ z. some (to_uint64 z))

  -- `color_t(const string &)`: an `unsigned long` put into a `uint32_t`.
  abbrev color_of : ℕ → Fields Double → Bytes → ℕ × Bool
  color_of = set_if_found get_string (λ s. strtoul16 s % 2 ^ 32)

  abbrev time_of : Time → Fields Double → Bytes → Time × Bool
  time_of = set_if_found get_string parse_time

  -- `twitter_user_object(const json::json_object_map &)`.
  unfoldable pub user_of : Fields Double → User Time
  user_of o =
      let u = fresh_user f in
      record {
        url = (text_of u.url o (codes "url")).0;
        description = (text_of u.description o (codes "description")).0;
        followers_count = (uint64_of u.followers_count o (codes "followers_count")).0;
        time_zone = (text_of u.time_zone o (codes "time_zone")).0;
        location = (text_of u.location o (codes "location")).0;
        notifications = (flag_of u.notifications o (codes "notifications")).0;
        friends_count = (uint64_of u.friends_count o (codes "friends_count")).0;
        profile_sidebar_border_color =
            (color_of u.profile_sidebar_border_color o (codes "profile_sidebar_border_color")).0;
        profile_image_url = (text_of u.profile_image_url o (codes "profile_image_url")).0;
        statuses_count = (uint64_of u.statuses_count o (codes "statuses_count")).0;
        profile_link_color = (color_of u.profile_link_color o (codes "profile_link_color")).0;
        profile_background_color =
            (color_of u.profile_background_color o (codes "profile_background_color")).0;
        lang = (text_of u.lang o (codes "lang")).0;
        profile_background_image_url =
            (text_of u.profile_background_image_url o (codes "profile_background_image_url")).0;
        favourites_count = (uint64_of u.favourites_count o (codes "favourites_count")).0;
        profile_text_color = (color_of u.profile_text_color o (codes "profile_text_color")).0;
        screen_name = (text_of u.screen_name o (codes "screen_name")).0;
        contributors_enabled = (flag_of u.contributors_enabled o (codes "contributors_enabled")).0;
        geo_enabled = (flag_of u.geo_enabled o (codes "geo_enabled")).0;
        profile_background_tile =
            (flag_of u.profile_background_tile o (codes "profile_background_tile")).0;
        protected = (flag_of u.protected o (codes "protected")).0;
        following = (flag_of u.following o (codes "following")).0;
        created_at = (time_of u.created_at o (codes "created_at")).0;
        profile_sidebar_fill_color =
            (color_of u.profile_sidebar_fill_color o (codes "profile_sidebar_fill_color")).0;
        name = (text_of u.name o (codes "name")).0;
        verified = (flag_of u.verified o (codes "verified")).0;
        id = (uint64_of u.id o (codes "id")).0;
        utc_offset = (int64_of u.utc_offset o (codes "utc_offset")).0;
      }

  -- A constructor call on the stores: the tweet, or `none` if it threw.
  abbrev pub Builder : Type 0
  Builder = Stores Time → Stores Time × Option (Tweet Time)

  -- The local `user_` after `TW_SET_IF_FOUND(user, o)`.
  unfoldable pub author_of : Fields Double → User Time × Bool
  author_of o = set_if_found get_object user_of (fresh_user f) o (codes "user")

  -- What the constructor does with it.
  unfoldable pub insert_author : User Time × Bool → Stores Time → Stores Time
  insert_author (u, true) s = record s { users = insert_user u s.users }
  insert_author (u, false) s = s

  -- The members set after the nested tweet, and the `b` of the final test. `rid` is the
  -- `retweeted_status_id_` so far.
  unfoldable pub members : Fields Double → Option ℕ → Tweet Time × Bool
  members o rid =
      let t = fresh_tweet f in
      let author = author_of o in
      let text = text_of t.text o (codes "text") in
      let id = uint64_of t.id o (codes "id") in
      let created = time_of t.created_at o (codes "created_at") in
      (
        record {
          user = if author.1 then (author.0).id else t.user;
          text = replace_cr text.0;
          in_reply_to_status_id =
              (optional_of t.in_reply_to_status_id o (codes "in_reply_to_status_id")).0;
          retweeted_status_id = (optional_of rid o (codes "retweeted_status_id")).0;
          id = id.0;
          truncated = (flag_of t.truncated o (codes "truncated")).0;
          favorited = (flag_of t.favorited o (codes "favorited")).0;
          created_at = created.0;
          source = (text_of t.source o (codes "source")).0;
          in_reply_to_user_id =
              (optional_of t.in_reply_to_user_id o (codes "in_reply_to_user_id")).0;
        },
        author.1 && (text.1 && (id.1 && created.1)),
      )

  -- `if (!b) throw std::runtime_error("properties not found")`.
  unfoldable pub finish : Tweet Time × Bool → Option (Tweet Time)
  finish (t, b) = if b then some t else none

  -- The constructor from the insertion of the nested tweet on, unless its constructor threw.
  pub after_nested :
      Fields Double → Stores Time × Option (Tweet Time) → Stores Time × Option (Tweet Time)
  after_nested o (s, none) = (s, none)
  after_nested o (s, some t) =
      (record s { tweets = insert_tweet P t s.tweets }, finish (members o (some t.id)))

  -- `tweet_object(const json::json_object_map &o)`. `nested` is the construction of the object under
  -- "retweeted_status", if there is one.
  unfoldable pub tweet_object : Fields Double → Option Builder → Builder
  tweet_object o none s = (insert_author (author_of o) s, finish (members o none))
  tweet_object o (some nested) s = after_nested o (nested (insert_author (author_of o) s))

  -- The construction from a value that is an object, and from the field "retweeted_status".
  unfoldable mutual
    pub tweet_of : Value Double → Option Builder
    tweet_of (object o) = some (tweet_object o (retweet_of o))
    tweet_of (array xs) = none
    tweet_of (string s) = none
    tweet_of (int z) = none
    tweet_of (double d) = none
    tweet_of (bool b) = none
    tweet_of null = none

    pub retweet_of : Fields Double → Option Builder
    retweet_of end = none
    retweet_of (field k v o) =
        if bytes_eq (codes "retweeted_status") k then tweet_of v else retweet_of o

  pub store_new : Stores Time × Option (Tweet Time) → Stores Time × Option ℕ
  store_new (s, none) = (s, none)
  store_new (s, some t) = (record s { tweets = insert_tweet P t s.tweets }, some t.id)

  -- `insert_new_tweet`: the id, or `none` if the constructor threw.
  unfoldable pub insert_new_tweet : Fields Double → Stores Time → Stores Time × Option ℕ
  unfolding store_new
  insert_new_tweet o s = store_new (tweet_object o (retweet_of o) s)
