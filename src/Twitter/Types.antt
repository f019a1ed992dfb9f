-- ===== src/Twitter/Types.antt =====
-- The objects of twitter.hpp, and what its libraries compute.
use black_circle.Prelude.{ℕ, Bool, true, false, ◌≡◌, List, [], Option, none, Bytes}
use black_circle.Prelude.Int.{ℤ, pos}

-- Boost's date type and the C library, as far as twitter.hpp uses them.
pub record Platform : Type 1 where
  -- `boost::posix_time::ptime` with its `<`.
  pub Time : Type 0
  pub time_lt : Time → Time → Bool
  pub time_lt_irrefl : (a : Time) → time_lt a a ≡ false
  pub time_lt_trans : (a b c : Time) → time_lt a b ≡ true → time_lt b c ≡ true → time_lt a c ≡ true
  -- Reading with the facet "%a %b %d %H:%M:%S +0000 %Y", and writing in local time.
  pub parse_time : Bytes → Time
  pub time_string : Time → Bytes
  -- `strtoul(s, 0, 16)`.
  pub strtoul16 : Bytes → ℕ
  -- The values of a JSON number with a fraction.
  pub Double : Type 0

-- `twitter_user_object`; a `color_t` is its `value`.
pub record User (T : Type 0) : Type 0 where
  pub url : Bytes
  pub description : Bytes
  pub followers_count : ℕ
  pub time_zone : Bytes
  pub location : Bytes
  pub notifications : Bool
  pub friends_count : ℕ
  pub profile_sidebar_border_color : ℕ
  pub profile_image_url : Bytes
  pub statuses_count : ℕ
  pub profile_link_color : ℕ
  pub profile_background_color : ℕ
  pub lang : Bytes
  pub profile_background_image_url : Bytes
  pub favourites_count : ℕ
  pub profile_text_color : ℕ
  pub screen_name : Bytes
  pub contributors_enabled : Bool
  pub geo_enabled : Bool
  pub profile_background_tile : Bool
  pub protected : Bool
  pub following : Bool
  pub created_at : T
  pub profile_sidebar_fill_color : ℕ
  pub name : Bytes
  pub verified : Bool
  pub id : ℕ
  pub utc_offset : ℤ

-- `tweet_object`; `user_proxy` is the id of a user.
pub record Tweet (T : Type 0) : Type 0 where
  pub user : ℕ
  pub text : Bytes
  pub in_reply_to_status_id : Option ℕ
  pub retweeted_status_id : Option ℕ
  pub id : ℕ
  pub truncated : Bool
  pub favorited : Bool
  pub created_at : T
  pub source : Bytes
  pub in_reply_to_user_id : Option ℕ

-- What a member holds before it is set: the current time for a `datetime_t`, and whatever stands in
-- memory for a number or a `bool`.
pub record Fresh (T : Type 0) : Type 0 where
  pub now : T
  pub number : ℕ
  pub flag : Bool

module _ {T : Type 0} where
  unfoldable pub fresh_user : Fresh T → User T
  fresh_user f = record {
    url = [];
    description = [];
    followers_count = f.number;
    time_zone = [];
    location = [];
    notifications = f.flag;
    friends_count = f.number;
    profile_sidebar_border_color = 0;
    profile_image_url = [];
    statuses_count = f.number;
    profile_link_color = 0;
    profile_background_color = 0;
    lang = [];
    profile_background_image_url = [];
    favourites_count = f.number;
    profile_text_color = 0;
    screen_name = [];
    contributors_enabled = f.flag;
    geo_enabled = f.flag;
    profile_background_tile = f.flag;
    protected = f.flag;
    following = f.flag;
    created_at = f.now;
    profile_sidebar_fill_color = 0;
    name = [];
    verified = f.flag;
    id = f.number;
    utc_offset = pos f.number;
  }

  unfoldable pub fresh_tweet : Fresh T → Tweet T
  fresh_tweet f = record {
    user = f.number;
    text = [];
    in_reply_to_status_id = none;
    retweeted_status_id = none;
    id = f.number;
    truncated = f.flag;
    favorited = f.flag;
    created_at = f.now;
    source = [];
    in_reply_to_user_id = none;
  }

-- `stores`: users in the order of their ids; tweets in the order of `date_tag`, the order in which
-- both indices of a store are read.
pub record Stores (T : Type 0) : Type 0 where
  pub users : List (User T)
  pub tweets : List (Tweet T)
