-- ===== src/Twitter/Build/Keeps.antt =====
-- What every construction keeps, whether it returns or throws: a rule for predicates that single
-- insertions keep, and its instances.
use black_circle.Prelude.{ℕ, Bool, true, false, ◌≡◌, ◌∙◌, arith, Option, none, some, if◌then◌else◌}
use black_circle.Json.{Value, Fields, array, string, int, double, object, bool, null, end, field}
use black_circle.Twitter.Types.{Platform, User, Tweet, Fresh, Stores}
use black_circle.Twitter.UserStore.{
  find_user, has_name, insert_user, IsUserStore, insert_user-IsUserStore, find-insert_user,
}
use black_circle.Twitter.TweetStore.{
  find_tweet, insert_tweet, IsTweetStore, insert_tweet-IsTweetStore, find-insert_tweet,
}
use black_circle.Twitter.Build.{
  Builder, author_of, insert_author, after_nested, store_new, tweet_object, tweet_of, retweet_of,
  insert_new_tweet,
}

-- A predicate on the stores that no insertion breaks.
pub record IsKept (P : Platform) (Q : Stores P.Time → Type 0) : Type 0 where
  pub user :
      (u : User P.Time) (s : Stores P.Time) → Q s → Q (record s { users = insert_user u s.users })
  pub tweet :
      (t : Tweet P.Time) (s : Stores P.Time)
      → Q s
      → Q (record s { tweets = insert_tweet P t s.tweets })

module _ (P : Platform) (f : Fresh P.Time) (Q : Stores P.Time → Type 0) (kept : IsKept P Q) where
  open P use {Time, Double}

  abbrev Keeps : Option (Builder P f) → Type 0
  Keeps none = Unit
  Keeps (some b) = (s : Stores Time) → Q s → Q (b s).0

  insert_author-keeps : (a : User Time × Bool) (s : Stores Time) → Q s → Q (insert_author P f a s)
  unfolding insert_author
  insert_author-keeps (u, true) s h = kept.user u s h
  insert_author-keeps (u, false) s h = h

  after_nested-keeps :
      (o : Fields Double) (r : Stores Time × Option (Tweet Time))
      → Q r.0
      → Q (after_nested P f o r).0
  unfolding after_nested
  after_nested-keeps o (s, none) h = h
  after_nested-keeps o (s, some t) h = kept.tweet t s h

  store_new-keeps : (r : Stores Time × Option (Tweet Time)) → Q r.0 → Q (store_new P f r).0
  unfolding store_new
  store_new-keeps (s, none) h = h
  store_new-keeps (s, some t) h = kept.tweet t s h

  -- After the author is in, the rest of the constructor keeps the predicate.
  tweet_object-keeps :
      (o : Fields Double) (nested : Option (Builder P f))
      → Keeps nested
      → (s : Stores Time) → Q (insert_author P f (author_of P f o) s)
      → Q (tweet_object P f o nested s).0
  unfolding tweet_object
  tweet_object-keeps o none k s h = h
  tweet_object-keeps o (some b) k s h =
      after_nested-keeps o (b (insert_author P f (author_of P f o) s)) (k _ h)

  either-Keeps :
      (c : Bool) (x y : Option (Builder P f)) → Keeps x → Keeps y → Keeps (if c then x else y)
  either-Keeps true x y h k = h
  either-Keeps false x y h k = k

  mutual
    unfolding tweet_of retweet_of

    tweet_of-Keeps : (v : Value Double) → Keeps (tweet_of P f v)
    tweet_of-Keeps (object o) = λ s h.
        tweet_object-keeps o (retweet_of P f o) (retweet_of-Keeps o) s
          (insert_author-keeps (author_of P f o) s h)
    tweet_of-Keeps (array xs) = tt
    tweet_of-Keeps (string s) = tt
    tweet_of-Keeps (int z) = tt
    tweet_of-Keeps (double d) = tt
    tweet_of-Keeps (bool b) = tt
    tweet_of-Keeps null = tt

    retweet_of-Keeps : (o : Fields Double) → Keeps (retweet_of P f o)
    retweet_of-Keeps end = tt
    retweet_of-Keeps (field k v o) = either-Keeps _ _ _ (tweet_of-Keeps v) (retweet_of-Keeps o)

  insert_new_tweet-from :
      (o : Fields Double) (s : Stores Time)
      → Q (insert_author P f (author_of P f o) s)
      → Q (insert_new_tweet P f o s).0
  unfolding insert_new_tweet
  insert_new_tweet-from o s h =
      store_new-keeps _ (tweet_object-keeps o (retweet_of P f o) (retweet_of-Keeps o) s h)

  insert_new_tweet-keeps :
      (o : Fields Double) (s : Stores Time) → Q s → Q (insert_new_tweet P f o s).0
  insert_new_tweet-keeps o s h =
      insert_new_tweet-from o s (insert_author-keeps (author_of P f o) s h)

-- Both stores are well formed.
pub record IsStores (P : Platform) (s : Stores P.Time) : Type 0 where
  pub users_ok : IsUserStore s.users
  pub tweets_ok : IsTweetStore P s.tweets

IsStores-kept : (P : Platform) → IsKept P (IsStores P)
IsStores-kept P = record {
  user = λ u s h. record {
    users_ok = insert_user-IsUserStore u s.users h.users_ok;
    tweets_ok = h.tweets_ok;
  };
  tweet = λ t s h. record {
    users_ok = h.users_ok;
    tweets_ok = insert_tweet-IsTweetStore P t s.tweets h.tweets_ok;
  };
}

-- `s` has a user `u` under the id `i`, and a tweet `t` under the id `j`.
abbrev HasUser : {T : Type 0} → ℕ → User T → Stores T → Type 0
HasUser i u s = find_user i s.users ≡ some u

abbrev HasTweet : {T : Type 0} → ℕ → Tweet T → Stores T → Type 0
HasTweet j t s = find_tweet j s.tweets ≡ some t

HasUser-kept : (P : Platform) (i : ℕ) (u : User P.Time) → IsKept P (HasUser i u)
HasUser-kept P i u = record {
  user = λ v s h. find-insert_user i v s.users ∙ rw h;
  tweet = λ t s h. h;
}

HasTweet-kept : (P : Platform) (i : ℕ) (t : Tweet P.Time) → IsKept P (HasTweet i t)
HasTweet-kept P i t = record {
  user = λ v s h. h;
  tweet = λ x s h. find-insert_tweet P i x s.tweets ∙ rw h;
}

insert_author-found :
    (P : Platform) (f : Fresh P.Time) (u : User P.Time) (s : Stores P.Time)
    → find_user u.id s.users ≡ none
    → has_name u.screen_name s.users ≡ false
    → HasUser u.id u (insert_author P f (u, true) s)
unfolding insert_author
insert_author-found P f u s h n = find-insert_user u.id u s.users ∙ rw (h, n) (ground arith)

module _ (P : Platform) (f : Fresh P.Time) (o : Fields P.Double) (s : Stores P.Time) where
  -- `insert_new_tweet` keeps the stores well formed, also where the constructor throws half way: ids
  -- and screen names stay unique, and the tweets stay in the order of their dates.
  pub insert_new_tweet-IsStores : IsStores P s → IsStores P (insert_new_tweet P f o s).0
  insert_new_tweet-IsStores = insert_new_tweet-keeps P f (IsStores P) (IsStores-kept P) o s

  -- What the stores have they keep as it is: no user and no tweet is replaced or lost, whether
  -- `insert_new_tweet` returns or throws. The author of a tweet object, if the object gives one, is
  -- in the store afterwards as the object says, if the id is new and no other user has the screen
  -- name.
  pub insert_new_tweet-grows :
      ((i : ℕ) (u : User P.Time)
        → find_user i s.users ≡ some u
        → find_user i (insert_new_tweet P f o s).0.users ≡ some u)
      × ((i : ℕ) (t : Tweet P.Time)
          → find_tweet i s.tweets ≡ some t
          → find_tweet i (insert_new_tweet P f o s).0.tweets ≡ some t)
      × ((u : User P.Time)
          → author_of P f o ≡ (u, true)
          → find_user u.id s.users ≡ none
          → has_name u.screen_name s.users ≡ false
          → find_user u.id (insert_new_tweet P f o s).0.users ≡ some u)
  insert_new_tweet-grows = (
    λ i u h. insert_new_tweet-keeps P f (HasUser i u) (HasUser-kept P i u) o s h,
    λ i t h. insert_new_tweet-keeps P f (HasTweet i t) (HasTweet-kept P i t) o s h,
    λ u e h n.
        insert_new_tweet-from P f (HasUser u.id u) (HasUser-kept P u.id u) o s
          (rw e (insert_author-found P f u s h n)),
  )
