-- ===== src/Twitter/Build/Members.antt =====
-- What is stored for a tweet object.
use black_circle.Prelude.{
  ℕ, Bool, true, false, ◌≡◌, ◌≢◌, refl, sym, ◌∙◌, arith, List, [], ◌∷◌, none, some, Bytes, codes,
  All,
}
use black_circle.Prelude.Int.{ℤ, to_uint64}
use mathlib.Core.Option.{some-injective}
use black_circle.Json
use black_circle.Json.{
  Value, Fields, array, string, int, double, object, bool, null, end, field, get_string, get_int,
  get_object,
}
use black_circle.Twitter.Types.{Platform, Tweet, Fresh, Stores, fresh_user, fresh_tweet}
use black_circle.Twitter.UserStore.{insert_user}
use black_circle.Twitter.TweetStore.{find_tweet, insert_tweet, find-insert_tweet}
use black_circle.Twitter.Build.Found.{value_string, value_int, value_object}
use black_circle.Twitter.Build.Stored.{insert_new_tweet-returns, members-HasRequired}
use black_circle.Twitter.Build.{
  user_of, author_of, replace_cr, insert_author, members, finish, tweet_object, retweet_of,
  insert_new_tweet,
}

finish-true :
    (P : Platform) (f : Fresh P.Time) (r : Tweet P.Time × Bool)
    → r.1 ≡ true
    → finish P f r ≡ some r.0
unfolding finish
finish-true P f (t, true) h = refl
finish-true P f (t, false) h = cc

module _ (P : Platform) (f : Fresh P.Time) (o : Fields P.Double) where
  open P use {Time}

  no_cr : (s : Bytes) → All (λ c. c ≢ b'\r') (replace_cr s)
  no_cr [] = tt
  no_cr (c ∷ s) = (ground arith, no_cr s)

  pub made : Tweet Time
  made = (members P f o none).0

  -- The run on an object with the required members that repeats no tweet.
  pub plain_run :
      (s : Stores Time) (m : Fields P.Double)
      → author_of P f o ≡ (user_of P f m, true)
      → retweet_of P f o ≡ none
      → (members P f o none).1 ≡ true
      → insert_new_tweet P f o s ≡ (
        record {
          users = insert_user (user_of P f m) s.users;
          tweets = insert_tweet P made s.tweets;
        },
        some made.id,
      )
  unfolding insert_new_tweet tweet_object insert_author finish made
  plain_run s m a r q = rw r (rw a (rw (finish-true P f (members P f o none) q)))

  pub stored :
      (l : List (Tweet Time)) (i : ℕ)
      → made.id ≡ i
      → find_tweet i l ≡ none
      → find_tweet i (insert_tweet P made l) ≡ some made
  stored l i e new = find-insert_tweet P i made l ∙ rw new (ground arith)

  pub author_value :
      (m : Fields P.Double)
      → Json.find (codes "user") o ≡ some (object m)
      → author_of P f o ≡ (user_of P f m, true)
  unfolding author_of
  author_value m e = value_object (fresh_user f) o (codes "user") (user_of P f) m e

  pub made-user :
      (m : Fields P.Double)
      → author_of P f o ≡ (user_of P f m, true)
      → made.user ≡ (user_of P f m).id
  unfolding made members
  made-user m e = rw e

  made-text : (x : Bytes) → Json.find (codes "text") o ≡ some (string x) → made.text ≡ replace_cr x
  unfolding made members
  made-text x e = rw (value_string (fresh_tweet f).text o (codes "text") (λ s. s) x e)

  pub made-id : (z : ℤ) → Json.find (codes "id") o ≡ some (int z) → made.id ≡ to_uint64 z
  unfolding made members
  made-id z e = rw (value_int (fresh_tweet f).id o (codes "id") to_uint64 z e)

  made-created_at :
      (d : Bytes)
      → Json.find (codes "created_at") o ≡ some (string d)
      → made.created_at ≡ P.parse_time d
  unfolding made members
  made-created_at d e =
      rw (value_string (fresh_tweet f).created_at o (codes "created_at") P.parse_time d e)

  -- What is stored for an object that repeats no tweet, if `insert_new_tweet` returns an id that is
  -- new: its author's id, its text with no carriage return, its own id and its date.
  pub insert_new_tweet-members :
      (s : Stores Time) (i : ℕ)
      → retweet_of P f o ≡ none
      → (insert_new_tweet P f o s).1 ≡ some i
      → find_tweet i s.tweets ≡ none
      → (t : Tweet Time) × (find_tweet i (insert_new_tweet P f o s).0.tweets ≡ some t)
        × ((m : Fields P.Double) × (Json.find (codes "user") o ≡ some (object m))
            × (t.user ≡ (user_of P f m).id))
        × ((x : Bytes) × (Json.find (codes "text") o ≡ some (string x)) × (t.text ≡ replace_cr x))
        × All (λ c. c ≢ b'\r') t.text
        × ((z : ℤ) × (Json.find (codes "id") o ≡ some (int z)) × (i ≡ to_uint64 z))
        × ((d : Bytes) × (Json.find (codes "created_at") o ≡ some (string d))
            × (t.created_at ≡ P.parse_time d))
  insert_new_tweet-members s i plain ok new =
      let ((m, em), (x, ex), (z, ez), (d, ed)) = ((insert_new_tweet-returns P f o s).0 (i, ok)).0 in
      let q = (members-HasRequired P f o none).1 ((m, em), (x, ex), (z, ez), (d, ed)) in
      let author = author_value m em in
      let run = plain_run s m author plain q in
      let same = some-injective made.id i (cc (run, ok)) in
      (
        made,
        rw run (stored s.tweets i same new),
        (m, em, made-user m author),
        (x, ex, made-text x ex),
        rw (made-text x ex) (no_cr x),
        (z, ez, sym same ∙ made-id z ez),
        (d, ed, made-created_at d ed),
      )
