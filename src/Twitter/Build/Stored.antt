-- ===== src/Twitter/Build/Stored.antt =====
-- When `insert_new_tweet` returns, and what is in the stores then.
use black_circle.Prelude.{
  ℕ, Bool, true, false, ◌&&◌, ◌≡◌, ◌↔◌, refl, ◌∙◌, subst, arith, List, Option, none, some, inl, inr,
  Option-cases, Bool-cases, bytes_eq, codes, if◌then◌else◌,
}
use black_circle.Prelude.Int.{to_uint64}
use mathlib.Core.Option.{some-injective}
use black_circle.Json.{Value, Fields, array, string, int, double, object, bool, null, end, field}
use black_circle.Twitter.Types.{Platform, Tweet, Fresh, Stores, fresh_user, fresh_tweet}
use black_circle.Twitter.TweetStore.{find_tweet, insert_tweet, find-insert_tweet}
use black_circle.Twitter.Build.Found.{HasRequired, found_string, found_int, found_object}
use black_circle.Twitter.Build.{
  Builder, user_of, author_of, insert_author, members, finish, after_nested, store_new,
  tweet_object, tweet_of, retweet_of, insert_new_tweet,
}

all_four :
    (a b c d : Bool)
    → (a && (b && (c && d)) ≡ true) ↔ (a ≡ true) × (b ≡ true) × (c ≡ true) × (d ≡ true)
all_four a b c d = ground arith

module _ (P : Platform) (f : Fresh P.Time) where
  open P use {Time, Double}

  -- The final test of the constructor passes exactly on the required members.
  pub members-HasRequired :
      (o : Fields Double) (rid : Option ℕ) → ((members P f o rid).1 ≡ true) ↔ HasRequired o
  unfolding members author_of
  members-HasRequired o rid =
      let a = found_object (fresh_user f) o (codes "user") (user_of P f) in
      let t = found_string (fresh_tweet f).text o (codes "text") (λ s. s) in
      let i = found_int (fresh_tweet f).id o (codes "id") to_uint64 in
      let c = found_string (fresh_tweet f).created_at o (codes "created_at") P.parse_time in
      (
        λ h. let (x, y, z, w) = (all_four _ _ _ _).0 h in (a.0 x, t.0 y, i.0 z, c.0 w),
        λ (x, y, z, w). (all_four _ _ _ _).1 (a.1 x, t.1 y, i.1 z, c.1 w),
      )

  -- A construction that returns, for every state of the stores, exactly if `C`.
  abbrev Returns : Stores Time × Option (Tweet Time) → Type 0
  Returns r = (t : Tweet Time) × (r.1 ≡ some t)

  abbrev Decides : Option (Builder P f) → Type 0 → Type 0
  Decides none C = C
  Decides (some b) C = (s : Stores Time) → Returns (b s) ↔ C

  finish-HasRequired :
      (o : Fields Double) (rid : Option ℕ)
      → ((t : Tweet Time) × (finish P f (members P f o rid) ≡ some t)) ↔ HasRequired o
  unfolding finish
  finish-HasRequired o rid =
      let lem = members-HasRequired o rid in
      elim (Bool-cases (members P f o rid).1) [
        | inl e ↦ (λ _. lem.0 e, λ _. ((members P f o rid).0, ground arith))
        | inr e ↦ (λ (t, h). absurd (ground arith), λ h. absurd (cc (lem.1 h)))
      ]

  after_nested-Returns :
      (o : Fields Double) (r : Stores Time × Option (Tweet Time))
      → Returns (after_nested P f o r) ↔ HasRequired o × Returns r
  unfolding after_nested
  after_nested-Returns o (s, none) = (λ (t, h). absurd (cc), λ (h, (t, e)). absurd (cc))
  after_nested-Returns o (s, some t) =
      let lem = finish-HasRequired o (some t.id) in (λ h. (lem.0 h, (t, refl)), λ h. lem.1 h.0)

  tweet_object-Decides :
      (o : Fields Double) (nested : Option (Builder P f)) (C : Type 0)
      → Decides nested C
      → (s : Stores Time) → Returns (tweet_object P f o nested s) ↔ HasRequired o × C
  unfolding tweet_object
  tweet_object-Decides o none C c s =
      let lem = finish-HasRequired o none in (λ h. (lem.0 h, c), λ h. lem.1 h.0)
  tweet_object-Decides o (some b) C d s =
      let s1 = insert_author P f (author_of P f o) s in
      let lem = after_nested-Returns o (b s1) in
      (λ h. let (q, n) = lem.0 h in (q, (d s1).0 n), λ (q, n). lem.1 (q, (d s1).1 n))

-- An object is a tweet if it has the required members, and so does the tweet that it repeats, if it
-- has one.
unfoldable mutual
  pub IsTweetValue : {D : Type 0} → Value D → Type 0
  IsTweetValue (object o) = HasRequired o × IsRepeat o
  IsTweetValue _ = Unit

  pub IsRepeat : {D : Type 0} → Fields D → Type 0
  IsRepeat end = Unit
  IsRepeat (field k v o) =
      if bytes_eq (codes "retweeted_status") k then IsTweetValue v else IsRepeat o

module _ (P : Platform) (f : Fresh P.Time) where
  open P use {Time, Double}

  either-Decides :
      (c : Bool) (x y : Option (Builder P f)) (A B : Type 0)
      → Decides P f x A
      → Decides P f y B
      → Decides P f (if c then x else y) (if c then A else B)
  either-Decides true x y A B h k = h
  either-Decides false x y A B h k = k

  mutual
    unfolding tweet_of retweet_of IsTweetValue IsRepeat

    tweet_of-Decides : (v : Value Double) → Decides P f (tweet_of P f v) (IsTweetValue v)
    tweet_of-Decides (object o) =
        tweet_object-Decides P f o (retweet_of P f o) (IsRepeat o) (retweet_of-Decides o)
    tweet_of-Decides (array xs) = tt
    tweet_of-Decides (string s) = tt
    tweet_of-Decides (int z) = tt
    tweet_of-Decides (double d) = tt
    tweet_of-Decides (bool b) = tt
    tweet_of-Decides null = tt

    retweet_of-Decides : (o : Fields Double) → Decides P f (retweet_of P f o) (IsRepeat o)
    retweet_of-Decides end = tt
    retweet_of-Decides (field k v o) =
        either-Decides (bytes_eq (codes "retweeted_status") k) _ _ _ _ (tweet_of-Decides v)
          (retweet_of-Decides o)

  store_new-Returns :
      (r : Stores Time × Option (Tweet Time))
      → ((i : ℕ) × ((store_new P f r).1 ≡ some i)) ↔ Returns P f r
  unfolding store_new
  store_new-Returns (s, none) = (λ (i, e). absurd (cc), λ (t, e). absurd (cc))
  store_new-Returns (s, some t) = (λ _. (t, refl), λ _. (t.id, refl))

  insert_tweet-found :
      (t : Tweet Time) (l : List (Tweet Time))
      → (x : Tweet Time) × (find_tweet t.id (insert_tweet P t l) ≡ some x)
  insert_tweet-found t l = elim (Option-cases (find_tweet t.id l)) [
    | inl new ↦ (t, find-insert_tweet P t.id t l ∙ rw new (ground arith))
    | inr (x, old) ↦ (x, find-insert_tweet P t.id t l ∙ rw old)
  ]

  store_new-found :
      (r : Stores Time × Option (Tweet Time)) (i : ℕ)
      → (store_new P f r).1 ≡ some i
      → (t : Tweet Time) × (find_tweet i (store_new P f r).0.tweets ≡ some t)
  unfolding store_new
  store_new-found (s, none) i e = absurd (cc)
  store_new-found (s, some t) i e =
      subst (λ j. (x : Tweet Time) × (find_tweet j (insert_tweet P t s.tweets) ≡ some x))
        (some-injective t.id i e) (insert_tweet-found t s.tweets)

  -- `insert_new_tweet` returns exactly on the objects that have the required members, at their
  -- types, at every level of repeated tweets; on all others it throws. The stores do not matter.
  pub insert_new_tweet-returns :
      (o : Fields Double) (s : Stores Time)
      → ((i : ℕ) × ((insert_new_tweet P f o s).1 ≡ some i)) ↔ HasRequired o × IsRepeat o
  unfolding insert_new_tweet
  insert_new_tweet-returns o s =
      let stored = store_new-Returns (tweet_object P f o (retweet_of P f o) s) in
      let made =
        tweet_object-Decides P f o (retweet_of P f o) (IsRepeat o) (retweet_of-Decides o) s in
      (λ h. made.0 (stored.0 h), λ h. stored.1 (made.1 h))

  -- The id that `insert_new_tweet` returns is in the store.
  pub insert_new_tweet-found :
      (o : Fields Double) (s : Stores Time) (i : ℕ)
      → (insert_new_tweet P f o s).1 ≡ some i
      → (t : Tweet Time) × (find_tweet i (insert_new_tweet P f o s).0.tweets ≡ some t)
  unfolding insert_new_tweet
  insert_new_tweet-found o s i e = store_new-found (tweet_object P f o (retweet_of P f o) s) i e
