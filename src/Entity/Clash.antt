-- ===== src/Entity/Clash.antt =====
-- Whether the author of a printed tweet is there. A user whose screen name another user of the store
-- already has is refused by the index of names, and `*tw.user_` then reads the end of the store.
use black_circle.Prelude.{
  ℕ, true, ◌≡◌, ◌↔◌, refl, sym, ap, ◌∙◌, arith, List, [], none, some, inl, inr, Option-cases, Bytes,
  codes,
}
use black_circle.Prelude.Int.{ℤ, to_uint64}
use black_circle.Json
use black_circle.Json.{Value, Fields, object, string, int}
use black_circle.Twitter.Types.{Platform, User, Tweet, Fresh, Stores}
use black_circle.Twitter.UserStore.{find_user, has_name, insert_user, find-insert_user}
use black_circle.Twitter.TweetStore.{find_tweet, insert_tweet}
use black_circle.Twitter.Build.Found.{HasRequired}
use black_circle.Twitter.Build.Members.{plain_run, author_value, made, made-user, made-id, stored}
use black_circle.Twitter.Build.Stored.{members-HasRequired}
use black_circle.Twitter.Build.{user_of, retweet_of}
use black_circle.Entity.Outcome.{process_text}
use black_circle.Entity.{
  Reply, undefined, show_tweet, print_tweet, after_insert, process_single_entity,
}

module _ (P : Platform) (f : Fresh P.Time) where
  open P use {Time, Double}

  print_tweet-undefined :
      (head : Bytes) (s : Stores Time) (t : Tweet Time)
      → (print_tweet P f head s t ≡ undefined) ↔ (find_user t.user s.users ≡ none)
  unfolding show_tweet
  print_tweet-undefined head s t = elim (Option-cases (find_user t.user s.users)) [
    | inl e ↦ (λ _. e, λ _. ground arith)
    | inr (u, e) ↦ (λ h. absurd (ground arith), λ h. absurd (cc))
  ]

  after_insert-undefined :
      (s : Stores Time) (i : ℕ) (t : Tweet Time)
      → find_tweet i s.tweets ≡ some t
      → ((after_insert P f (s, some i)).1 ≡ undefined) ↔ (find_user t.user s.users ≡ none)
  unfolding after_insert
  after_insert-undefined s i t e = rw (e, after_insert) (print_tweet-undefined [] s t)

  -- A user is not found after an insertion if it was not there, and its name was.
  insert_user-not_found :
      (u : User Time) (l : List (User Time))
      → (find_user u.id (insert_user u l) ≡ none)
        ↔ (find_user u.id l ≡ none) × (has_name u.screen_name l ≡ true)
  insert_user-not_found u l = rw (find-insert_user u.id u l) (ground arith)

  -- For a new tweet that repeats none, by the user object `m`: printing it reads past the end of
  -- the user store exactly if the store has no user with the id of `m`, and one with its screen name.
  pub process_single_entity-undefined :
      (o m : Fields Double) (z : ℤ) (s : Stores Time)
      → HasRequired o
      → Json.find (codes "user") o ≡ some (object m)
      → Json.find (codes "id") o ≡ some (int z)
      → retweet_of P f o ≡ none
      → find_tweet (to_uint64 z) s.tweets ≡ none
      → ((process_single_entity P f (object o) s).1 ≡ undefined)
        ↔ (find_user (user_of P f m).id s.users ≡ none)
          × (has_name (user_of P f m).screen_name s.users ≡ true)
  process_single_entity-undefined o m z s q em ez plain new =
      let a = author_value P f o m em in
      let t = made P f o in
      let u = user_of P f m in
      let run = plain_run P f o s m a plain ((members-HasRequired P f o none).1 q) in
      let fresh : find_tweet t.id s.tweets ≡ none = rw (made-id P f o z ez) new in
      let after : Stores Time = record {
        users = insert_user u s.users;
        tweets = insert_tweet P t s.tweets;
      } in
      let print = after_insert-undefined after t.id t (stored P f o s.tweets t.id refl fresh) in
      let reply =
        ap (λ (r : Stores Time × Reply). r.1)
          (process_text P f o (string q.1.0) s q.1.1 ∙ ap (after_insert P f) run) in
      let same_user = ap (λ i. find_user i (insert_user u s.users)) (made-user P f o m a) in
      let clash = insert_user-not_found u s.users in
      (
        λ h. clash.0 (sym same_user ∙ print.0 (sym reply ∙ h)),
        λ c. reply ∙ print.1 (same_user ∙ clash.1 c),
      )
