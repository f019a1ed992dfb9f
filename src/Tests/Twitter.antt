-- ===== src/Tests/Twitter.antt =====
-- A tweet, its deletion, and a user whose name is taken.
use black_circle.Prelude.{
  ℕ, ◌≡◌, ◌≢◌, ◌↔◌, refl, true, false, [], some, none, Bytes, codes, ◌==◌, if◌then◌else◌, All,
}
use black_circle.Prelude.Int.{ℤ, pos, to_uint64}
use black_circle.Json
use black_circle.Json.{Value, Fields, Items, object, string, int, field, end, cons, nil}
use black_circle.Twitter.Types.{User, Tweet, Stores}
use black_circle.Twitter.UserStore.{find_user, has_name, insert_user}
use black_circle.Twitter.TweetStore.{find_tweet, insert_tweet}
use black_circle.Twitter.Build.{
  author_of, user_of, retweet_of, replace_cr, insert_new_tweet, tweet_object, finish, members,
  set_if_found, insert_author,
}
use black_circle.Twitter.Build.Found.{HasRequired}
use black_circle.Twitter.Build.Keeps.{IsStores, insert_new_tweet-IsStores, insert_new_tweet-grows}
use black_circle.Twitter.Build.Stored.{IsRepeat}
use black_circle.Twitter.Build.Members.{insert_new_tweet-members}
use black_circle.Entity.{
  show_tweet, undefined, not_found, process_single_entity, deleted_id, for_each_reversed,
}
use black_circle.Entity.Outcome.{
  process_single_entity_delete, process_single_entity_defined, process_single_entity-not_found,
  entities_stay_formed,
}
use black_circle.Tests.Data.{platform, unset, empty, empty-IsStores}
use black_circle.Entity.Clash.{process_single_entity-undefined}

-- A user object and a tweet object.
abbrev person : ℕ → Bytes → Fields ℕ
person id name = field (codes "id") (int (pos id)) (field (codes "screen_name") (string name) end)

abbrev post : ℕ → Fields ℕ → Fields ℕ
post id who = field (codes "user") (object who) (
    field (codes "text") (string (codes "hi\r"))
      (field (codes "id") (int (pos id)) (field (codes "created_at") (string (codes "d")) end)))

abbrev ann : Fields ℕ
ann = person 1 (codes "ann")

abbrev first : Fields ℕ
first = post 5 ann

-- The stores after the first tweet.
abbrev after : Stores ℕ
after = (insert_new_tweet platform unset first empty).0

-- A new user has taken the name of the first.
abbrev other : Fields ℕ
other = person 2 (codes "ann")

abbrev deletion : Value ℕ
deletion = object (field (codes "status") (object (field (codes "id") (int (pos 5)) end)) end)

abbrev short : Fields ℕ
short = field (codes "text") (string []) end

insert_new_tweet_run : (insert_new_tweet platform unset first empty).1 ≡ some 5
unfolding insert_new_tweet tweet_object retweet_of finish members author_of set_if_found to_uint64
insert_new_tweet_run = refl

insert_new_tweet-members_example :
    (t : Tweet ℕ) × (find_tweet 5 after.tweets ≡ some t)
    × ((m : Fields ℕ) × (Json.find (codes "user") first ≡ some (object m))
        × (t.user ≡ (user_of platform unset m).id))
    × ((x : Bytes) × (Json.find (codes "text") first ≡ some (string x)) × (t.text ≡ replace_cr x))
    × All (λ c. c ≢ b'\r') t.text
    × ((z : ℤ) × (Json.find (codes "id") first ≡ some (int z)) × (5 ≡ to_uint64 z))
    × ((d : Bytes) × (Json.find (codes "created_at") first ≡ some (string d))
        × (t.created_at ≡ platform.parse_time d))
unfolding find_tweet insert_new_tweet tweet_object retweet_of finish members author_of set_if_found
    to_uint64 insert_author find_user insert_user insert_tweet has_name user_of
insert_new_tweet-members_example =
    insert_new_tweet-members platform unset first empty 5 refl refl refl

insert_new_tweet-grows_example :
    ((i : ℕ) (u : User ℕ)
      → find_user i after.users ≡ some u
      → find_user i (insert_new_tweet platform unset (post 6 other) after).0.users ≡ some u)
    × ((i : ℕ) (t : Tweet ℕ)
        → find_tweet i after.tweets ≡ some t
        → find_tweet i (insert_new_tweet platform unset (post 6 other) after).0.tweets ≡ some t)
    × ((u : User ℕ)
        → author_of platform unset (post 6 other) ≡ (u, true)
        → find_user u.id after.users ≡ none
        → has_name u.screen_name after.users ≡ false
        → find_user u.id (insert_new_tweet platform unset (post 6 other) after).0.users ≡ some u)
insert_new_tweet-grows_example = insert_new_tweet-grows platform unset (post 6 other) after

after-IsStores : IsStores platform after
after-IsStores = insert_new_tweet-IsStores platform unset first empty empty-IsStores

entities_stay_formed_example :
    IsStores platform (process_single_entity platform unset (object first) empty).0
    × IsStores platform
        (for_each_reversed platform unset
          (cons (object (post 6 other)) (cons (object first) nil))
          empty).0
entities_stay_formed_example =
    entities_stay_formed platform unset (object first)
      (cons (object (post 6 other)) (cons (object first) nil)) empty empty-IsStores

process_single_entity_delete_example :
    ((process_single_entity platform unset
        (object (field (codes "delete") deletion end))
        after).0.users
      ≡ after.users)
    × ((j : ℕ)
        → find_tweet j
            (process_single_entity platform unset
              (object (field (codes "delete") deletion end))
              after).0.tweets
          ≡ (if j == 5 then none else find_tweet j after.tweets))
unfolding deleted_id Json.find to_uint64 find_tweet insert_new_tweet tweet_object retweet_of finish
    members author_of set_if_found insert_author find_user insert_user insert_tweet has_name user_of
    show_tweet
process_single_entity_delete_example =
    process_single_entity_delete platform unset (field (codes "delete") deletion end) deletion 5
      after refl refl refl after-IsStores
      (process_single_entity_defined platform unset (field (codes "delete") deletion end) deletion 5
        after _ _ refl refl refl refl refl)

process_single_entity-not_found_example :
    ((process_single_entity platform unset (object short) empty).1 ≡ not_found)
    ↔ ¬ (HasRequired short × IsRepeat short)
unfolding Json.find
process_single_entity-not_found_example =
    process_single_entity-not_found platform unset short (string []) empty refl

process_single_entity-undefined_example :
    ((process_single_entity platform unset (object (post 6 other)) after).1 ≡ undefined)
    ↔ (find_user (user_of platform unset other).id after.users ≡ none)
      × (has_name (user_of platform unset other).screen_name after.users ≡ true)
unfolding find_tweet insert_new_tweet tweet_object retweet_of finish members author_of set_if_found
    to_uint64 insert_author find_user insert_user insert_tweet has_name user_of
process_single_entity-undefined_example =
    process_single_entity-undefined platform unset (post 6 other) other (pos 6) after
      ((other, refl), (codes "hi\r", refl), (pos 6, refl), (codes "d", refl)) refl refl refl refl

-- So the second tweet is printed with the author at the end of the store.
process_single_entity_run :
    (process_single_entity platform unset (object (post 6 other)) after).1 ≡ undefined
unfolding process_single_entity Json.find insert_new_tweet tweet_object retweet_of finish members
    author_of set_if_found find_tweet insert_tweet insert_author to_uint64 show_tweet find_user
    insert_user has_name user_of
process_single_entity_run = refl
