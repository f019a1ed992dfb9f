-- ===== src/Entity.antt =====
-- `process_single_entity` of black_circle.cc: one JSON value of the stream or of the timeline.
pub mod Outcome
pub mod Clash
use black_circle.Prelude.{
  ℕ, Bool, true, false, List, [], ◌∷◌, ◌++◌, Option, none, some, Bytes, codes, bytes_eq,
  if◌then◌else◌,
}
use black_circle.Prelude.Int.{to_uint64}
use black_circle.Json
use black_circle.Json.{Value, Fields, Items, cons, nil, get_object, get_int}
use black_circle.Twitter.Types.{Platform, User, Tweet, Fresh, Stores}
use black_circle.Twitter.UserStore.{find_user}
use black_circle.Twitter.TweetStore.{find_tweet, erase_tweet}
use black_circle.Twitter.Build.{insert_new_tweet}

-- How a call ends: it returns `true` after it printed some lines, or `false`; it throws
-- `boost::bad_get`, or the error of a tweet without its members; or it reads through the end of the
-- user store, which is undefined.
pub data Reply : Type 0 where
  printed : List Bytes → Reply
  ignored bad_get not_found undefined : Reply

-- Whether the last reply lets a `for_each` go on.
abbrev pub goes_on : List Reply → Bool
goes_on [] = true
goes_on (printed _ ∷ _) = true
goes_on (ignored ∷ _) = true
goes_on (_ ∷ _) = false

module _ (P : Platform) (f : Fresh P.Time) where
  open P use {Time, Double, time_string}

  -- `operator <<` of a tweet; `none` where `*tw.user_` is the end of the store.
  unfoldable pub show_tweet : Stores Time → Tweet Time → Option Bytes
  show_tweet s t = elim (find_user t.user s.users) [
    | none ↦ none
    | some u ↦
        some (time_string t.created_at ++ (b' ' ∷ b'@' ∷ (u.screen_name ++ (codes ": " ++ t.text))))
  ]

  -- `std::cout << head << tweet << '\n'`.
  abbrev print_tweet : Bytes → Stores Time → Tweet Time → Reply
  print_tweet head s t = elim (show_tweet s t) [
    | none ↦ undefined
    | some line ↦ printed ((head ++ (line ++ (b'\n' ∷ []))) ∷ [])
  ]

  -- `std::cout << *tweet_store.find(id)` after `insert_new_tweet`.
  pub after_insert : Stores Time × Option ℕ → Stores Time × Reply
  after_insert (s, none) = (s, not_found)
  after_insert (s, some id) =
      (s, elim (find_tweet id s.tweets) [ none ↦ undefined | some t ↦ print_tweet [] s t ])

  -- `get<int64_t>(get<map>(get<map>(o["delete"])["status"])["id"])`. `operator []` makes a missing
  -- member, which is an empty array, and the next `get` throws.
  unfoldable pub deleted_id : Value Double → Option ℕ
  deleted_id d = elim (get_object d) [
    | none ↦ none
    | some m ↦ elim (Json.find (codes "status") m) [
      | none ↦ none
      | some v ↦ elim (get_object v) [
        | none ↦ none
        | some status ↦ elim (Json.find (codes "id") status) [
          | none ↦ none
          | some x ↦ elim (get_int x) [ none ↦ none | some z ↦ some (to_uint64 z) ]
        ]
      ]
    ]
  ]

  -- The tweet is printed before it is erased, so that an undefined print comes to no erasing.
  pub process_delete : Option ℕ → Stores Time → Stores Time × Reply
  process_delete none s = (s, bad_get)
  process_delete (some id) s =
      let erased = record s { tweets = erase_tweet id s.tweets } in
      elim (find_tweet id s.tweets) [
        | none ↦ (erased, printed [])
        | some t ↦ elim (show_tweet s t) [
          | none ↦ (s, undefined)
          | some line ↦ (erased, printed ((codes "DELETE: " ++ (line ++ (b'\n' ∷ []))) ∷ []))
        ]
      ]

  -- `operator ()` on an object: a tweet, a deletion, or neither.
  pub process_object : Fields Double → Stores Time → Stores Time × Reply
  process_object o s = elim (Json.find (codes "text") o) [
    | some _ ↦ after_insert (insert_new_tweet P f o s)
    | none ↦ elim (Json.find (codes "delete") o) [
      | some d ↦ process_delete (deleted_id d) s
      | none ↦ (s, ignored)
    ]
  ]

  unfoldable pub process_single_entity : Value Double → Stores Time → Stores Time × Reply
  unfolding process_object after_insert process_delete
  process_single_entity v s = elim (get_object v) [
    | none ↦ (s, bad_get)
    | some o ↦ process_object o s
  ]

  pub next_entity : Value Double → Stores Time × List Reply → Stores Time × List Reply
  next_entity v (s, rs) =
      if goes_on rs
      then ((process_single_entity v s).0, (process_single_entity v s).1 ∷ rs)
      else (s, rs)

  -- `boost::for_each(array | reversed, process_single_entity())`: the replies, the last one first.
  unfoldable pub for_each_reversed : Items Double → Stores Time → Stores Time × List Reply
  unfolding next_entity
  for_each_reversed nil s = (s, [])
  for_each_reversed (cons v xs) s = next_entity v (for_each_reversed xs s)
