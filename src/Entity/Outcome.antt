-- ===== src/Entity/Outcome.antt =====
-- What `process_single_entity` does to the stores, on every branch, and when it throws.
use black_circle.Prelude.{
  ℕ, ◌≡◌, ◌≢◌, ◌↔◌, refl, sym, ap, ◌∙◌, arith, List, [], Option, none, some, inl, inr, Option-cases,
  Bool-cases, Bytes, codes, if◌then◌else◌, ◌==◌,
}
use black_circle.Json
use black_circle.Json.{Value, Fields, Items, cons, nil, object, get_object}
use black_circle.Twitter.Types.{Platform, Tweet, Fresh, Stores}
use black_circle.Twitter.TweetStore.{
  find_tweet, erase_tweet, erase_tweet-IsTweetStore, find-erase_tweet,
}
use black_circle.Twitter.Build.Found.{HasRequired}
use black_circle.Twitter.Build.Keeps.{IsStores, insert_new_tweet-IsStores}
use black_circle.Twitter.Build.Stored.{IsRepeat, insert_new_tweet-returns}
use black_circle.Twitter.Build.{insert_new_tweet}
use black_circle.Entity.{
  Reply, not_found, undefined, after_insert, deleted_id, process_delete, process_object,
  process_single_entity, show_tweet, print_tweet, goes_on, next_entity, for_each_reversed,
}

module _ (P : Platform) (f : Fresh P.Time) where
  open P use {Time, Double}

  after_insert_stores : (r : Stores Time × Option ℕ) → (after_insert P f r).0 ≡ r.0
  unfolding after_insert
  after_insert_stores (s, none) = refl
  after_insert_stores (s, some i) = refl

  process_delete-IsStores :
      (i : Option ℕ) (s : Stores Time) → IsStores P s → IsStores P (process_delete P f i s).0
  unfolding process_delete
  process_delete-IsStores none s h = h
  process_delete-IsStores (some i) s h =
      let erased : IsStores P (record s { tweets = erase_tweet i s.tweets }) = record {
        users_ok = h.users_ok;
        tweets_ok = erase_tweet-IsTweetStore P i s.tweets h.tweets_ok;
      } in
      elim (Option-cases (find_tweet i s.tweets)) [
        | inl e ↦ rw (e, process_delete) erased
        | inr (t, e) ↦ elim (Option-cases (show_tweet P f s t)) [
          | inl u ↦ rw (e, process_delete) (rw u h)
          | inr (l, u) ↦ rw (e, process_delete) (rw u erased)
        ]
      ]

  process_object-IsStores :
      (o : Fields Double) (s : Stores Time) → IsStores P s → IsStores P (process_object P f o s).0
  unfolding process_object
  process_object-IsStores o s h = elim (Option-cases (Json.find (codes "text") o)) [
    | inr (x, e) ↦
        rw (e, process_object) (rw after_insert_stores (insert_new_tweet-IsStores P f o s h))
    | inl e ↦
        rw (e, process_object)
          (elim (Option-cases (Json.find (codes "delete") o)) [
            | inr (d, e') ↦ rw e' (process_delete-IsStores (deleted_id P f d) s h)
            | inl e' ↦ rw e' h
          ])
  ]

  -- Well-formed stores stay so, whatever value the server sends and however the call ends.
  pub process_single_entity-IsStores :
      (v : Value Double) (s : Stores Time)
      → IsStores P s
      → IsStores P (process_single_entity P f v s).0
  unfolding process_single_entity
  process_single_entity-IsStores (object o) s h = process_object-IsStores o s h
  process_single_entity-IsStores _ s h = h

  process_delete_lem :
      (i : ℕ) (s : Stores Time)
      → IsStores P s
      → (process_delete P f (some i) s).1 ≢ undefined
      → ((process_delete P f (some i) s).0.users ≡ s.users)
        × ((j : ℕ)
            → find_tweet j (process_delete P f (some i) s).0.tweets
              ≡ (if j == i then none else find_tweet j s.tweets))
  unfolding process_delete
  process_delete_lem i s h = elim (Option-cases (find_tweet i s.tweets)) [
    | inl e ↦ rw (e, process_delete) (λ d. (refl, λ j. find-erase_tweet P j i s.tweets h.tweets_ok))
    | inr (t, e) ↦ elim (Option-cases (show_tweet P f s t)) [
      | inl u ↦ rw (e, process_delete) (rw u (λ d. absurd (d refl)))
      | inr (l, u) ↦
          rw (e, process_delete)
            (rw u (λ d. (refl, λ j. find-erase_tweet P j i s.tweets h.tweets_ok)))
    ]
  ]

  -- In well-formed stores a `delete` of a tweet, in an object without a "text", takes that tweet
  -- away and nothing else, unless the call ends undefined, by printing a tweet without its author.
  pub process_single_entity_delete :
      (o : Fields Double) (d : Value Double) (i : ℕ) (s : Stores Time)
      → Json.find (codes "text") o ≡ none
      → Json.find (codes "delete") o ≡ some d
      → deleted_id P f d ≡ some i
      → IsStores P s
      → (process_single_entity P f (object o) s).1 ≢ undefined
      → ((process_single_entity P f (object o) s).0.users ≡ s.users)
        × ((j : ℕ)
            → find_tweet j (process_single_entity P f (object o) s).0.tweets
              ≡ (if j == i then none else find_tweet j s.tweets))
  unfolding process_single_entity
  process_single_entity_delete o d i s t e k h =
      rw (t, process_object) (rw (e, process_object) (rw k (process_delete_lem i s h)))

  -- A tweet whose author is in the store is printed.
  pub process_single_entity_defined :
      (o : Fields Double) (d : Value Double) (i : ℕ) (s : Stores Time) (t : Tweet Time) (l : Bytes)
      → Json.find (codes "text") o ≡ none
      → Json.find (codes "delete") o ≡ some d
      → deleted_id P f d ≡ some i
      → find_tweet i s.tweets ≡ some t
      → show_tweet P f s t ≡ some l
      → (process_single_entity P f (object o) s).1 ≢ undefined
  unfolding process_single_entity process_delete
  process_single_entity_defined o d i s t l e k n h m =
      rw (e, process_object)
        (rw (k, process_object) (rw n (rw (h, process_delete) (rw m (λ u. cc)))))

  print_tweet-ne-not_found :
      (head : Bytes) (s : Stores Time) (t : Tweet Time) → print_tweet P f head s t ≢ not_found
  print_tweet-ne-not_found head s t = elim (Option-cases (show_tweet P f s t)) [
    | inl e ↦ λ h. ground arith
    | inr (l, e) ↦ λ h. ground arith
  ]

  after_insert-not_found :
      (r : Stores Time × Option ℕ) → ((after_insert P f r).1 ≡ not_found) ↔ (r.1 ≡ none)
  unfolding after_insert
  after_insert-not_found (s, none) = (λ _. refl, λ _. refl)
  after_insert-not_found (s, some i) = elim (Option-cases (find_tweet i s.tweets)) [
    | inl e ↦ rw (e, after_insert) (λ h. cc, λ h. cc)
    | inr (t, e) ↦ rw (e, after_insert) (λ h. absurd (print_tweet-ne-not_found [] s t h), λ h. cc)
  ]

  pub process_text :
      (o : Fields Double) (x : Value Double) (s : Stores Time)
      → Json.find (codes "text") o ≡ some x
      → process_single_entity P f (object o) s ≡ after_insert P f (insert_new_tweet P f o s)
  unfolding process_single_entity
  process_text o x s e = rw (e, process_object)

  -- A value with a "text" throws the error of a missing member exactly if it, or a tweet that it
  -- repeats, lacks a required member; the stores do not matter.
  pub process_single_entity-not_found :
      (o : Fields Double) (x : Value Double) (s : Stores Time)
      → Json.find (codes "text") o ≡ some x
      → ((process_single_entity P f (object o) s).1 ≡ not_found) ↔ ¬ (HasRequired o × IsRepeat o)
  process_single_entity-not_found o x s e =
      let lem = after_insert-not_found (insert_new_tweet P f o s) in
      let returns = insert_new_tweet-returns P f o s in
      let run = ap (λ (r : Stores Time × Reply). r.1) (process_text o x s e) in
      (
        λ h q. let (i, ok) = returns.1 q in absurd (cc (lem.0 (sym run ∙ h), ok)),
        λ n.
            run
            ∙ lem.1 (elim (Option-cases (insert_new_tweet P f o s).1) [
              | inl threw ↦ threw
              | inr (i, ok) ↦ absurd (n (returns.0 (i, ok)))
            ]),
      )

  next_entity-IsStores :
      (v : Value Double) (r : Stores Time × List Reply)
      → IsStores P r.0
      → IsStores P (next_entity P f v r).0
  unfolding next_entity
  next_entity-IsStores v (s, rs) h = elim (Bool-cases (goes_on rs)) [
    | inl e ↦ rw e (process_single_entity-IsStores v s h)
    | inr e ↦ rw e h
  ]

  pub for_each_reversed-IsStores :
      (xs : Items Double) (s : Stores Time)
      → IsStores P s
      → IsStores P (for_each_reversed P f xs s).0
  unfolding for_each_reversed
  for_each_reversed-IsStores nil s h = h
  for_each_reversed-IsStores (cons v xs) s h =
      next_entity-IsStores v (for_each_reversed P f xs s) (for_each_reversed-IsStores xs s h)

  -- Well-formed stores stay so, whatever value the server sends and however the call ends; and
  -- through a whole timeline, also one that stops at an exception.
  pub entities_stay_formed :
      (v : Value Double) (xs : Items Double) (s : Stores Time)
      → IsStores P s
      → IsStores P (process_single_entity P f v s).0 × IsStores P (for_each_reversed P f xs s).0
  entities_stay_formed v xs s h =
      (process_single_entity-IsStores v s h, for_each_reversed-IsStores xs s h)
