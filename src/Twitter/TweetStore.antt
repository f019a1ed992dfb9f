-- ===== src/Twitter/TweetStore.antt =====
-- `tweet_store_t`: a multi-index container, unique by `id_` and ordered by `created_at_`. The store
-- is the list that the index by date goes through.
use black_circle.Prelude.{
  ℕ, true, false, ◌≡◌, refl, arith, List, [], ◌∷◌, Option, none, some, Bool-cases, inl, inr, ◌==◌,
  if◌then◌else◌, All,
}
use black_circle.Twitter.Types.{Platform, Tweet}

module _ {T : Type 0} where
  -- `find(id)` by `id_tag`.
  unfoldable pub find_tweet : ℕ → List (Tweet T) → Option (Tweet T)
  find_tweet id [] = none
  find_tweet id (t ∷ l) = if id == t.id then some t else find_tweet id l

  -- `erase(id)`.
  unfoldable pub erase_tweet : ℕ → List (Tweet T) → List (Tweet T)
  erase_tweet id [] = []
  erase_tweet id (t ∷ l) = if id == t.id then l else t ∷ erase_tweet id l

  abbrev LacksId : ℕ → List (Tweet T) → Type 0
  LacksId i l = All (λ t. (i == t.id) ≡ false) l

  LacksId-find_tweet : (i : ℕ) (l : List (Tweet T)) → find_tweet i l ≡ none → LacksId i l
  unfolding find_tweet
  LacksId-find_tweet i [] h = tt
  LacksId-find_tweet i (t ∷ l) h = ground (arith, LacksId-find_tweet i l)

  find_tweet-LacksId : (i : ℕ) (l : List (Tweet T)) → LacksId i l → find_tweet i l ≡ none
  unfolding find_tweet
  find_tweet-LacksId i [] h = refl
  find_tweet-LacksId i (t ∷ l) h = ground (arith, find_tweet-LacksId i l h.1)

  erase_tweet-All :
      (Q : Tweet T → Type 0) (i : ℕ) (l : List (Tweet T)) → All Q l → All Q (erase_tweet i l)
  unfolding erase_tweet
  erase_tweet-All Q i [] h = tt
  erase_tweet-All Q i (t ∷ l) h = ground (arith, erase_tweet-All Q i l h.1)

module _ (P : Platform) where
  open P use {Time, time_lt, time_lt_irrefl, time_lt_trans}

  -- An equal date goes behind those that are there.
  pub place_tweet : Tweet Time → List (Tweet Time) → List (Tweet Time)
  place_tweet t [] = t ∷ []
  place_tweet t (x ∷ l) =
      if time_lt t.created_at x.created_at then t ∷ x ∷ l else x ∷ place_tweet t l

  -- `insert(t)`: refused if the id is there.
  unfoldable pub insert_tweet : Tweet Time → List (Tweet Time) → List (Tweet Time)
  unfolding place_tweet
  insert_tweet t l = elim (find_tweet t.id l) [ some _ ↦ l | none ↦ place_tweet t l ]

  -- No tweet of the list is earlier.
  abbrev NotEarlier : Time → List (Tweet Time) → Type 0
  NotEarlier d l = All (λ x. time_lt x.created_at d ≡ false) l

  -- Dates do not descend, and no id occurs twice.
  abbrev pub IsTweetStore : List (Tweet Time) → Type 0
  IsTweetStore [] = Unit
  IsTweetStore (t ∷ l) = LacksId t.id l × NotEarlier t.created_at l × IsTweetStore l

  -- What is not earlier than `x` is not earlier than a date before `x`.
  not_earlier : (a d e : Time) → time_lt d e ≡ true → time_lt a e ≡ false → time_lt a d ≡ false
  not_earlier a d e h k = elim (Bool-cases (time_lt a d)) [
    | inl l ↦ cc (time_lt_trans a d e l h)
    | inr g ↦ g
  ]

  not_after : (d e : Time) → time_lt d e ≡ true → time_lt e d ≡ false
  not_after d e h = elim (Bool-cases (time_lt e d)) [
    | inl l ↦ cc (time_lt_trans d e d h l, time_lt_irrefl d)
    | inr g ↦ g
  ]

  NotEarlier-trans :
      (d e : Time) (l : List (Tweet Time)) → time_lt d e ≡ true → NotEarlier e l → NotEarlier d l
  NotEarlier-trans d e [] h a = tt
  NotEarlier-trans d e (x ∷ l) h a =
      (not_earlier x.created_at d e h a.0, NotEarlier-trans d e l h a.1)

  place_tweet-All :
      (Q : Tweet Time → Type 0) (t : Tweet Time) (l : List (Tweet Time))
      → Q t
      → All Q l
      → All Q (place_tweet t l)
  unfolding place_tweet
  place_tweet-All Q t [] q a = (q, tt)
  place_tweet-All Q t (x ∷ l) q a = ground (arith, place_tweet-All Q t l q a.1)

  place_tweet-IsTweetStore :
      (t : Tweet Time) (l : List (Tweet Time))
      → IsTweetStore l
      → LacksId t.id l
      → IsTweetStore (place_tweet t l)
  unfolding place_tweet
  place_tweet-IsTweetStore t [] s f = (tt, tt, tt)
  place_tweet-IsTweetStore t (x ∷ l) s f = elim (Bool-cases (time_lt t.created_at x.created_at)) [
    | inl before ↦ rw before (f, (not_after _ _ before, NotEarlier-trans _ _ l before s.1), s)
    | inr later ↦ rw later (
      place_tweet-All (λ y. (x.id == y.id) ≡ false) t l (ground arith) s.0,
      place_tweet-All (λ y. time_lt y.created_at x.created_at ≡ false) t l later s.1,
      place_tweet-IsTweetStore t l s.2 f.1,
    )
  ]

  pub insert_tweet-IsTweetStore :
      (t : Tweet Time) (l : List (Tweet Time)) → IsTweetStore l → IsTweetStore (insert_tweet t l)
  unfolding insert_tweet
  insert_tweet-IsTweetStore t l s =
      ground (arith, place_tweet-IsTweetStore t l, LacksId-find_tweet t.id l)

  pub erase_tweet-IsTweetStore :
      (i : ℕ) (l : List (Tweet Time)) → IsTweetStore l → IsTweetStore (erase_tweet i l)
  unfolding erase_tweet
  erase_tweet-IsTweetStore i [] s = tt
  erase_tweet-IsTweetStore i (t ∷ l) s = ground (
    arith,
    erase_tweet-All (λ y. (t.id == y.id) ≡ false) i l s.0,
    erase_tweet-All (λ y. time_lt y.created_at t.created_at ≡ false) i l s.1,
    erase_tweet-IsTweetStore i l s.2,
  )

  find-place_tweet :
      (i : ℕ) (t : Tweet Time) (l : List (Tweet Time))
      → find_tweet t.id l ≡ none
      → find_tweet i (place_tweet t l) ≡ (if i == t.id then some t else find_tweet i l)
  unfolding find_tweet place_tweet
  find-place_tweet i t [] h = refl
  find-place_tweet i t (x ∷ l) h = ground (arith, find-place_tweet i t l)

  -- An insertion adds its tweet, unless the id is taken: a tweet in the store is never replaced.
  pub find-insert_tweet :
      (i : ℕ) (t : Tweet Time) (l : List (Tweet Time))
      → find_tweet i (insert_tweet t l)
        ≡ elim (find_tweet i l) [ some x ↦ some x | none ↦ if i == t.id then some t else none ]
  unfolding insert_tweet
  find-insert_tweet i t l = ground (arith, find-place_tweet i t l)

  pub find-erase_tweet :
      (i j : ℕ) (l : List (Tweet Time))
      → IsTweetStore l
      → find_tweet i (erase_tweet j l) ≡ (if i == j then none else find_tweet i l)
  unfolding find_tweet erase_tweet
  find-erase_tweet i j [] s = ground arith
  find-erase_tweet i j (t ∷ l) s =
      ground (arith, find-erase_tweet i j l s.2, find_tweet-LacksId t.id l s.0)
