-- ===== src/Twitter/UserStore.antt =====
-- `user_store_t`: a multi-index container, unique by `id_` and unique by `screen_name_`. Both indices
-- hold the same users, so the store is the list that the index by id goes through.
use black_circle.Prelude.{
  ℕ, ◌<◌, Bool, false, ◌||◌, ◌≡◌, refl, arith, List, [], ◌∷◌, Option, none, some, Bytes, bytes_eq,
  bytes_eq_iff, ltb, ◌==◌, if◌then◌else◌, All,
}
use black_circle.Twitter.Types.{User}

module _ {T : Type 0} where
  -- `get<id_tag>().find(id)`.
  unfoldable pub find_user : ℕ → List (User T) → Option (User T)
  find_user id [] = none
  find_user id (u ∷ l) = if id == u.id then some u else find_user id l

  -- Whether `get<name_tag>()` has the name.
  unfoldable pub has_name : Bytes → List (User T) → Bool
  has_name n [] = false
  has_name n (u ∷ l) = bytes_eq n u.screen_name || has_name n l

  pub place_user : User T → List (User T) → List (User T)
  place_user u [] = u ∷ []
  place_user u (v ∷ l) = if ltb u.id v.id then u ∷ v ∷ l else v ∷ place_user u l

  -- `insert(u)`: refused if an index has the key.
  unfoldable pub insert_user : User T → List (User T) → List (User T)
  unfolding place_user
  insert_user u l = elim (find_user u.id l) [
    | some _ ↦ l
    | none ↦ if has_name u.screen_name l then l else place_user u l
  ]

  abbrev IdsAbove : ℕ → List (User T) → Type 0
  IdsAbove i l = All (λ v. i < v.id) l

  abbrev LacksName : Bytes → List (User T) → Type 0
  LacksName n l = All (λ v. bytes_eq n v.screen_name ≡ false) l

  -- Ids ascend strictly, and no two users share a screen name.
  abbrev pub IsUserStore : List (User T) → Type 0
  IsUserStore [] = Unit
  IsUserStore (u ∷ l) = IdsAbove u.id l × LacksName u.screen_name l × IsUserStore l

  IdsAbove-trans : (i j : ℕ) (l : List (User T)) → i < j → IdsAbove j l → IdsAbove i l
  IdsAbove-trans i j [] h a = tt
  IdsAbove-trans i j (v ∷ l) h a = (omega arith, IdsAbove-trans i j l h a.1)

  place_user-IdsAbove :
      (i : ℕ) (u : User T) (l : List (User T))
      → i < u.id
      → IdsAbove i l
      → IdsAbove i (place_user u l)
  unfolding place_user
  place_user-IdsAbove i u [] h a = (h, tt)
  place_user-IdsAbove i u (v ∷ l) h a = ground (arith, place_user-IdsAbove i u l h a.1)

  place_user-LacksName :
      (n : Bytes) (u : User T) (l : List (User T))
      → bytes_eq n u.screen_name ≡ false
      → LacksName n l
      → LacksName n (place_user u l)
  unfolding place_user
  place_user-LacksName n u [] h a = (h, tt)
  place_user-LacksName n u (v ∷ l) h a = ground (arith, place_user-LacksName n u l h a.1)

  LacksName-has_name : (n : Bytes) (l : List (User T)) → has_name n l ≡ false → LacksName n l
  unfolding has_name
  LacksName-has_name n [] h = tt
  LacksName-has_name n (v ∷ l) h = ground (arith, LacksName-has_name n l)

  place_user-IsUserStore :
      (u : User T) (l : List (User T))
      → IsUserStore l
      → find_user u.id l ≡ none
      → has_name u.screen_name l ≡ false
      → IsUserStore (place_user u l)
  unfolding place_user find_user has_name
  place_user-IsUserStore u [] s f n = (tt, tt, tt)
  place_user-IsUserStore u (v ∷ l) s f n = ground (
    arith,
    IdsAbove-trans u.id v.id l,
    LacksName-has_name u.screen_name l,
    place_user-IdsAbove v.id u l,
    place_user-LacksName v.screen_name u l,
    place_user-IsUserStore u l,
    bytes_eq_iff u.screen_name v.screen_name,
    bytes_eq_iff v.screen_name u.screen_name,
  )

  pub insert_user-IsUserStore :
      (u : User T) (l : List (User T)) → IsUserStore l → IsUserStore (insert_user u l)
  unfolding insert_user
  insert_user-IsUserStore u l s = ground (arith, place_user-IsUserStore u l)

  find-place_user :
      (i : ℕ) (u : User T) (l : List (User T))
      → find_user u.id l ≡ none
      → find_user i (place_user u l) ≡ (if i == u.id then some u else find_user i l)
  unfolding find_user place_user
  find-place_user i u [] h = refl
  find-place_user i u (v ∷ l) h = ground (arith, find-place_user i u l)

  -- What an id finds after an insertion: the user that was there, or the new one if its name is free.
  pub find-insert_user :
      (i : ℕ) (u : User T) (l : List (User T))
      → find_user i (insert_user u l) ≡ elim (find_user i l) [
        | some v ↦ some v
        | none ↦ if i == u.id then (if has_name u.screen_name l then none else some u) else none
      ]
  unfolding insert_user
  find-insert_user i u l = ground (arith, find-place_user i u l)
