-- ===== src/Shell/Print.antt =====
-- What "print" prints.
use black_circle.Prelude.{
  Bool, false, ◌≡◌, sym, ap, map, codes, append_assoc, ◌++◌, Bool-cases, inl, inr, refl, List, [],
  ◌∷◌, none, some, Bytes, bytes_eq, if◌then◌else◌, All,
}
use black_circle.Twitter.Types.{Platform, User, Tweet, Fresh, Stores}
use black_circle.Twitter.UserStore.{find_user}
use black_circle.Entity.{show_tweet}
use black_circle.Shell.{by_user, filtered, print_all, print_by, print}

-- The elements with a property, in their order.
unfoldable pub select {ℓ} : {A : Type ℓ} → (A → Bool) → List A → List A
select p [] = []
select p (x ∷ l) = let rest = select p l in if p x then x ∷ rest else rest

module _ (P : Platform) (f : Fresh P.Time) (s : Stores P.Time) where
  open P use {Time}

  -- Whether a tweet is by a user of this name.
  abbrev pub is_by : Bytes → Tweet Time → Bool
  is_by name t = elim (find_user t.user s.users) [
    | none ↦ false
    | some u ↦ bytes_eq u.screen_name name
  ]

  -- The authors of all tweets are in the store.
  abbrev pub HasAuthors : List (Tweet Time) → Type 0
  HasAuthors l = All (λ t. (u : User Time) × (find_user t.user s.users ≡ some u)) l

  filtered-select :
      (name : Bytes) (l : List (Tweet Time))
      → HasAuthors l
      → filtered P f name s l ≡ some (select (is_by name) l)
  unfolding filtered by_user select
  filtered-select name [] h = refl
  filtered-select name (t ∷ l) ((u, e), h) =
      let rest = filtered-select name l h in rw (e, filtered) (rw rest (rw (e, select, is_by)))

  -- The line of a tweet whose author is in the store.
  abbrev pub line_of : Tweet Time → Bytes
  line_of t = elim (find_user t.user s.users) [
    | none ↦ []
    | some u ↦
        P.time_string t.created_at
        ++ (codes " @" ++ (u.screen_name ++ (codes ": " ++ (t.text ++ codes "\n"))))
  ]

  select-HasAuthors :
      (p : Tweet Time → Bool) (l : List (Tweet Time)) → HasAuthors l → HasAuthors (select p l)
  unfolding select
  select-HasAuthors p [] h = tt
  select-HasAuthors p (t ∷ l) h = elim (Bool-cases (p t)) [
    | inl e ↦ rw (e, select) (h.0, select-HasAuthors p l h.1)
    | inr e ↦ rw (e, select) (select-HasAuthors p l h.1)
  ]

  line_of_lem :
      (t : Tweet Time) (u : User Time)
      → find_user t.user s.users ≡ some u
      → line_of t
        ≡ (P.time_string t.created_at ++ (b' ' ∷ b'@' ∷ (u.screen_name ++ (codes ": " ++ t.text))))
          ++ (b'\n' ∷ [])
  line_of_lem t u e = rw (e, line_of) (simp append_assoc)

  print_all-line_of :
      (l : List (Tweet Time)) → HasAuthors l → print_all P f s l ≡ some (map line_of l)
  unfolding print_all show_tweet
  print_all-line_of [] h = refl
  print_all-line_of (t ∷ l) ((u, e), h) =
      let rest = print_all-line_of l h in
      rw (e, print_all)
        (rw (rest, print_all) (ap (λ x. some (x ∷ map line_of l)) (sym (line_of_lem t u e))))

  -- Where every author is in the store, "print @name" prints one line for each stored tweet by a
  -- user of that name and for no other, in the order of the store: its date, the name, and its text.
  pub print-select :
      (name : Bytes)
      → HasAuthors s.tweets
      → print P f (b'@' ∷ name) s ≡ some (map line_of (select (is_by name) s.tweets))
  unfolding print print_by
  print-select name h =
      rw (filtered-select name s.tweets h, print_by)
        (print_all-line_of (select (is_by name) s.tweets)
          (select-HasAuthors (is_by name) s.tweets h))
