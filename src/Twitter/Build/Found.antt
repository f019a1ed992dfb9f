-- ===== src/Twitter/Build/Found.antt =====
-- What `set_if_found` finds.
use black_circle.Prelude.{
  true, false, ◌≡◌, ◌↔◌, refl, ap, ◌∙◌, arith, Option, none, some, inl, inr, Option-cases, Bytes,
  codes,
}
use black_circle.Prelude.Int.{ℤ}
use black_circle.Json
use black_circle.Json.{
  Value, Fields, array, string, int, double, object, bool, null, end, field, get_string, get_int,
  get_object,
}
use black_circle.Twitter.Build.{is_null, set_if_found}

module _ {D : Type 0} where
  -- The member `name` of an object, at the type that a constructor asks for.
  abbrev pub HasString : Fields D → Bytes → Type 0
  HasString o name = (s : Bytes) × (Json.find name o ≡ some (string s))

  abbrev pub HasInt : Fields D → Bytes → Type 0
  HasInt o name = (z : ℤ) × (Json.find name o ≡ some (int z))

  abbrev pub HasObject : Fields D → Bytes → Type 0
  HasObject o name = (m : Fields D) × (Json.find name o ≡ some (object m))

  -- What a tweet object must have.
  abbrev pub HasRequired : Fields D → Type 0
  HasRequired o =
      HasObject o (codes "user")
      × HasString o (codes "text")
      × HasInt o (codes "id")
      × HasString o (codes "created_at")

  not_null :
      {R : Type 0} (get : Value D → Option R) (x : Value D) (r : R)
      → get null ≡ none
      → get x ≡ some r
      → is_null x ≡ false
  not_null get null r n g = cc
  not_null get _ r n g = refl

  -- `set_if_found` returns true on a member that is there, is not null and has the type.
  set_if_found_lem :
      {R T : Type 0} (get : Value D → Option R) (conv : R → T) (v : T) (o : Fields D) (name : Bytes)
      → get null ≡ none
      → ((set_if_found get conv v o name).1 ≡ true)
        ↔ ((x : Value D) × (r : R) × (Json.find name o ≡ some x) × (get x ≡ some r))
  unfolding set_if_found
  set_if_found_lem get conv v o name n = elim (Option-cases (Json.find name o)) [
    | inl e ↦ ground arith
    | inr (x, e) ↦ elim (Option-cases (get x)) [
      | inl g ↦ (λ h. ground arith, λ t. absurd (cc (e, g, t.2, t.3)))
      | inr (r, g) ↦ (λ h. (x, r, e, g), λ t. ground (arith, not_null get x r n g))
    ]
  ]

  get_string-eq : (x : Value D) (s : Bytes) → get_string x ≡ some s → x ≡ string s
  get_string-eq (string t) s h = cc
  get_string-eq _ s h = cc

  get_int-eq : (x : Value D) (z : ℤ) → get_int x ≡ some z → x ≡ int z
  get_int-eq (int t) z h = cc
  get_int-eq _ z h = cc

  get_object-eq : (x : Value D) (m : Fields D) → get_object x ≡ some m → x ≡ object m
  get_object-eq (object t) z h = cc
  get_object-eq _ z h = cc

  module _ {T : Type 0} (v : T) (o : Fields D) (name : Bytes) where
    pub found_string :
        (conv : Bytes → T) → ((set_if_found get_string conv v o name).1 ≡ true) ↔ HasString o name
    found_string conv =
        let lem = set_if_found_lem get_string conv v o name refl in
        (
          λ h. let (x, s, e, g) = lem.0 h in (s, e ∙ ap some (get_string-eq x s g)),
          λ (s, e). lem.1 (string s, s, e, refl),
        )

    pub found_int : (conv : ℤ → T) → ((set_if_found get_int conv v o name).1 ≡ true) ↔ HasInt o name
    found_int conv =
        let lem = set_if_found_lem get_int conv v o name refl in
        (
          λ h. let (x, s, e, g) = lem.0 h in (s, e ∙ ap some (get_int-eq x s g)),
          λ (s, e). lem.1 (int s, s, e, refl),
        )

    pub found_object :
        (conv : Fields D → T)
        → ((set_if_found get_object conv v o name).1 ≡ true) ↔ HasObject o name
    found_object conv =
        let lem = set_if_found_lem get_object conv v o name refl in
        (
          λ h. let (x, s, e, g) = lem.0 h in (s, e ∙ ap some (get_object-eq x s g)),
          λ (s, e). lem.1 (object s, s, e, refl),
        )

    -- The value that is set.
    pub value_string :
        (conv : Bytes → T) (s : Bytes)
        → Json.find name o ≡ some (string s)
        → set_if_found get_string conv v o name ≡ (conv s, true)
    unfolding set_if_found
    value_string conv s e = rw (e, set_if_found)

    pub value_int :
        (conv : ℤ → T) (z : ℤ)
        → Json.find name o ≡ some (int z)
        → set_if_found get_int conv v o name ≡ (conv z, true)
    unfolding set_if_found
    value_int conv z e = rw (e, set_if_found)

    pub value_object :
        (conv : Fields D → T) (m : Fields D)
        → Json.find name o ≡ some (object m)
        → set_if_found get_object conv v o name ≡ (conv m, true)
    unfolding set_if_found
    value_object conv m e = rw (e, set_if_found)
