-- ===== src/StringMap/Laws.antt =====
-- The operations keep the order of the keys and act as a finite function.
use black_circle.Prelude.{
  true, false, [], ◌∷◌, none, some, ◌≡◌, inl, inr, refl, sym, subst, arith, Bytes, bytes_eq,
  bytes_lt, bytes_eq_iff, bytes_eq_refl, bytes_lt_irrefl, bytes_lt_trans, bytes_trichotomy,
  if◌then◌else◌, All, Bool-cases,
}
use black_circle.StringMap.{StringMap, find, assign, insert, erase, Above, IsSorted}

gt_of_not : (j k : Bytes) → bytes_eq j k ≡ false → bytes_lt j k ≡ false → bytes_lt k j ≡ true
gt_of_not j k h l = ground (arith, bytes_trichotomy j k, bytes_eq_iff j k)

module _ {ℓ} {V : Type ℓ} where
  Above-trans : (j k : Bytes) (m : StringMap V) → bytes_lt j k ≡ true → Above k m → Above j m
  Above-trans j k [] h a = tt
  Above-trans j k (p ∷ m) h a = (bytes_lt_trans j k p.0 h a.0, Above-trans j k m h a.1)

  -- A key below all the others is not there.
  find-Above : (k : Bytes) (m : StringMap V) → Above k m → find k m ≡ none
  unfolding find
  find-Above k [] a = refl
  find-Above k (p ∷ m) a = ground (arith, bytes_eq_iff k p.0, bytes_lt_irrefl k, find-Above k m a.1)

  assign-Above :
      (j k : Bytes) (v : V) (m : StringMap V)
      → bytes_lt j k ≡ true
      → Above j m
      → Above j (assign k v m)
  unfolding assign
  assign-Above j k v [] h a = (h, tt)
  assign-Above j k v (p ∷ m) h a = ground (arith, assign-Above j k v m h a.1)

  pub assign-IsSorted : (k : Bytes) (v : V) (m : StringMap V) → IsSorted m → IsSorted (assign k v m)
  unfolding assign
  assign-IsSorted k v [] s = (tt, tt)
  assign-IsSorted k v (p ∷ m) s = elim (Bool-cases (bytes_eq k p.0)) [
    | inl same ↦ rw same (subst (λ j. Above j m) (sym ((bytes_eq_iff k p.0).0 same)) s.0, s.1)
    | inr other ↦ rw other (elim (Bool-cases (bytes_lt k p.0)) [
      | inl before ↦ rw before ((before, Above-trans k p.0 m before s.0), s)
      | inr after ↦
          rw after
            (assign-Above p.0 k v m (gt_of_not k p.0 other after) s.0, assign-IsSorted k v m s.1)
    ])
  ]

  pub find-assign :
      (j k : Bytes) (v : V) (m : StringMap V)
      → find j (assign k v m) ≡ (if bytes_eq j k then some v else find j m)
  unfolding find assign
  find-assign j k v [] = refl
  find-assign j k v (p ∷ m) =
      ground (arith, bytes_eq_iff j k, bytes_eq_iff k p.0, bytes_eq_iff j p.0, find-assign j k v m)

  pub find-erase :
      (j k : Bytes) (m : StringMap V)
      → IsSorted m
      → find j (erase k m) ≡ (if bytes_eq j k then none else find j m)
  unfolding find erase
  find-erase j k [] s = ground arith
  find-erase j k (p ∷ m) s = ground (
    arith,
    bytes_eq_iff j k,
    bytes_eq_iff k p.0,
    bytes_eq_iff j p.0,
    find-Above p.0 m s.0,
    find-erase j k m s.1,
  )

  erase-Above : (j k : Bytes) (m : StringMap V) → Above j m → Above j (erase k m)
  unfolding erase
  erase-Above j k [] a = tt
  erase-Above j k (p ∷ m) a = ground (arith, erase-Above j k m a.1)

  pub erase-IsSorted : (k : Bytes) (m : StringMap V) → IsSorted m → IsSorted (erase k m)
  unfolding erase
  erase-IsSorted k [] s = tt
  erase-IsSorted k (p ∷ m) s = ground (arith, erase-Above p.0 k m s.0, erase-IsSorted k m s.1)

  -- `insert` keeps the value that is there.
  pub find-insert :
      (j k : Bytes) (v : V) (m : StringMap V)
      → find j (insert k v m)
        ≡ elim (find k m) [ some _ ↦ find j m | none ↦ if bytes_eq j k then some v else find j m ]
  unfolding insert
  find-insert j k v m = ground (arith, find-assign j k v m)

  pub insert-IsSorted : (k : Bytes) (v : V) (m : StringMap V) → IsSorted m → IsSorted (insert k v m)
  unfolding insert
  insert-IsSorted k v m s = ground (arith, assign-IsSorted k v m s)

  find_head : (p : Bytes × V) (m : StringMap V) → find p.0 (p ∷ m) ≡ some p.1
  unfolding find
  find_head p m = rw (bytes_eq_refl p.0)

  -- A key of one map is not below all the keys of another that looks up alike.
  no_less :
      (p : Bytes × V) (m n : StringMap V)
      → ((k : Bytes) → find k (p ∷ m) ≡ find k n)
      → Above p.0 n
      → ⊥
  no_less p m n h a = cc (find_head p m, h p.0, find-Above p.0 n a)

  same_key :
      (p q : Bytes × V) (m n : StringMap V)
      → IsSorted (p ∷ m)
      → IsSorted (q ∷ n)
      → ((k : Bytes) → find k (p ∷ m) ≡ find k (q ∷ n))
      → p.0 ≡ q.0
  same_key p q m n s t h = elim (bytes_trichotomy p.0 q.0) [
    | inl e ↦ e
    | inr (inl l) ↦ absurd (no_less p m (q ∷ n) h (l, Above-trans p.0 q.0 n l t.0))
    | inr (inr g) ↦ absurd (no_less q n (p ∷ m) (λ k. sym (h k)) (g, Above-trans q.0 p.0 m g s.0))
  ]

  same_tail :
      (p q : Bytes × V) (m n : StringMap V) (k : Bytes)
      → p.0 ≡ q.0
      → Above p.0 m
      → Above q.0 n
      → find k (p ∷ m) ≡ find k (q ∷ n)
      → find k m ≡ find k n
  unfolding find
  same_tail p q m n k e a b h =
      ground (arith, bytes_eq_iff k p.0, bytes_eq_iff k q.0, find-Above p.0 m a, find-Above q.0 n b)

  -- Sorted maps that look up alike are the same map.
  pub eq_of_find :
      (m n : StringMap V) → IsSorted m → IsSorted n → ((k : Bytes) → find k m ≡ find k n) → m ≡ n
  eq_of_find [] [] s t h = refl
  eq_of_find [] (q ∷ n) s t h = cc (h q.0, find_head q n, find-Above q.0 [] tt)
  eq_of_find (p ∷ m) [] s t h = cc (h p.0, find_head p m, find-Above p.0 [] tt)
  eq_of_find (p ∷ m) (q ∷ n) s t h =
      let e = same_key p q m n s t h in
      let rest = eq_of_find m n s.1 t.1 (λ k. same_tail p q m n k e s.0 t.0 (h k)) in
      cc (h p.0, find_head p m, find_head q n, e, rest)

-- A property of every pair.
module _ {ℓ κ} {V : Type ℓ} (P : Bytes × V → Type κ) where
  pub assign-All : (k : Bytes) (v : V) (m : StringMap V) → P (k, v) → All P m → All P (assign k v m)
  unfolding assign
  assign-All k v [] h a = (h, tt)
  assign-All k v (p ∷ m) h a = ground (arith, assign-All k v m h a.1)

  pub erase-All : (k : Bytes) (m : StringMap V) → All P m → All P (erase k m)
  unfolding erase
  erase-All k [] a = tt
  erase-All k (p ∷ m) a = ground (arith, erase-All k m a.1)
