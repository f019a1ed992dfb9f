-- ===== src/StringMap.antt =====
-- `std::map<string, V>`: the pairs in the order of their keys. `find`, `operator []` as an
-- assignment, `erase` and `insert` (which keeps a value that is there) are the operations used.
pub mod Laws
use black_circle.Prelude.{
  Bool, true, List, [], ◌∷◌, Option, none, some, ◌≡◌, Bytes, bytes_eq, bytes_lt, if◌then◌else◌, All,
}

abbrev pub StringMap {ℓ} : Type ℓ → Type ℓ
StringMap V = List (Bytes × V)

module _ {ℓ} {V : Type ℓ} where
  -- `m.find(k)`: `none` is `m.end()`.
  unfoldable pub find : Bytes → StringMap V → Option V
  find k [] = none
  find k (p ∷ m) = if bytes_eq k p.0 then some p.1 else find k m

  -- `m[k] = v`.
  unfoldable pub assign : Bytes → V → StringMap V → StringMap V
  assign k v [] = (k, v) ∷ []
  assign k v (p ∷ m) =
      if bytes_eq k p.0
      then (k, v) ∷ m
      else if bytes_lt k p.0
      then (k, v) ∷ p ∷ m
      else p ∷ assign k v m

  -- `m.insert(make_pair(k, v))`.
  unfoldable pub insert : Bytes → V → StringMap V → StringMap V
  unfolding find
  insert k v m = elim (find k m) [ some _ ↦ m | none ↦ assign k v m ]

  -- `m.erase(k)`.
  unfoldable pub erase : Bytes → StringMap V → StringMap V
  erase k [] = []
  erase k (p ∷ m) = if bytes_eq k p.0 then m else p ∷ erase k m

  -- Every key of the map comes after `k`.
  abbrev pub Above : Bytes → StringMap V → Type 0
  Above k m = All (λ p. bytes_lt k p.0 ≡ true) m

  -- The keys ascend strictly, so none occurs twice.
  abbrev pub IsSorted : StringMap V → Type 0
  IsSorted [] = Unit
  IsSorted (p ∷ m) = Above p.0 m × IsSorted m
