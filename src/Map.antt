-- ===== src/Map.antt =====
-- The standard library's `BTreeMap`, which the contracts and the consensus key by byte arrays. A
-- key is the number that its bytes spell, most significant first, so the order is the same. A map
-- is the list of its entries in the order of iteration.
pub mod Sorted
pub mod Weight
use rusk.Prelude.{
  ℕ, ◌≡◌, refl, Bool, true, false, Option, none, some, List, [], ◌∷◌, arith, compare, Ordering,
  ◌==◌, ltb, if◌then◌else◌, is_some, length,
}

abbrev pub Map {ℓ} : Type ℓ → Type ℓ
Map V = List (ℕ × V)

module _ {ℓ} {V : Type ℓ} where
  unfoldable pub get : ℕ → Map V → Option V
  get k [] = none
  get k ((j, v) ∷ m) =
      let rest = get k m in if ltb k j then none else if k == j then some v else rest

  unfoldable pub contains_key : ℕ → Map V → Bool
  contains_key k m = is_some (get k m)

  unfoldable pub insert : ℕ → V → Map V → Map V
  insert k v [] = (k, v) ∷ []
  insert k v ((j, w) ∷ m) =
      let rest = insert k v m in
      if ltb k j then (k, v) ∷ (j, w) ∷ m else if k == j then (k, v) ∷ m else (j, w) ∷ rest

  unfoldable pub remove : ℕ → Map V → Map V
  remove k [] = []
  remove k ((j, w) ∷ m) =
      let rest = remove k m in if ltb k j then (j, w) ∷ m else if k == j then m else (j, w) ∷ rest

  -- `entry(k).or_insert(v)`
  unfoldable pub or_insert : ℕ → V → Map V → Map V
  or_insert k v m = elim (get k m) [ none ↦ insert k v m | some _ ↦ m ]

  pub get-insert :
      (k j : ℕ) (v : V) (m : Map V) → get j (insert k v m) ≡ (if j == k then some v else get j m)
  unfolding get insert
  get-insert k j v [] = ground arith
  get-insert k j v ((i, w) ∷ m) = ground (arith, get-insert k j v m)

  pub get-or_insert :
      (k j : ℕ) (v : V) (m : Map V)
      → get j (or_insert k v m)
        ≡ (if j == k then (if is_some (get k m) then get k m else some v) else get j m)
  unfolding or_insert
  get-or_insert k j v m = ground (arith, get-insert k j v m)
