-- ===== src/Map/Weight.antt =====
-- The sum of a number over the values of a map, under each update.
use rusk.Prelude.{ℕ, ◌+◌, ◌≤◌, ◌≡◌, Option, none, some, [], ◌∷◌, arith}
use rusk.Map.{Map, get, insert, remove}

module _ {ℓ} {V : Type ℓ} (f : V → ℕ) where
  unfoldable pub total : Map V → ℕ
  total [] = 0
  total ((_, v) ∷ m) = f v + total m

  -- What the entry of a key adds to the sum.
  abbrev pub share : Option V → ℕ
  share none = 0
  share (some v) = f v

  pub total-insert :
      (k : ℕ) (v : V) (m : Map V) → total (insert k v m) + share (get k m) ≡ total m + f v
  unfolding total get insert
  total-insert k v [] = omega arith
  total-insert k v ((j, w) ∷ m) = ground (arith, total-insert k v m)

  pub total-remove : (k : ℕ) (m : Map V) → total (remove k m) + share (get k m) ≡ total m
  unfolding total get remove
  total-remove k [] = omega arith
  total-remove k ((j, w) ∷ m) = ground (arith, total-remove k m)

  pub share-le-total : (k : ℕ) (m : Map V) → share (get k m) ≤ total m
  unfolding total get
  share-le-total k [] = omega arith
  share-le-total k ((j, w) ∷ m) = ground (arith, share-le-total k m)
