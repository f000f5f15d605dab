-- ===== src/Map/Sorted.antt =====
-- The entries of a map stand in strictly rising order, and what that gives for `remove`.
use rusk.Prelude.{ℕ, suc, ◌≤◌, ◌<◌, ◌≡◌, refl, none, [], ◌∷◌, arith, ◌==◌, if◌then◌else◌}
use rusk.Map.{Map, get, insert, remove, or_insert}

-- Every key is at least `lo`, and the keys rise.
abbrev pub SortedFrom {ℓ} : {V : Type ℓ} → ℕ → Map V → Type 0
SortedFrom lo [] = Unit
SortedFrom lo ((k, v) ∷ m) = (lo ≤ k) × SortedFrom (suc k) m

abbrev pub IsSorted {ℓ} : {V : Type ℓ} → Map V → Type 0
IsSorted m = SortedFrom 0 m

module _ {ℓ} {V : Type ℓ} where
  pub SortedFrom-mono : (a b : ℕ) (m : Map V) → a ≤ b → SortedFrom b m → SortedFrom a m
  SortedFrom-mono a b [] h s = tt
  SortedFrom-mono a b ((k, v) ∷ m) h s = (omega arith, s.1)

  pub get_below : (j lo : ℕ) (m : Map V) → SortedFrom lo m → j < lo → get j m ≡ none
  unfolding get
  get_below j lo [] s h = refl
  get_below j lo ((k, v) ∷ m) s h = ground arith

  insert-SortedFrom :
      (lo k : ℕ) (v : V) (m : Map V) → SortedFrom lo m → lo ≤ k → SortedFrom lo (insert k v m)
  unfolding insert
  insert-SortedFrom lo k v [] s h = (h, tt)
  insert-SortedFrom lo k v ((j, w) ∷ m) s h =
      ground (arith, insert-SortedFrom (suc j) k v m s.1, SortedFrom-mono (suc k) j m)

  pub insert-IsSorted : (k : ℕ) (v : V) (m : Map V) → IsSorted m → IsSorted (insert k v m)
  insert-IsSorted k v m s = insert-SortedFrom 0 k v m s (omega arith)

  pub or_insert-IsSorted : (k : ℕ) (v : V) (m : Map V) → IsSorted m → IsSorted (or_insert k v m)
  unfolding or_insert
  or_insert-IsSorted k v m s = ground (arith, insert-IsSorted k v m s)

  remove-SortedFrom : (lo k : ℕ) (m : Map V) → SortedFrom lo m → SortedFrom lo (remove k m)
  unfolding remove
  remove-SortedFrom lo k [] s = tt
  remove-SortedFrom lo k ((j, w) ∷ m) s =
      ground (arith, remove-SortedFrom (suc j) k m s.1, SortedFrom-mono lo (suc j) m)

  pub remove-IsSorted : (k : ℕ) (m : Map V) → IsSorted m → IsSorted (remove k m)
  remove-IsSorted k m s = remove-SortedFrom 0 k m s

  get-remove_from :
      (lo k j : ℕ) (m : Map V)
      → SortedFrom lo m
      → get j (remove k m) ≡ (if j == k then none else get j m)
  unfolding get remove
  get-remove_from lo k j [] s = ground arith
  get-remove_from lo k j ((i, w) ∷ m) s =
      ground (arith, get-remove_from (suc i) k j m s.1, get_below j (suc i) m s.1)

  pub get-remove :
      (k j : ℕ) (m : Map V) → IsSorted m → get j (remove k m) ≡ (if j == k then none else get j m)
  get-remove k j m s = get-remove_from 0 k j m s
