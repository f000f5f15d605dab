-- ===== src/Bytes.antt =====
-- Numbers written as bytes: `to_le_bytes`, `to_be_bytes` and the canonical bytes of keys.
use rusk.Prelude.{
  ℕ, zero, suc, ◌+◌, ◌*◌, ◌/◌, ◌%◌, ◌<◌, ◌≡◌, refl, ap, [], ◌∷◌, ◌++◌, arith, length, length-append,
  Bool, true, false, ◌==◌, ◌&&◌,
}
use rusk.Vm.{Bytes}

-- The `w` low bytes of a number, least significant first.
unfoldable pub to_le_bytes : ℕ → ℕ → Bytes
to_le_bytes zero n = []
to_le_bytes (suc w) n = (n % 256) ∷ to_le_bytes w (n / 256)

-- The same, most significant first.
unfoldable pub to_be_bytes : ℕ → ℕ → Bytes
to_be_bytes zero n = []
to_be_bytes (suc w) n = to_be_bytes w (n / 256) ++ (n % 256) ∷ []

unfoldable pub from_le_bytes : Bytes → ℕ
from_le_bytes [] = 0
from_le_bytes (b ∷ bs) = b + 256 * from_le_bytes bs

pub length-to_le_bytes : (w n : ℕ) → length (to_le_bytes w n) ≡ w
unfolding to_le_bytes
length-to_le_bytes zero n = refl
length-to_le_bytes (suc w) n = ap suc (length-to_le_bytes w (n / 256))

pub length-to_be_bytes : (w n : ℕ) → length (to_be_bytes w n) ≡ w
unfolding to_be_bytes
length-to_be_bytes zero n = refl
length-to_be_bytes (suc w) n = omega (
  arith,
  length-append (to_be_bytes w (n / 256)) ((n % 256) ∷ []),
  length-to_be_bytes w (n / 256),
)

abbrev pub byte_range : ℕ → ℕ
byte_range zero = 1
byte_range (suc w) = 256 * byte_range w

pub from_le-to_le : (w n : ℕ) → n < byte_range w → from_le_bytes (to_le_bytes w n) ≡ n
unfolding to_le_bytes from_le_bytes
from_le-to_le zero n h = omega arith
from_le-to_le (suc w) n h = omega (arith, from_le-to_le w (n / 256) (omega arith))

-- `==` on arrays and vectors of bytes.
unfoldable pub bytes_eq : Bytes → Bytes → Bool
bytes_eq [] [] = true
bytes_eq [] (c ∷ cs) = false
bytes_eq (b ∷ bs) [] = false
bytes_eq (b ∷ bs) (c ∷ cs) = (b == c) && bytes_eq bs cs

pub bytes_eq→eq : (bs cs : Bytes) → bytes_eq bs cs ≡ true → bs ≡ cs
unfolding bytes_eq
bytes_eq→eq [] [] h = refl
bytes_eq→eq [] (c ∷ cs) h = cc
bytes_eq→eq (b ∷ bs) [] h = cc
bytes_eq→eq (b ∷ bs) (c ∷ cs) h = ground (arith, bytes_eq→eq bs cs)

pub bytes_eq_refl : (bs : Bytes) → bytes_eq bs bs ≡ true
unfolding bytes_eq
bytes_eq_refl [] = refl
bytes_eq_refl (b ∷ bs) = ground (arith, bytes_eq_refl bs)

pub eq→bytes_eq : (bs cs : Bytes) → bs ≡ cs → bytes_eq bs cs ≡ true
eq→bytes_eq bs cs h = rw h (bytes_eq_refl cs)
