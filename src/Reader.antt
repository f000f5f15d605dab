-- ===== src/Reader.antt =====
-- A buffer that is read from the front: `io::Read` over a slice in node-data/src/lib.rs, and the
-- `&mut &[u8]` of core/src/lib.rs and the `dusk_bytes` crate. A reader gives what it read and the
-- rest. A panic of the source, such as of a slice index out of range, is the error `panicked`.
pub mod RoundTrip
pub mod Extension
pub mod Panics
use rusk.Prelude.{
  ℕ, zero, suc, Bool, List, [], ◌∷◌, ◌<◌, ltb, take, drop, length, if◌then◌else◌, ◌^◌,
}
use rusk.Vm.{Bytes}
use rusk.Bytes.{from_le_bytes}

pub data Error : Type 0 where
  unexpected_eof invalid_data bad_length panicked : Error

pub data Result {ℓ} (A : Type ℓ) : Type ℓ where
  ok : A → Result A
  err : Error → Result A

abbrev pub Reader : Type 0 → Type 0
Reader A = Bytes → Result (A × Bytes)

abbrev pub IsU8 : ℕ → Type 0
IsU8 n = n < 256

abbrev pub IsU16 : ℕ → Type 0
IsU16 n = n < 2 ^ 16

abbrev pub IsU32 : ℕ → Type 0
IsU32 n = n < 2 ^ 32

abbrev pub IsU64 : ℕ → Type 0
IsU64 n = n < 2 ^ 64

module _ {A : Type 0} where
  unfoldable pub pure : A → Reader A
  pure a bs = ok (a, bs)

  unfoldable pub fail : Error → Reader A
  fail e bs = err e

  unfoldable pub after : {B : Type 0} → Result (A × Bytes) → (A → Reader B) → Result (B × Bytes)
  after (ok (a, rest)) f = f a rest
  after (err e) f = err e

  infixl 5 ◌>>=◌
  unfoldable pub ◌>>=◌ : {B : Type 0} → Reader A → (A → Reader B) → Reader B
  unfolding after
  ◌>>=◌ m f bs = after (m bs) f

module _ {A : Type 0} where
  -- `n` values in turn, as `(0..n).map(|_| read(r)).collect()` does.
  unfoldable pub read_many : ℕ → Reader A → Reader (List A)
  unfolding ◌>>=◌ pure
  read_many zero r = pure []
  read_many (suc n) r = do a ← r; more ← read_many n r; pure (a ∷ more)

-- `&bs[..n]` and `&bs[n..]`, with the panic of an index out of range.
abbrev pub split_slice : ℕ → Reader Bytes
split_slice n bs = if ltb (length bs) n then err Error.panicked else ok (take n bs, drop n bs)

-- `n` bytes, or the error `e` where there are fewer: the length is tested before the slices are taken.
unfoldable pub read_exact : Error → ℕ → Reader Bytes
read_exact e n bs = if ltb (length bs) n then err e else split_slice n bs

unfoldable pub read_bytes : ℕ → Reader Bytes
unfolding read_exact
read_bytes n = read_exact Error.unexpected_eof n

-- The first byte, or the error where there is none.
unfoldable pub first_byte : Error → Reader ℕ
first_byte e [] = err e
first_byte e (b ∷ bs) = ok (b, bs)

unfoldable pub read_u8 : Reader ℕ
unfolding first_byte
read_u8 = first_byte Error.unexpected_eof

-- A little-endian number of `w` bytes.
unfoldable pub read_le : Error → ℕ → Reader ℕ
unfolding read_exact ◌>>=◌ pure
read_le e w = do bs ← read_exact e w; pure (from_le_bytes bs)

unfoldable pub read_u16_le : Reader ℕ
unfolding read_le
read_u16_le = read_le Error.unexpected_eof 2

unfoldable pub read_u32_le : Reader ℕ
unfolding read_le
read_u32_le = read_le Error.unexpected_eof 4

unfoldable pub read_u64_le : Reader ℕ
unfolding read_le
read_u64_le = read_le Error.unexpected_eof 8

-- `read_var_le_bytes32`
unfoldable pub read_var_le_bytes32 : Reader Bytes
unfolding read_u32_le read_bytes ◌>>=◌
read_var_le_bytes32 = do len ← read_u32_le; read_bytes len
