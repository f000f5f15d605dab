-- ===== src/TxBytes/Slices.antt =====
-- core/src/lib.rs: reading from a slice, with the errors of `dusk_bytes`, and the parts of a slice
-- that are handed to another reader.
use rusk.Prelude.{ℕ, ◌≡◌, ◌++◌, refl, Bool, true, [], ◌∷◌, if◌then◌else◌, length, arith, ap}
use rusk.Vm.{Bytes}
use rusk.Bytes.{to_le_bytes}
use rusk.Reader.{
  Reader, Error, Result, ok, err, pure, fail, after, ◌>>=◌, read_exact, first_byte, read_le, IsU64,
}
use rusk.Reader.RoundTrip.{ReadsBack, ReadsBack-bind, ReadsBack-exact, ReadsBack-le}
use mathlib.Core.List.{append-nil}

-- What this code takes of other crates: whether bytes are a BLS key, a BLS signature, UTF-8 text, a
-- stealth address or a Phoenix sender, and the bytes of a transaction skeleton.
pub record Crates (Skeleton : Type 0) : Type 0 where
  pub is_key : Bytes → Bool
  pub is_signature : Bytes → Bool
  pub is_utf8 : Bytes → Bool
  pub stealth_address_size : ℕ
  pub is_stealth_address : Bytes → Bool
  pub sender_size : ℕ
  pub is_sender : Bytes → Bool
  pub skeleton_to_var_bytes : Skeleton → Bytes
  pub skeleton_from_slice : Bytes → Result Skeleton

-- A skeleton is read back from the front of a longer buffer.
pub record CratesLaws {Skeleton : Type 0} (c : Crates Skeleton) : Type 0 where
  pub from_slice-to_var_bytes :
      (s : Skeleton) (rest : Bytes)
      → c.skeleton_from_slice (c.skeleton_to_var_bytes s ++ rest) ≡ ok s

unfoldable pub read_u64 : Reader ℕ
unfolding read_le
read_u64 = read_le Error.bad_length 8

unfoldable pub read_byte : Reader ℕ
unfolding first_byte
read_byte = first_byte Error.bad_length

unfoldable pub read_vec : Reader Bytes
unfolding read_u64 read_exact ◌>>=◌
read_vec = do len ← read_u64; read_exact Error.invalid_data len

unfoldable pub checked : (Bytes → Bool) → Bytes → Reader Bytes
unfolding pure fail
checked test bs = if test bs then pure bs else fail Error.invalid_data

unfoldable pub read_str : (Bytes → Bool) → Reader Bytes
unfolding read_vec checked ◌>>=◌
read_str is_utf8 = do bs ← read_vec; checked is_utf8 bs

unfoldable pub read_arr : ℕ → Reader Bytes
unfolding read_exact
read_arr n = read_exact Error.invalid_data n

-- `n` bytes that a test of the type accepts, such as a key.
unfoldable pub read_checked : ℕ → (Bytes → Bool) → Reader Bytes
unfolding read_exact checked ◌>>=◌
read_checked n test = do bs ← read_exact Error.bad_length n; checked test bs

unfoldable pub write_vec : Bytes → Bytes
write_vec bs = to_le_bytes 8 (length bs) ++ bs

module _ {A : Type 0} where
  unfoldable pub value_of : Result (A × Bytes) → Result A
  value_of (ok (a, rest)) = ok a
  value_of (err e) = err e

  -- To read a slice and forget what is left of it.
  unfoldable pub run : Reader A → Bytes → Result A
  unfolding value_of
  run r bs = value_of (r bs)

  unfoldable pub keep : Result A → Reader A
  keep (ok a) bs = ok (a, bs)
  keep (err e) bs = err e

  -- `T::from_slice(buf)?`, which does not move `buf`.
  unfoldable pub peek : (Bytes → Result A) → Reader A
  unfolding keep
  peek from_slice bs = keep (from_slice bs) bs

  -- What reading a whole slice gives.
  pub record RunsTo (r : Reader A) (bs : Bytes) (x : Result A) : Type 0 where
    pub result : run r bs ≡ x

  pub ReadsBack-RunsTo : {r : Reader A} {bs : Bytes} {a : A} → ReadsBack r bs a → RunsTo r bs (ok a)
  unfolding run
  ReadsBack-RunsTo {r} {bs} {a} h = record {
    result = rw (append-nil bs) at (ap value_of (h.then_rest []));
  }

pub RunsTo-bind :
    {A B : Type 0} {r : Reader A} {bs cs : Bytes} {a : A} {x : Result B} (f : A → Reader B)
    → ReadsBack r bs a
    → RunsTo (f a) cs x
    → RunsTo (r >>= f) (bs ++ cs) x
unfolding run ◌>>=◌
RunsTo-bind {A} {B} {r} {bs} {cs} f h k = record { result = rw (h.then_rest cs) k.result }

pub RunsTo-tag :
    {A : Type 0} {cs : Bytes} {x : Result A} (f : ℕ → Reader A) (n : ℕ)
    → RunsTo (f n) cs x
    → RunsTo (read_byte >>= f) (n ∷ cs) x
unfolding run ◌>>=◌ read_byte
RunsTo-tag f n k = record { result = k.result }

pub RunsTo-peek :
    {A B : Type 0} {bs : Bytes} {a : A} (from_slice : Bytes → Result A) (f : A → B)
    → from_slice bs ≡ ok a
    → RunsTo (peek from_slice >>= λ x. pure (f x)) bs (ok (f a))
unfolding run ◌>>=◌ peek pure
RunsTo-peek from_slice f h = record { result = rw h }

pub RunsTo-last :
    {A B : Type 0} {r : Reader A} {bs : Bytes} {a : A} (f : A → B)
    → RunsTo r bs (ok a)
    → RunsTo (r >>= λ x. pure (f x)) bs (ok (f a))
unfolding run ◌>>=◌ pure
RunsTo-last {A} {B} {r} {bs} {a} f h = record { result = final (r bs) h.result }
  where
    final :
        (m : Result (A × Bytes))
        → value_of m ≡ ok a
        → value_of (after m (λ x. pure (f x))) ≡ ok (f a)
    final (ok (x, rest)) e = cc
    final (err e') e = cc

pub ReadsBack-u64_slice : (n : ℕ) → IsU64 n → ReadsBack read_u64 (to_le_bytes 8 n) n
unfolding read_u64
ReadsBack-u64_slice n h = ReadsBack-le Error.bad_length 8 n (omega arith)

pub ReadsBack-byte : (b : ℕ) → ReadsBack read_byte (b ∷ []) b
unfolding read_byte
ReadsBack-byte b = record { then_rest = λ rest. refl }

pub ReadsBack-vec : (bs : Bytes) → IsU64 (length bs) → ReadsBack read_vec (write_vec bs) bs
unfolding read_vec write_vec
ReadsBack-vec bs h =
    ReadsBack-bind _ (ReadsBack-u64_slice (length bs) h)
      (ReadsBack-exact Error.invalid_data (length bs) bs refl)

pub ReadsBack-check :
    {r : Reader Bytes} {bs xs : Bytes} (test : Bytes → Bool)
    → test xs ≡ true
    → ReadsBack r bs xs
    → ReadsBack (r >>= checked test) bs xs
unfolding checked ◌>>=◌
ReadsBack-check test ok_test h = record { then_rest = λ rest. rw (h.then_rest rest, ok_test) }

pub ReadsBack-arr : (n : ℕ) (bs : Bytes) → length bs ≡ n → ReadsBack (read_arr n) bs bs
unfolding read_arr
ReadsBack-arr n bs h = ReadsBack-exact Error.invalid_data n bs h

pub ReadsBack-checked :
    (n : ℕ) (test : Bytes → Bool) (bs : Bytes)
    → length bs ≡ n
    → test bs ≡ true
    → ReadsBack (read_checked n test) bs bs
unfolding read_checked
ReadsBack-checked n test bs h t = ReadsBack-check test t (ReadsBack-exact Error.bad_length n bs h)

pub ReadsBack-str :
    (is_utf8 : Bytes → Bool) (bs : Bytes)
    → IsU64 (length bs)
    → is_utf8 bs ≡ true
    → ReadsBack (read_str is_utf8) (write_vec bs) bs
unfolding read_str
ReadsBack-str is_utf8 bs h t = ReadsBack-check is_utf8 t (ReadsBack-vec bs h)
