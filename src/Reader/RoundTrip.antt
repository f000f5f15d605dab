-- ===== src/Reader/RoundTrip.antt =====
-- What a reader makes of written bytes, whatever follows them.
use rusk.Prelude.{
  ℕ, List, [], ◌∷◌, ◌++◌, ◌≡◌, refl, ap, ◌<◌, length, take, drop, arith, length-append, All, map,
}
use rusk.Vm.{Bytes}
use rusk.Bytes.{to_le_bytes, length-to_le_bytes, from_le-to_le, byte_range}
use rusk.Reader.{
  Reader, Error, ok, pure, ◌>>=◌, read_exact, read_bytes, read_u8, read_le, read_u16_le,
  read_u32_le, read_u64_le, read_many, read_var_le_bytes32, IsU16, IsU32, IsU64,
}
use mathlib.Core.List.{append_assoc}

pub record ReadsBack {A : Type 0} (r : Reader A) (bs : Bytes) (a : A) : Type 0 where
  pub then_rest : (rest : Bytes) → r (bs ++ rest) ≡ ok (a, rest)

module _ {A : Type 0} where
  pub ReadsBack-pure : (a : A) → ReadsBack (pure a) [] a
  unfolding pure
  ReadsBack-pure a = record { then_rest = λ rest. refl }

  pub ReadsBack-bind :
      {B : Type 0} {r : Reader A} {bs cs : Bytes} {a : A} {b : B} (f : A → Reader B)
      → ReadsBack r bs a
      → ReadsBack (f a) cs b
      → ReadsBack (r >>= f) (bs ++ cs) b
  unfolding ◌>>=◌
  ReadsBack-bind {B} {r} {bs} {cs} {a} {b} f h k = record {
    then_rest =
        λ rest. rw (append_assoc bs cs rest) (rw (h.then_rest (cs ++ rest)) (k.then_rest rest));
  }

  pub ReadsBack-last :
      {B : Type 0} {r : Reader A} {bs : Bytes} {a : A} (f : A → B)
      → ReadsBack r bs a
      → ReadsBack (r >>= λ x. pure (f x)) bs (f a)
  unfolding ◌>>=◌ pure
  ReadsBack-last f h = record { then_rest = λ rest. rw (h.then_rest rest) }

  -- A step that reads nothing, such as a check.
  pub ReadsBack-then :
      {B : Type 0} {r : Reader A} {bs : Bytes} {a : A} {b : B} (f : A → Reader B)
      → ReadsBack r bs a
      → ReadsBack (f a) [] b
      → ReadsBack (r >>= f) bs b
  unfolding ◌>>=◌
  ReadsBack-then f h k = record { then_rest = λ rest. rw (h.then_rest rest) (k.then_rest rest) }

  -- One byte in front, such as a tag.
  pub ReadsBack-tag :
      {cs : Bytes} {a : A} (f : ℕ → Reader A) (n : ℕ)
      → ReadsBack (f n) cs a
      → ReadsBack (read_u8 >>= f) (n ∷ cs) a
  unfolding ◌>>=◌ read_u8
  ReadsBack-tag f n h = record { then_rest = λ rest. h.then_rest rest }

take-append : (xs ys : Bytes) → take (length xs) (xs ++ ys) ≡ xs
take-append [] ys = elim ys [ [] ↦ refl | y ∷ zs ↦ refl ]
take-append (x ∷ xs) ys = ap (λ (zs : Bytes). x ∷ zs) (take-append xs ys)

drop-append : (xs ys : Bytes) → drop (length xs) (xs ++ ys) ≡ ys
drop-append [] ys = elim ys [ [] ↦ refl | y ∷ zs ↦ refl ]
drop-append (x ∷ xs) ys = drop-append xs ys

pub ReadsBack-exact :
    (e : Error) (n : ℕ) (xs : Bytes) → length xs ≡ n → ReadsBack (read_exact e n) xs xs
unfolding read_exact
ReadsBack-exact e n xs h = record {
  then_rest = λ rest.
      rw (← h) (ground (arith, length-append xs rest, take-append xs rest, drop-append xs rest));
}

pub ReadsBack-bytes : (n : ℕ) (xs : Bytes) → length xs ≡ n → ReadsBack (read_bytes n) xs xs
unfolding read_bytes
ReadsBack-bytes n xs h = ReadsBack-exact Error.unexpected_eof n xs h

pub ReadsBack-u8 : (n : ℕ) → ReadsBack read_u8 (n ∷ []) n
unfolding read_u8
ReadsBack-u8 n = record { then_rest = λ rest. refl }

pub ReadsBack-le :
    (e : Error) (w n : ℕ) → n < byte_range w → ReadsBack (read_le e w) (to_le_bytes w n) n
unfolding read_le ◌>>=◌ pure
ReadsBack-le e w n h = record {
  then_rest = λ rest.
      rw ((ReadsBack-exact e w (to_le_bytes w n) (length-to_le_bytes w n)).then_rest rest)
        (ap (λ (m : ℕ). ok (m, rest)) (from_le-to_le w n h));
}

pub ReadsBack-u16 : (n : ℕ) → IsU16 n → ReadsBack read_u16_le (to_le_bytes 2 n) n
unfolding read_u16_le
ReadsBack-u16 n h = ReadsBack-le Error.unexpected_eof 2 n (omega arith)

pub ReadsBack-u32 : (n : ℕ) → IsU32 n → ReadsBack read_u32_le (to_le_bytes 4 n) n
unfolding read_u32_le
ReadsBack-u32 n h = ReadsBack-le Error.unexpected_eof 4 n (omega arith)

pub ReadsBack-u64 : (n : ℕ) → IsU64 n → ReadsBack read_u64_le (to_le_bytes 8 n) n
unfolding read_u64_le
ReadsBack-u64 n h = ReadsBack-le Error.unexpected_eof 8 n (omega arith)

pub ReadsBack-var :
    (bs : Bytes)
    → IsU32 (length bs)
    → ReadsBack read_var_le_bytes32 (to_le_bytes 4 (length bs) ++ bs) bs
unfolding read_var_le_bytes32
ReadsBack-var bs h =
    ReadsBack-bind _ (ReadsBack-u32 (length bs) h) (ReadsBack-bytes (length bs) bs refl)

module _ {A : Type 0} where
  -- The writes of a list, one after another.
  unfoldable pub write_all : (A → Bytes) → List A → Bytes
  write_all w [] = []
  write_all w (x ∷ xs) = w x ++ write_all w xs

  pub ReadsBack-many :
      {P : A → Type 0} (r : Reader A) (w : A → Bytes)
      → ((x : A) → P x → ReadsBack r (w x) x)
      → (xs : List A) → All P xs
      → ReadsBack (read_many (length xs) r) (write_all w xs) xs
  unfolding read_many write_all
  ReadsBack-many r w each [] h = ReadsBack-pure []
  ReadsBack-many r w each (x ∷ xs) (hx, hxs) =
      ReadsBack-bind _ (each x hx) (ReadsBack-last _ (ReadsBack-many r w each xs hxs))

-- The same where a value comes back in another form.
pub ReadsBack-many_as :
    {A B : Type 0} {P : A → Type 0} (r : Reader B) (w : A → Bytes) (g : A → B)
    → ((x : A) → P x → ReadsBack r (w x) (g x))
    → (xs : List A) → All P xs
    → ReadsBack (read_many (length xs) r) (write_all w xs) (map g xs)
unfolding read_many write_all
ReadsBack-many_as r w g each [] h = ReadsBack-pure []
ReadsBack-many_as r w g each (x ∷ xs) (hx, hxs) =
    ReadsBack-bind _ (each x hx) (ReadsBack-last _ (ReadsBack-many_as r w g each xs hxs))
