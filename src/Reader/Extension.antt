-- ===== src/Reader/Extension.antt =====
-- A reader that looks at no more than it takes: more bytes at the end change nothing, so that a
-- truncated encoding is never read.
use rusk.Prelude.{
  ℕ, zero, suc, [], ◌∷◌, ◌++◌, ◌≡◌, refl, ap, ◌≤◌, length, take, drop, arith, length-append,
  if◌then◌else◌, Bool, true, false,
}
use rusk.Vm.{Bytes}
use rusk.Reader.{
  Reader, Error, Result, ok, err, pure, fail, after, ◌>>=◌, read_exact, read_bytes, read_u8,
  read_le, read_u16_le, read_u32_le, read_u64_le, read_many, read_var_le_bytes32,
}
use rusk.Reader.RoundTrip.{ReadsBack}
use mathlib.Core.List.{append-nil}

pub record IsLocal {A : Type 0} (r : Reader A) : Type 0 where
  pub with_more :
      (bs more : Bytes) (a : A) (rest : Bytes)
      → r bs ≡ ok (a, rest)
      → r (bs ++ more) ≡ ok (a, rest ++ more)

module _ {A : Type 0} where
  pub IsLocal-pure : (a : A) → IsLocal (pure a)
  unfolding pure
  IsLocal-pure a = record { with_more = λ bs more b rest h. cc }

  pub IsLocal-fail : (e : Error) → IsLocal (fail {A = A} e)
  unfolding fail
  IsLocal-fail e = record { with_more = λ bs more b rest h. cc }

  pub after-ok :
      {B : Type 0} (m : Result (A × Bytes)) (f : A → Reader B) {b : B} {rest : Bytes}
      → after m f ≡ ok (b, rest)
      → (a : A) × (mid : Bytes) × (m ≡ ok (a, mid)) × (f a mid ≡ ok (b, rest))
  unfolding after
  after-ok (ok (a, mid)) f h = (a, mid, refl, h)
  after-ok (err e) f h = cc

  pub IsLocal-bind :
      {B : Type 0} (r : Reader A) (f : A → Reader B)
      → IsLocal r
      → ((a : A) → IsLocal (f a))
      → IsLocal (r >>= f)
  unfolding ◌>>=◌
  IsLocal-bind r f h k = record {
    with_more = λ bs more b rest e.
        let (a, mid, p, q) = after-ok (r bs) f e in
        rw (h.with_more bs more a mid p) ((k a).with_more mid more b rest q);
  }

  pub IsLocal-if :
      (b : Bool) (r s : Reader A) → IsLocal r → IsLocal s → IsLocal (if b then r else s)
  IsLocal-if true r s h k = h
  IsLocal-if false r s h k = k

module _ {A : Type 0} where
  pub IsLocal-many : (n : ℕ) (r : Reader A) → IsLocal r → IsLocal (read_many n r)
  unfolding read_many
  IsLocal-many zero r h = IsLocal-pure []
  IsLocal-many (suc n) r h =
      IsLocal-bind r _ h λ a. IsLocal-bind _ _ (IsLocal-many n r h) λ more. IsLocal-pure (a ∷ more)

take-append_short : (n : ℕ) (xs ys : Bytes) → n ≤ length xs → take n (xs ++ ys) ≡ take n xs
take-append_short zero xs ys h = refl
take-append_short (suc n) [] ys h = absurd (omega arith)
take-append_short (suc n) (x ∷ xs) ys h =
    ap (λ (zs : Bytes). x ∷ zs) (take-append_short n xs ys (omega arith))

drop-append_short : (n : ℕ) (xs ys : Bytes) → n ≤ length xs → drop n (xs ++ ys) ≡ drop n xs ++ ys
drop-append_short zero xs ys h = refl
drop-append_short (suc n) [] ys h = absurd (omega arith)
drop-append_short (suc n) (x ∷ xs) ys h = drop-append_short n xs ys (omega arith)

pub IsLocal-exact : (e : Error) (n : ℕ) → IsLocal (read_exact e n)
unfolding read_exact
IsLocal-exact e n = record {
  with_more = λ bs more a rest h.
      ground
        (arith, length-append bs more, take-append_short n bs more, drop-append_short n bs more);
}

pub IsLocal-bytes : (n : ℕ) → IsLocal (read_bytes n)
unfolding read_bytes
IsLocal-bytes n = IsLocal-exact Error.unexpected_eof n

pub IsLocal-u8 : IsLocal read_u8
unfolding read_u8
IsLocal-u8 = record {
  with_more = λ bs more a rest h.
      elim bs as (λ bs. read_u8 bs ≡ ok (a, rest) → read_u8 (bs ++ more) ≡ ok (a, rest ++ more)) [
        | [] ↦ λ p. cc
        | b ∷ cs ↦ λ p. cc
      ]
        h;
}

pub IsLocal-le : (e : Error) (w : ℕ) → IsLocal (read_le e w)
unfolding read_le
IsLocal-le e w = IsLocal-bind _ _ (IsLocal-exact e w) λ bs. IsLocal-pure _

pub IsLocal-u16 : IsLocal read_u16_le
unfolding read_u16_le
IsLocal-u16 = IsLocal-le Error.unexpected_eof 2

pub IsLocal-u32 : IsLocal read_u32_le
unfolding read_u32_le
IsLocal-u32 = IsLocal-le Error.unexpected_eof 4

pub IsLocal-u64 : IsLocal read_u64_le
unfolding read_u64_le
IsLocal-u64 = IsLocal-le Error.unexpected_eof 8

pub IsLocal-var : IsLocal read_var_le_bytes32
unfolding read_var_le_bytes32
IsLocal-var = IsLocal-bind _ _ IsLocal-u32 λ len. IsLocal-bytes len

append_ne_nil : (xs ys : Bytes) (y : ℕ) → ¬ (xs ++ (y ∷ ys) ≡ [])
append_ne_nil [] ys y h = cc
append_ne_nil (x ∷ xs) ys y h = cc

-- A proper prefix of what a value is read back from is refused.
pub truncated_refused :
    {A : Type 0} {r : Reader A} {bs : Bytes} {v : A} (front : Bytes) (x : ℕ) (back : Bytes)
    → ReadsBack r bs v
    → IsLocal r
    → bs ≡ front ++ (x ∷ back)
    → (e : Error) × (r front ≡ err e)
truncated_refused {A} {r} {bs} {v} front x back reads local e = outcome (r front) refl
  where
    whole : r (front ++ (x ∷ back)) ≡ ok (v, [])
    whole = rw (append-nil, e) at (reads.then_rest [])

    outcome : (o : Result (A × Bytes)) → r front ≡ o → (e : Error) × (r front ≡ err e)
    outcome (err e) h = (e, h)
    outcome (ok (a, rest)) h =
        absurd (append_ne_nil rest back x (cc (local.with_more front (x ∷ back) a rest h, whole)))
