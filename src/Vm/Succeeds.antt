-- ===== src/Vm/Succeeds.antt =====
-- Calls that do not panic.
use rusk.Prelude.{ℕ, ◌+◌, ◌-◌, ◌*◌, ◌≤◌, ◌<◌, ◌≡◌, Bool, true, Option, some, arith}
use rusk.Vm.{Panic, Outcome, ok, ◌>>=◌, guard, expect, add_u64, sub_u64, mul_u64, u64_mod}

abbrev pub Succeeds {ℓ} : {A : Type ℓ} → Outcome A → Type ℓ
Succeeds {A = A} m = (a : A) × (m ≡ ok a)

module _ {ℓ κ} {A : Type ℓ} {B : Type κ} where
  pub Succeeds-bind :
      (m : Outcome A) (f : A → Outcome B) {a : A} → m ≡ ok a → Succeeds (f a) → Succeeds (m >>= f)
  unfolding ◌>>=◌
  Succeeds-bind m f e h = rw e h

  pub Succeeds-expect :
      (o : Option A) (e : Panic) (f : A → Outcome B) {a : A}
      → o ≡ some a
      → Succeeds (f a)
      → Succeeds (expect o e >>= f)
  unfolding ◌>>=◌
  Succeeds-expect o e f q h = rw q h

pub Succeeds-guard {ℓ} :
    {B : Type ℓ} (b : Bool) (e : Panic) (k : Outcome B)
    → b ≡ true
    → Succeeds k
    → Succeeds (guard b e >>= λ _. k)
unfolding ◌>>=◌
Succeeds-guard b e k q h = rw q h

pub add_u64-ok : (a b : ℕ) → a + b < u64_mod → add_u64 a b ≡ ok (a + b)
unfolding add_u64
add_u64-ok a b h = ground arith

pub sub_u64-ok : (a b : ℕ) → b ≤ a → sub_u64 a b ≡ ok (a - b)
unfolding sub_u64
sub_u64-ok a b h = ground arith

pub mul_u64-ok : (a b : ℕ) → a * b < u64_mod → mul_u64 a b ≡ ok (a * b)
unfolding mul_u64
mul_u64-ok a b h = ground arith
