-- ===== src/Vm/Ensures.antt =====
-- What a call leaves behind when it does not panic, with a rule for each way to build a call.
use rusk.Prelude.{
  ℕ, ◌+◌, ◌*◌, ◌≤◌, ◌<◌, ◌≡◌, refl, Bool, true, false, Option, none, some, arith, if◌then◌else◌,
}
use rusk.Vm.{
  Panic, Outcome, ok, panic, ◌>>=◌, guard, expect, expect_call, add_u64, sub_u64, mul_u64, u64_mod,
}

pub record Ensures {ℓ κ} {A : Type ℓ} (P : A → Type κ) (m : Outcome A) : Type (ℓ ⊔ κ) where
  pub holds : (a : A) → m ≡ ok a → P a

module _ {ℓ κ ι} {A : Type ℓ} {B : Type κ} {P : B → Type ι} where
  pub Ensures-bind :
      (m : Outcome A) (f : A → Outcome B)
      → ((a : A) → m ≡ ok a → Ensures P (f a))
      → Ensures P (m >>= f)
  unfolding ◌>>=◌
  Ensures-bind (ok a) f h = h a refl
  Ensures-bind (panic e) f h = record { holds = λ b q. cc }

  pub Ensures-expect :
      (o : Option A) (e : Panic) (f : A → Outcome B)
      → ((a : A) → o ≡ some a → Ensures P (f a))
      → Ensures P (expect o e >>= f)
  unfolding ◌>>=◌
  Ensures-expect none e f h = record { holds = λ b q. cc }
  Ensures-expect (some a) e f h = h a refl

  pub Ensures-call :
      (m : Outcome A) (e : Panic) (f : A → Outcome B)
      → ((a : A) → m ≡ ok a → Ensures P (f a))
      → Ensures P (expect_call m e >>= f)
  unfolding ◌>>=◌
  Ensures-call (ok a) e f h = h a refl
  Ensures-call (panic e') e f h = record { holds = λ b q. cc }

module _ {ℓ ι} {B : Type ℓ} {P : B → Type ι} where
  pub Ensures-guard :
      (b : Bool) (e : Panic) (k : Outcome B)
      → (b ≡ true → Ensures P k)
      → Ensures P (guard b e >>= λ _. k)
  unfolding ◌>>=◌
  Ensures-guard true e k h = h refl
  Ensures-guard false e k h = record { holds = λ b q. cc }

  pub Ensures-if :
      (b : Bool) (m n : Outcome B)
      → (b ≡ true → Ensures P m)
      → (b ≡ false → Ensures P n)
      → Ensures P (if b then m else n)
  Ensures-if true m n p q = p refl
  Ensures-if false m n p q = q refl

  pub Ensures-done : (b : B) → P b → Ensures P (ok b)
  Ensures-done b h = record { holds = λ c q. let r : b ≡ c = cc in rw (← r) h }

  -- A `match` on an option.
  pub Ensures-option {κ} :
      {A : Type κ} (o : Option A) (m : Outcome B) (f : A → Outcome B)
      → (o ≡ none → Ensures P m)
      → ((a : A) → o ≡ some a → Ensures P (f a))
      → Ensures P (elim o [ none ↦ m | some a ↦ f a ])
  Ensures-option none m f p q = p refl
  Ensures-option (some a) m f p q = q a refl

  pub Ensures-panic : (e : Panic) → Ensures P (panic e)
  Ensures-panic e = record { holds = λ c q. cc }

pub Ensures-mono {ℓ ι κ} :
    {B : Type ℓ} {P : B → Type ι} {Q : B → Type κ} {m : Outcome B}
    → ((b : B) → P b → Q b)
    → Ensures P m
    → Ensures Q m
Ensures-mono f h = record { holds = λ b q. f b (h.holds b q) }

pub add_u64-eq-ok : (a b : ℕ) {c : ℕ} → add_u64 a b ≡ ok c → (c ≡ a + b) × (c < u64_mod)
unfolding add_u64
add_u64-eq-ok a b h = ground arith

pub sub_u64-eq-ok : (a b : ℕ) {c : ℕ} → sub_u64 a b ≡ ok c → (a ≡ b + c) × (c ≤ a)
unfolding sub_u64
sub_u64-eq-ok a b h = ground arith

pub mul_u64-eq-ok : (a b : ℕ) {c : ℕ} → mul_u64 a b ≡ ok c → (c ≡ a * b) × (c < u64_mod)
unfolding mul_u64
mul_u64-eq-ok a b h = ground arith

-- A call whose answer ends the function.
pub Ensures-last {ℓ ι} :
    {B : Type ℓ} {P : B → Type ι} (m : Outcome B) (e : Panic)
    → Ensures P m
    → Ensures P (expect_call m e)
unfolding ◌>>=◌
Ensures-last (ok b) e h = h
Ensures-last (panic x) e h = record { holds = λ c q. cc }

pub guard-eq-ok : (b : Bool) (e : Panic) {u : Unit {0}} → guard b e ≡ ok u → b ≡ true
unfolding guard
guard-eq-ok b e h = ground arith
