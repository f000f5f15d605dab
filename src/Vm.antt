-- ===== src/Vm.antt =====
-- A contract as the virtual machine runs it: the answers of the host, panics, and the checked
-- arithmetic of the contracts, which are built with overflow checks. A panic ends the call and the
-- machine drops what the call has written, so a panic carries no state.
pub mod Ensures
pub mod Succeeds
use rusk.Prelude.{
  ℕ, ◌+◌, ◌-◌, ◌*◌, ◌^◌, ◌≡◌, Bool, true, false, Option, none, some, List, leb, if◌then◌else◌,
}

-- A BLS public key, a contract id, a signature: the number that its canonical bytes spell.
abbrev pub PublicKey : Type 0
PublicKey = ℕ

abbrev pub ContractId : Type 0
ContractId = ℕ

abbrev pub Signature : Type 0
Signature = ℕ

abbrev pub Bytes : Type 0
Bytes = List ℕ

abbrev pub u64_mod : ℕ
u64_mod = 2 ^ 64

abbrev pub u8_max : ℕ
u8_max = 255

-- What the host answers while one call runs.
pub record Host : Type 0 where
  pub chain_id : ℕ
  pub block_height : ℕ
  pub caller : Option ContractId
  pub callstack_len : ℕ
  pub is_valid : PublicKey → Bool
  pub verify_bls : Bytes → PublicKey → Signature → Bool

-- The panics of the two genesis contracts, by their messages.
pub data Panic : Type 0 where
  overflow : Panic
  bad_caller root_call : Panic
  wrong_chain : Panic
  invalid_owner_key expected_account_owner expected_contract_owner keys_mismatch : Panic
  stake_below_minimum left_below_minimum amount_mismatch invalid_stake : Panic
  invalid_owner_signature invalid_account_signature invalid_signature : Panic
  no_stake no_amount value_above_stake zero_reward value_above_reward : Panic
  transfer_call_failed receiver_failed : Panic
  incorrect_nullifiers incorrect_nonce expected_moonlight expected_phoenix no_transaction : Panic
  wrong_contract not_enough_balance no_balance : Panic
  no_deposit deposit_taken deposit_mismatch deposit_target : Panic
  no_call gas_price_zero : Panic
  no_funds nonce_used nonce_not_ready : Panic
  root_not_found nullifier_spent invalid_proof unreachable : Panic

pub data Outcome {ℓ} (A : Type ℓ) : Type ℓ where
  ok : A → Outcome A
  panic : Panic → Outcome A

-- `assert!`, and `if !c { panic!() }`
unfoldable pub guard : Bool → Panic → Outcome (Unit {0})
guard true e = ok tt
guard false e = panic e

-- `Option::expect`
unfoldable pub expect {ℓ} : {A : Type ℓ} → Option A → Panic → Outcome A
expect none e = panic e
expect (some a) e = ok a

-- `Result::expect` on the answer of a call of another contract
unfoldable pub expect_call {ℓ} : {A : Type ℓ} → Outcome A → Panic → Outcome A
expect_call (ok a) e = ok a
expect_call (panic _) e = panic e

-- To open this is to open the guards too.
infixl 5 ◌>>=◌ ◌>>◌
unfoldable pub ◌>>=◌ {ℓ κ} : {A : Type ℓ} {B : Type κ} → Outcome A → (A → Outcome B) → Outcome B
unfolding guard expect expect_call
ok a >>= f = f a
panic e >>= f = panic e

abbrev pub ◌>>◌ {ℓ} : {B : Type ℓ} → Outcome (Unit {0}) → Outcome B → Outcome B
m >> k = m >>= λ _. k

unfoldable pub add_u64 : ℕ → ℕ → Outcome ℕ
add_u64 a b = if leb u64_mod (a + b) then panic overflow else ok (a + b)

unfoldable pub sub_u64 : ℕ → ℕ → Outcome ℕ
sub_u64 a b = if leb b a then ok (a - b) else panic overflow

unfoldable pub mul_u64 : ℕ → ℕ → Outcome ℕ
mul_u64 a b = if leb u64_mod (a * b) then panic overflow else ok (a * b)
