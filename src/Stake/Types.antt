-- ===== src/Stake/Types.antt =====
-- core/src/stake.rs. `dusk-core` is built without overflow checks, so its sums wrap.
use rusk.Prelude.{
  ℕ, ◌+◌, ◌-◌, ◌%◌, Bool, false, ◌&&◌, Option, none, some, ◌∷◌, ◌++◌, ◌==◌, leb, replicate,
  if◌then◌else◌,
}
use rusk.Vm.{PublicKey, ContractId, Signature, Bytes, u64_mod}
use rusk.Bytes.{to_le_bytes, to_be_bytes}
use rusk.Transfer.Withdrawal
use rusk.Transfer.Withdrawal.{wrapped_signature_message}

abbrev pub epoch : ℕ
epoch = 2160

abbrev pub default_stake_warnings : ℕ
default_stake_warnings = 1

-- 1,000 Dusk in LUX
abbrev pub default_minimum_stake : ℕ
default_minimum_stake = 1_000_000_000_000

pub record StakeConfig : Type 0 where
  pub warnings : ℕ
  pub minimum_stake : ℕ

-- `StakeConfig::new`
abbrev pub default_config : StakeConfig
default_config = record { warnings = default_stake_warnings; minimum_stake = default_minimum_stake }

unfoldable pub next_epoch : ℕ → ℕ
next_epoch block_height = (block_height + (epoch - block_height % epoch)) % u64_mod

pub data StakeFundOwner : Type 0 where
  account : PublicKey → StakeFundOwner
  contract : ContractId → StakeFundOwner

pub record StakeKeys : Type 0 where
  pub account : PublicKey
  pub owner : StakeFundOwner

-- `StakeKeys::single_key`
unfoldable pub single_key : PublicKey → StakeKeys
single_key pk = record { account = pk; owner = StakeFundOwner.account pk }

-- The derived `PartialEq`
abbrev pub owner_eq : StakeFundOwner → StakeFundOwner → Bool
owner_eq (StakeFundOwner.account a) (StakeFundOwner.account b) = a == b
owner_eq (StakeFundOwner.contract a) (StakeFundOwner.contract b) = a == b
owner_eq _ _ = false

abbrev pub keys_eq : StakeKeys → StakeKeys → Bool
keys_eq a b = (a.account == b.account) && owner_eq a.owner b.owner

pub record DoubleSignature : Type 0 where
  pub account : Signature
  pub owner : Signature

pub record Stake : Type 0 where
  pub chain_id : ℕ
  pub keys : StakeKeys
  pub value : ℕ
  pub signature : DoubleSignature

-- The owner's slot of the message: 96 bytes, of which a contract id fills 32.
owner_bytes : StakeFundOwner → Bytes
owner_bytes (StakeFundOwner.account key) = to_be_bytes 96 key
owner_bytes (StakeFundOwner.contract id) = to_be_bytes 32 id ++ replicate 64 0

-- `Stake::signature_message`
unfoldable pub stake_message : Stake → Bytes
unfolding owner_bytes
stake_message s =
    s.chain_id
    ∷ (to_be_bytes 96 s.keys.account ++ (owner_bytes s.keys.owner ++ to_le_bytes 8 s.value))

pub record WithdrawToContract : Type 0 where
  pub account : PublicKey
  pub value : ℕ
  pub fn_name : Bytes
  pub payload : Bytes

pub record Withdraw : Type 0 where
  pub account : PublicKey
  pub withdraw : Withdrawal.Withdraw
  pub signature : DoubleSignature

-- `Withdraw::signature_message`
unfoldable pub withdraw_message : Withdraw → Bytes
withdraw_message w = to_be_bytes 96 w.account ++ wrapped_signature_message w.withdraw

pub record StakeEvent : Type 0 where
  pub keys : StakeKeys
  pub value : ℕ
  pub locked : ℕ

pub record SlashEvent : Type 0 where
  pub account : PublicKey
  pub value : ℕ
  pub next_eligibility : ℕ

pub data RewardReason : Type 0 where
  generator_fixed generator_extra voter other : RewardReason

pub record Reward : Type 0 where
  pub account : PublicKey
  pub value : ℕ
  pub reason : RewardReason

pub record StakeAmount : Type 0 where
  pub value : ℕ
  pub locked : ℕ
  pub eligibility : ℕ

unfoldable pub eligibility_from_height : ℕ → ℕ
unfolding next_epoch
eligibility_from_height block_height = (next_epoch block_height + epoch) % u64_mod

-- `StakeAmount::new`
unfoldable pub new_amount : ℕ → ℕ → StakeAmount
new_amount value block_height = record {
  value = value;
  locked = 0;
  eligibility = eligibility_from_height block_height;
}

unfoldable pub lock_amount : ℕ → StakeAmount → StakeAmount
lock_amount amount s = record s {
  value = (s.value + u64_mod - amount) % u64_mod;
  locked = (s.locked + amount) % u64_mod;
}

unfoldable pub total_funds : StakeAmount → ℕ
total_funds s = (s.value + s.locked) % u64_mod

pub record StakeData : Type 0 where
  pub amount : Option StakeAmount
  pub reward : ℕ
  pub faults : ℕ
  pub hard_faults : ℕ

-- `StakeData::EMPTY`
abbrev pub empty_stake : StakeData
empty_stake = record { amount = none; reward = 0; faults = 0; hard_faults = 0 }

-- `StakeData::with_eligibility`
unfoldable pub with_eligibility : ℕ → ℕ → ℕ → StakeData
with_eligibility value reward eligibility = record {
  amount =
      if value == 0
      then none
      else some (record { value = value; locked = 0; eligibility = eligibility });
  reward = reward;
  faults = 0;
  hard_faults = 0;
}

-- `StakeData::is_valid`
unfoldable pub is_valid : StakeData → ℕ → Bool
is_valid s block_height = elim s.amount [
  | none ↦ false
  | some amount ↦ leb amount.eligibility block_height
]

-- `StakeData::is_empty`
unfoldable pub is_empty : StakeData → Bool
is_empty s =
    let stake : ℕ = elim s.amount [ none ↦ 0 | some amount ↦ total_funds amount ] in
    (s.reward + stake) % u64_mod == 0
