-- ===== src/Stake/Effects/Records.antt =====
-- The writes of the calls to the state, as relations between the states before and after.
use rusk.Prelude.{ℕ, ◌≤◌, ◌≡◌, ◌≢◌, true, some}
use rusk.Vm.{Host, PublicKey, ContractId, Bytes, ok, sub_u64}
use rusk.Map.{get}
use rusk.Stake.Types.{StakeKeys, StakeData, StakeAmount, StakeEvent, DoubleSignature, total_funds}
use rusk.Stake.State.{
  StakeState, get_stake, load_or_create_stake_mut, remember, put, unwrap_account_owner,
  unwrap_contract_owner,
}
use rusk.Stake.Funding.{add_to_amount}
use rusk.Stake.Payout.{take_from_amount, settle, take_reward}

-- `value` has been added to the stake of `keys`.
pub record Adds (h : Host) (keys : StakeKeys) (value : ℕ) (s s' : StakeState) : Type 0 where
  pub data_before : StakeData
  pub keys_on_record : StakeKeys
  pub amount : StakeAmount
  pub event : StakeEvent
  pub loaded : load_or_create_stake_mut keys s ≡ ok (data_before, keys_on_record)
  pub added : add_to_amount h keys_on_record value data_before.amount ≡ ok (amount, event)
  pub state :
      s'
      ≡ remember keys.account
          (get_stake keys.account s)
          (put keys.account (record data_before { amount = some amount }, keys_on_record) s)

-- `value` has been taken from the stake of `account`.
pub record Takes (account : PublicKey) (value : ℕ) (s s' : StakeState) : Type 0 where
  pub data_before : StakeData
  pub keys : StakeKeys
  pub amount : StakeAmount
  pub left : StakeAmount
  pub event : StakeEvent
  pub found : get account s.stakes ≡ some (data_before, keys)
  pub staked : data_before.amount ≡ some amount
  pub covered : value ≤ total_funds amount
  pub taken : take_from_amount keys value amount ≡ ok (left, event)
  pub state : s' ≡ remember account (some data_before) (settle account data_before keys left s)

-- `value` has been taken from the reward of `account`.
pub record TakesReward (account : PublicKey) (value : ℕ) (s s' : StakeState) : Type 0 where
  pub data_before : StakeData
  pub keys : StakeKeys
  pub reward : ℕ
  pub found : get account s.stakes ≡ some (data_before, keys)
  pub positive : value ≢ 0
  pub covered : value ≤ data_before.reward
  pub lowered : sub_u64 data_before.reward value ≡ ok reward
  pub state : s' ≡ take_reward account reward data_before keys s

-- The owner and the account of the keys on record have both signed `message`.
pub record IsSigned (h : Host) (keys : StakeKeys) (message : Bytes) (signature : DoubleSignature)
    : Type 0 where
  pub owner : PublicKey
  pub owned : unwrap_account_owner h keys.owner ≡ ok owner
  pub by_owner : h.verify_bls message owner signature.owner ≡ true
  pub by_account : h.verify_bls message keys.account signature.account ≡ true

-- The caller is the contract that owns the stake.
pub record IsCaller (h : Host) (keys : StakeKeys) (caller : ContractId) : Type 0 where
  pub called : h.caller ≡ some caller
  pub owned : unwrap_contract_owner keys.owner ≡ ok caller
