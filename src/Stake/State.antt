-- ===== src/Stake/State.antt =====
-- contracts/stake/src/state.rs: the state of the contract, its lookups and setters.
use rusk.Prelude.{ℕ, Option, none, some, List, [], map}
use rusk.Vm.{
  Host, PublicKey, ContractId, Outcome, ok, panic, expected_account_owner, expected_contract_owner,
  invalid_owner_key, keys_mismatch, guard, ◌>>◌,
}
use rusk.Map.{Map, get, insert, or_insert}
use rusk.Transfer.Withdrawal
use rusk.Transfer.Withdrawal.{ContractToContract}
use rusk.Stake.Types.{
  StakeConfig, StakeFundOwner, StakeKeys, StakeData, StakeEvent, SlashEvent, Reward, default_config,
  keys_eq, empty_stake,
}

pub record StakeState : Type 0 where
  pub burnt_amount : ℕ
  pub config : StakeConfig
  pub previous_block_state : Map (Option StakeData × PublicKey)
  pub stakes : Map (StakeData × StakeKeys)

-- `StakeState::new`
abbrev pub new_state : StakeState
new_state = record {
  burnt_amount = 0;
  config = default_config;
  previous_block_state = [];
  stakes = [];
}

-- What `abi::emit` sends out, by topic.
pub data Event : Type 0 where
  stake unstake withdraw : StakeEvent → Event
  reward : List Reward → Event
  slash hard_slash : SlashEvent → Event

-- The two contracts and the events of this one, in order.
pub record World (S : Type 0) : Type 0 where
  pub state : StakeState
  pub transfer : S
  pub events : List Event

-- The functions of the transfer contract that this contract calls, over the state `S` of that one.
-- The two that pay a contract run that contract's code, which may call this contract back: they act
-- on both contracts.
pub record TransferCalls (S : Type 0) : Type 0 where
  pub deposit : ℕ → S → Outcome S
  pub withdraw : Withdrawal.Withdraw → S → Outcome S
  pub contract_to_contract : ContractToContract → World S → Outcome (World S)
  pub mint : Withdrawal.Withdraw → S → Outcome S
  pub mint_to_contract : ContractToContract → World S → Outcome (World S)
  pub sub_contract_balance : ContractId → ℕ → S → Outcome S

unfoldable pub configure : StakeConfig → StakeState → StakeState
configure config s = record s { config = config }

unfoldable pub on_new_block : StakeState → StakeState
on_new_block s = record s { previous_block_state = [] }

unfoldable pub set_burnt_amount : ℕ → StakeState → StakeState
set_burnt_amount burnt_amount s = record s { burnt_amount = burnt_amount }

unfoldable pub unwrap_account_owner : Host → StakeFundOwner → Outcome PublicKey
unwrap_account_owner h (StakeFundOwner.account public_key) = do
  guard (h.is_valid public_key) invalid_owner_key
  ok public_key
unwrap_account_owner h (StakeFundOwner.contract _) = panic expected_account_owner

unfoldable pub unwrap_contract_owner : StakeFundOwner → Outcome ContractId
unwrap_contract_owner (StakeFundOwner.account _) = panic expected_contract_owner
unwrap_contract_owner (StakeFundOwner.contract id) = ok id

unfoldable pub get_stake_mut : PublicKey → StakeState → Option (StakeData × StakeKeys)
get_stake_mut key s = get key s.stakes

unfoldable pub get_stake : PublicKey → StakeState → Option StakeData
get_stake key s = elim (get key s.stakes) [ none ↦ none | some (d, _) ↦ some d ]

unfoldable pub get_stake_keys : PublicKey → StakeState → Option StakeKeys
get_stake_keys key s = elim (get key s.stakes) [ none ↦ none | some (_, k) ↦ some k ]

unfoldable pub insert_stake : StakeKeys → StakeData → StakeState → StakeState
insert_stake keys stake_data s = record s {
  stakes = insert keys.account (stake_data, keys) s.stakes;
}

-- The entry that the reference points to. A new one is written to the map by the caller's update.
unfoldable pub load_or_create_stake_mut : StakeKeys → StakeState → Outcome (StakeData × StakeKeys)
load_or_create_stake_mut keys s = elim (get keys.account s.stakes) [
  | none ↦ ok (empty_stake, keys)
  | some (stake_data, loaded_keys) ↦
      (guard (keys_eq keys loaded_keys) keys_mismatch >> ok (stake_data, loaded_keys))
]

-- `previous_block_state.entry(key).or_insert((prev_stake, account))`
unfoldable pub remember : PublicKey → Option StakeData → StakeState → StakeState
remember account prev_stake s = record s {
  previous_block_state = or_insert account (prev_stake, account) s.previous_block_state;
}

-- The writes to the entry behind a reference.
unfoldable pub put : PublicKey → StakeData × StakeKeys → StakeState → StakeState
put account entry s = record s { stakes = insert account entry s.stakes }

values {ℓ} : {V : Type ℓ} → Map V → List V
values = map (λ e. e.1)

-- The pairs that `stakes` and `prev_state_changes` feed to the host.
unfoldable pub stakes : StakeState → List (StakeKeys × StakeData)
unfolding values
stakes s = map (λ e. (e.1, e.0)) (values s.stakes)

unfoldable pub prev_state_changes : StakeState → List (PublicKey × Option StakeData)
unfolding values
prev_state_changes s = map (λ e. (e.1, e.0)) (values s.previous_block_state)
