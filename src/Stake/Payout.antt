-- ===== src/Stake/Payout.antt =====
-- contracts/stake/src/state.rs: the calls that pay out of a stake or of its reward.
use rusk.Prelude.{
  ℕ, not, ◌&&◌, ◌||◌, none, some, [], ◌∷◌, ◌++◌, ◌==◌, ltb, leb, is_some, if◌then◌else◌,
}
use rusk.Vm.{
  Host, PublicKey, Outcome, ok, guard, expect, expect_call, sub_u64, ◌>>=◌, ◌>>◌,
  invalid_owner_signature, invalid_account_signature, transfer_call_failed, bad_caller, no_stake,
  no_amount, value_above_stake, left_below_minimum, zero_reward, value_above_reward,
}
use rusk.Map.{remove}
use rusk.Transfer.Withdrawal.{ContractToContract}
use rusk.Stake.Types.{
  StakeKeys, StakeData, StakeAmount, StakeEvent, Withdraw, WithdrawToContract, total_funds,
  withdraw_message,
}
use rusk.Stake.State.{
  StakeState, World, TransferCalls, Event, unwrap_account_owner, unwrap_contract_owner,
  get_stake_mut, remember, put,
}

-- The withdrawn value comes out of `value` first, and the rest out of `locked`.
unfoldable pub take_from_amount : StakeKeys → ℕ → StakeAmount → Outcome (StakeAmount × StakeEvent)
take_from_amount keys value stake =
    if ltb stake.value value
    then (do
      from_locked ← sub_u64 value stake.value
      locked ← sub_u64 stake.locked from_locked
      ok (
        record stake { value = 0; locked = locked },
        record { keys = keys; value = stake.value; locked = from_locked },
      ))
    else (do
      left ← sub_u64 stake.value value
      ok (record stake { value = left }, record { keys = keys; value = value; locked = 0 }))

-- An emptied stake loses its amount, and its entry too if no reward is left.
unfoldable pub settle : PublicKey → StakeData → StakeKeys → StakeAmount → StakeState → StakeState
settle account loaded_stake keys stake s =
    if total_funds stake == 0
    then (if loaded_stake.reward == 0
        then record s { stakes = remove account s.stakes }
        else put account (record loaded_stake { amount = none }, keys) s)
    else put account (record loaded_stake { amount = some stake }, keys) s

-- The reward is lowered, and an entry with nothing left is removed.
unfoldable pub take_reward : PublicKey → ℕ → StakeData → StakeKeys → StakeState → StakeState
take_reward account reward loaded_stake keys s =
    if (reward == 0) && not (is_some loaded_stake.amount)
    then record s { stakes = remove account s.stakes }
    else put account (record loaded_stake { reward = reward }, keys) s

module _ {S : Type 0} (h : Host) (t : TransferCalls S) where
  unfoldable pub unstake : Withdraw → World S → Outcome (World S)
  unstake un w = do
    let value = un.withdraw.value
    (loaded_stake, keys) ← expect (get_stake_mut un.account w.state) no_stake
    let prev_stake = some loaded_stake
    stake ← expect loaded_stake.amount no_amount
    guard (leb value (total_funds stake)) value_above_stake
    owner ← unwrap_account_owner h keys.owner
    guard (h.verify_bls (withdraw_message un) owner un.signature.owner) invalid_owner_signature
    guard (h.verify_bls (withdraw_message un) keys.account un.signature.account)
        invalid_account_signature
    transfer ← expect_call (t.withdraw un.withdraw w.transfer) transfer_call_failed
    (left, event) ← take_from_amount keys value stake
    guard (total_funds left == 0 || leb w.state.config.minimum_stake (total_funds left))
        left_below_minimum
    ok (record {
      state = remember un.account prev_stake (settle un.account loaded_stake keys left w.state);
      transfer = transfer;
      events = w.events ++ Event.unstake event ∷ [];
    })

  -- No minimum is enforced on what a contract leaves. The references to the entry are followed again
  -- after the call, which may have changed it; where the call has removed the entry or its amount, the
  -- references of the source dangle, and here this is a panic.
  unfoldable pub unstake_from_contract : WithdrawToContract → World S → Outcome (World S)
  unstake_from_contract un w = do
    (loaded_stake, keys) ← expect (get_stake_mut un.account w.state) no_stake
    let prev_stake = some loaded_stake
    stake ← expect loaded_stake.amount no_amount
    guard (leb un.value (total_funds stake)) value_above_stake
    owner ← unwrap_contract_owner keys.owner
    caller ← expect h.caller bad_caller
    guard (caller == owner) bad_caller
    let to_contract : ContractToContract = record {
      contract = caller;
      value = un.value;
      fn_name = un.fn_name;
      payload = un.payload;
    }
    w' ← expect_call (t.contract_to_contract to_contract w) transfer_call_failed
    (loaded_stake', keys') ← expect (get_stake_mut un.account w'.state) no_stake
    stake' ← expect loaded_stake'.amount no_amount
    (left, event) ← take_from_amount keys' un.value stake'
    ok (record {
      state = remember un.account prev_stake (settle un.account loaded_stake' keys' left w'.state);
      transfer = w'.transfer;
      events = w'.events ++ Event.unstake event ∷ [];
    })

  unfoldable pub withdraw : Withdraw → World S → Outcome (World S)
  withdraw wd w = do
    let value = wd.withdraw.value
    (loaded_stake, keys) ← expect (get_stake_mut wd.account w.state) no_stake
    guard (not (value == 0)) zero_reward
    guard (leb value loaded_stake.reward) value_above_reward
    owner ← unwrap_account_owner h keys.owner
    guard (h.verify_bls (withdraw_message wd) owner wd.signature.owner) invalid_owner_signature
    guard (h.verify_bls (withdraw_message wd) keys.account wd.signature.account)
        invalid_account_signature
    transfer ← expect_call (t.mint wd.withdraw w.transfer) transfer_call_failed
    reward ← sub_u64 loaded_stake.reward value
    ok (record {
      state = take_reward wd.account reward loaded_stake keys w.state;
      transfer = transfer;
      events = w.events ++ Event.withdraw (record { keys = keys; value = value; locked = 0 }) ∷ [];
    })

  -- The reference to the entry is followed again after the call, as above.
  unfoldable pub withdraw_from_contract : WithdrawToContract → World S → Outcome (World S)
  withdraw_from_contract wd w = do
    (loaded_stake, keys) ← expect (get_stake_mut wd.account w.state) no_stake
    guard (not (wd.value == 0)) zero_reward
    guard (leb wd.value loaded_stake.reward) value_above_reward
    owner ← unwrap_contract_owner keys.owner
    caller ← expect h.caller bad_caller
    guard (caller == owner) bad_caller
    let to_contract : ContractToContract = record {
      contract = caller;
      value = wd.value;
      fn_name = wd.fn_name;
      payload = wd.payload;
    }
    w' ← expect_call (t.mint_to_contract to_contract w) transfer_call_failed
    (loaded_stake', keys') ← expect (get_stake_mut wd.account w'.state) no_stake
    reward ← sub_u64 loaded_stake'.reward wd.value
    ok (record {
      state = take_reward wd.account reward loaded_stake' keys' w'.state;
      transfer = w'.transfer;
      events =
          w'.events ++ Event.withdraw (record { keys = keys'; value = wd.value; locked = 0 }) ∷ [];
    })
