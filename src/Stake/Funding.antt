-- ===== src/Stake/Funding.antt =====
-- contracts/stake/src/state.rs: the calls that add funds to a stake.
use rusk.Prelude.{
  ℕ, ◌/◌, ◌||◌, Option, none, some, [], ◌∷◌, ◌++◌, ◌==◌, leb, is_some, if◌then◌else◌,
}
use rusk.Vm.{
  Host, Outcome, ok, guard, expect, expect_call, add_u64, sub_u64, ◌>>=◌, ◌>>◌, wrong_chain,
  stake_below_minimum, invalid_owner_signature, invalid_account_signature, transfer_call_failed,
  bad_caller, amount_mismatch, invalid_stake, Bytes,
}
use rusk.Transfer.Withdrawal.{ReceiveFromContract}
use rusk.Stake.Types.{
  Stake, StakeKeys, StakeData, StakeAmount, StakeEvent, new_amount, stake_message,
}
use rusk.Stake.State.{
  World, TransferCalls, Event, unwrap_account_owner, unwrap_contract_owner, get_stake,
  load_or_create_stake_mut, remember, put,
}

-- The part of an added value that is locked: a tenth, once the stake is eligible.
unfoldable pub locked_part : Host → StakeAmount → ℕ → ℕ
locked_part h amount value = if leb amount.eligibility h.block_height then value / 10 else 0

-- The match on `&mut loaded_stake.amount`: the new amount, and the event.
unfoldable pub add_to_amount :
    Host → StakeKeys → ℕ → Option StakeAmount → Outcome (StakeAmount × StakeEvent)
unfolding locked_part
add_to_amount h keys value none =
    ok (new_amount value h.block_height, record { keys = keys; value = value; locked = 0 })
add_to_amount h keys value (some amount) = do
  let locked = locked_part h amount value
  value' ← sub_u64 value locked
  locked' ← add_u64 amount.locked locked
  sum ← add_u64 amount.value value'
  ok (
    record amount { value = sum; locked = locked' },
    record { keys = keys; value = value'; locked = locked },
  )

module _ {S : Type 0} (h : Host) (t : TransferCalls S) where
  unfoldable pub stake : Stake → World S → Outcome (World S)
  stake st w = do
    guard (st.chain_id == h.chain_id) wrong_chain
    let prev_stake = get_stake st.keys.account w.state
    (loaded_stake, keys) ← load_or_create_stake_mut st.keys w.state
    guard (is_some loaded_stake.amount || leb w.state.config.minimum_stake st.value)
        stake_below_minimum
    owner ← unwrap_account_owner h keys.owner
    guard (h.verify_bls (stake_message st) owner st.signature.owner) invalid_owner_signature
    guard (h.verify_bls (stake_message st) keys.account st.signature.account)
        invalid_account_signature
    transfer ← expect_call (t.deposit st.value w.transfer) transfer_call_failed
    (amount, event) ← add_to_amount h keys st.value loaded_stake.amount
    let entry : StakeData × StakeKeys = (record loaded_stake { amount = some amount }, keys)
    ok (record {
      state = remember st.keys.account prev_stake (put st.keys.account entry w.state);
      transfer = transfer;
      events = w.events ++ Event.stake event ∷ [];
    })

  -- A contract's stake is signed when it is new, and only by the account. `decode` reads the stake
  -- that the receiving call carries.
  unfoldable pub stake_from_contract :
      (Bytes → Option Stake) → ReceiveFromContract → World S → Outcome (World S)
  stake_from_contract decode recv w = do
    st ← expect (decode recv.payload) invalid_stake
    guard (st.chain_id == h.chain_id) wrong_chain
    let prev_stake = get_stake st.keys.account w.state
    (loaded_stake, keys) ← load_or_create_stake_mut st.keys w.state
    contract ← unwrap_contract_owner keys.owner
    guard (contract == recv.contract) bad_caller
    guard (st.value == recv.value) amount_mismatch
    guard (is_some loaded_stake.amount || leb w.state.config.minimum_stake st.value)
        stake_below_minimum
    guard
        (is_some loaded_stake.amount
          || h.verify_bls (stake_message st) st.keys.account st.signature.account)
        invalid_account_signature
    (amount, event) ← add_to_amount h keys st.value loaded_stake.amount
    let entry : StakeData × StakeKeys = (record loaded_stake { amount = some amount }, keys)
    ok (record {
      state = remember st.keys.account prev_stake (put st.keys.account entry w.state);
      transfer = w.transfer;
      events = w.events ++ Event.stake event ∷ [];
    })
