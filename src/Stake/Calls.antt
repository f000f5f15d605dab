-- ===== src/Stake/Calls.antt =====
-- contracts/stake/src/lib.rs: the exported functions that change the state, with their guards on
-- the caller.
use rusk.Prelude.{ℕ, not, Option, List, is_some, leb, ◌==◌}
use rusk.Vm.{Host, PublicKey, Bytes, Outcome, ok, guard, expect, ◌>>=◌, ◌>>◌, bad_caller, root_call}
use rusk.Transfer.Withdrawal.{ReceiveFromContract, transfer_contract}
use rusk.Stake.Types.{
  Stake, StakeConfig, StakeKeys, StakeData, Reward, Withdraw, WithdrawToContract,
}
use rusk.Stake.State.{World, TransferCalls, configure, on_new_block}
use rusk.Stake.State
use rusk.Stake.Funding
use rusk.Stake.Payout
use rusk.Stake.Penalty

pub data Call : Type 0 where
  stake : Stake → Call
  unstake withdraw : Withdraw → Call
  stake_from_contract : ReceiveFromContract → Call
  unstake_from_contract withdraw_from_contract : WithdrawToContract → Call
  before_state_transition : Call
  set_config : StakeConfig → Call
  insert_stake : StakeKeys → StakeData → Call
  reward : List Reward → Call
  slash : PublicKey → Option ℕ → Call
  hard_slash : PublicKey → Option ℕ → Option ℕ → Call
  set_burnt_amount : ℕ → Call

unfoldable pub assert_transfer_caller : Host → Outcome (Unit {0})
assert_transfer_caller h = do
  caller ← expect h.caller bad_caller
  guard (caller == transfer_contract) bad_caller

unfoldable pub assert_external_caller : Host → Outcome (Unit {0})
assert_external_caller h = guard (not (is_some h.caller)) bad_caller

module _ {S : Type 0} (h : Host) (t : TransferCalls S) (decode : Bytes → Option Stake) where
  unfoldable pub call : Call → World S → Outcome (World S)
  call (Call.stake arg) w = do assert_transfer_caller h; Funding.stake h t arg w
  call (Call.unstake arg) w = do assert_transfer_caller h; Payout.unstake h t arg w
  call (Call.withdraw arg) w = do assert_transfer_caller h; Payout.withdraw h t arg w
  call (Call.stake_from_contract receive) w = do
    assert_transfer_caller h
    guard (leb 2 h.callstack_len) root_call
    Funding.stake_from_contract h t decode receive w
  call (Call.unstake_from_contract arg) w = Payout.unstake_from_contract h t arg w
  call (Call.withdraw_from_contract arg) w = Payout.withdraw_from_contract h t arg w
  call Call.before_state_transition w = do
    assert_external_caller h
    ok (record w { state = on_new_block w.state })
  call (Call.set_config config) w = do
    assert_external_caller h
    ok (record w { state = configure config w.state })
  call (Call.insert_stake keys stake_data) w = do
    assert_external_caller h
    ok (record w { state = State.insert_stake keys stake_data w.state })
  call (Call.reward rewards) w = do assert_external_caller h; Penalty.reward rewards w
  call (Call.slash account to_slash) w = do
    assert_external_caller h
    Penalty.slash h account to_slash w
  call (Call.hard_slash account to_slash severity) w = do
    assert_external_caller h
    Penalty.hard_slash h t account to_slash severity w
  call (Call.set_burnt_amount burnt_amount) w = do
    assert_external_caller h
    ok (record w { state = State.set_burnt_amount burnt_amount w.state })
