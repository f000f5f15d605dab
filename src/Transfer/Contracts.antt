-- ===== src/Transfer/Contracts.antt =====
-- contracts/transfer/src/state.rs: the balances of contracts. A call of another contract is the
-- parameter `receive`: what the called function makes of the state of this contract, or its panic.
use rusk.Prelude.{ℕ, ◌-◌, not, ◌==◌, leb}
use rusk.Vm.{
  Host, ContractId, Bytes, Outcome, ok, panic, guard, expect, expect_call, ◌>>=◌, ◌>>◌, bad_caller,
  no_balance, not_enough_balance, receiver_failed, no_deposit, deposit_taken, deposit_mismatch,
  deposit_target,
}
use rusk.Map.{get}
use rusk.Transfer.Withdrawal.{
  ContractToContract, ContractToAccount, ReceiveFromContract, stake_contract, transfer_contract,
}
use rusk.Transfer.Types.{Event}
use rusk.Transfer.State.{
  TransferState, Deposit, emit, deposit_info, take_deposit, credit_account, add_contract_balance,
  put_balance,
}

abbrev pub Receive : Type 0 → Type 0
Receive S = ContractId → Bytes → ReceiveFromContract → S → Outcome S

module _ {Note : Type 0} (h : Host) where
  -- The match of `deposit` on the deposit.
  unfoldable pub pick_up :
      ContractId → ℕ → Deposit → TransferState Note → Outcome (TransferState Note)
  pick_up caller value (Deposit.available sender target deposit_value) s = do
    guard (deposit_value == value) deposit_mismatch
    guard (target == caller) deposit_target
    s' ← add_contract_balance target deposit_value s
    ok (emit (Event.deposit sender target deposit_value) (take_deposit s'))
  pick_up caller value (Deposit.taken _ _ _) s = panic deposit_taken
  pick_up caller value Deposit.no_deposit s = panic no_deposit

  unfoldable pub deposit : ℕ → TransferState Note → Outcome (TransferState Note)
  deposit value s = do
    caller ← expect h.caller bad_caller
    found ← deposit_info s
    pick_up caller value found s

  -- `*sender_balance -= value` after the check that it is enough.
  unfoldable pub debit_caller : ContractId → ℕ → TransferState Note → Outcome (TransferState Note)
  unfolding put_balance
  debit_caller sender value s = do
    sender_balance ← expect (get sender s.contract_balances) no_balance
    guard (leb value sender_balance) not_enough_balance
    ok (put_balance sender (sender_balance - value) s)

  unfoldable pub contract_to_account :
      ContractToAccount → TransferState Note → Outcome (TransferState Note)
  contract_to_account transfer s = do
    sender ← expect h.caller bad_caller
    guard (not (sender == transfer_contract)) bad_caller
    s₁ ← debit_caller sender transfer.value s
    s₂ ← credit_account transfer.account transfer.value s₁
    ok (emit (Event.contract_to_account sender transfer.account transfer.value) s₂)

module _ {Note : Type 0} (h : Host) (receive : Receive (TransferState Note)) where
  unfoldable pub contract_to_contract :
      ContractToContract → TransferState Note → Outcome (TransferState Note)
  contract_to_contract transfer s = do
    sender ← expect h.caller bad_caller
    guard (not (sender == transfer_contract)) bad_caller
    s₁ ← debit_caller h sender transfer.value s
    s₂ ← add_contract_balance transfer.contract transfer.value s₁
    let received : ReceiveFromContract = record {
      contract = sender;
      value = transfer.value;
      payload = transfer.payload;
    }
    s₃ ← expect_call (receive transfer.contract transfer.fn_name received s₂) receiver_failed
    ok (emit (Event.contract_to_contract sender transfer.contract transfer.value) s₃)

  unfoldable pub mint_to_contract :
      ContractToContract → TransferState Note → Outcome (TransferState Note)
  mint_to_contract mint s = do
    caller ← expect h.caller bad_caller
    guard (caller == stake_contract) bad_caller
    s₁ ← add_contract_balance mint.contract mint.value s
    let received : ReceiveFromContract = record {
      contract = stake_contract;
      value = mint.value;
      payload = mint.payload;
    }
    s₂ ← expect_call (receive mint.contract mint.fn_name received s₁) receiver_failed
    ok (emit (Event.mint_contract stake_contract mint.contract mint.value) s₂)
