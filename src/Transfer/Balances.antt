-- ===== src/Transfer/Balances.antt =====
-- What the calls of the transfer contract do to the balances of the contracts.
use rusk.Prelude.{ℕ, ◌+◌, ◌<◌, ◌≡◌, some, arith}
use rusk.Vm.{Host, ContractId, Bytes, u64_mod}
use rusk.Vm.Ensures.{
  Ensures, Ensures-bind, Ensures-expect, Ensures-call, Ensures-guard, Ensures-done, Ensures-mono,
  Ensures-panic,
}
use rusk.Transfer.Withdrawal.{Withdraw, WithdrawReceiver}
use rusk.Transfer.Types.{NoteOps}
use rusk.Transfer.State.{TransferState, Deposit, contract_balance, take_deposit, push_note}
use rusk.Transfer.Settlement.{withdraw_name, pay_receiver, mint_withdrawal, withdraw}
use rusk.Transfer.Contracts.{deposit, pick_up}
use rusk.Transfer.Supply.{
  credit_account-Credits, Sets, Lowers, add_contract_balance-Sets, sub_contract_balance-Lowers,
}

module _ {Note : Type 0} where
  -- The accounts and the balances of the contracts after a call that touches neither.
  pub take_deposit-same :
      (s : TransferState Note)
      → ((take_deposit s).contract_balances ≡ s.contract_balances)
        × ((take_deposit s).accounts ≡ s.accounts)
        × ((take_deposit s).nullifiers ≡ s.nullifiers)
  unfolding take_deposit
  take_deposit-same s = ground arith

  pub same_balance :
      (c : ContractId) (s s' : TransferState Note)
      → s'.contract_balances ≡ s.contract_balances
      → contract_balance c s' ≡ contract_balance c s
  unfolding contract_balance
  same_balance c s s' e = rw e

  pub Lowers-Loses :
      (c : ContractId) (value : ℕ) (s s' s'' : TransferState Note)
      → Lowers c value s s'
      → contract_balance c s'' ≡ contract_balance c s'
      → contract_balance c s ≡ contract_balance c s'' + value
  Lowers-Loses c value s s' s'' low same = ground (arith, low.covered, low.sets.others c)

module _ {Note : Type 0} (h : Host) where
  -- One contract holds more by the value, and it fits.
  abbrev pub Gains : ContractId → ℕ → TransferState Note → TransferState Note → Type 0
  Gains c value s s' =
      (contract_balance c s' ≡ contract_balance c s + value) × (contract_balance c s' < u64_mod)

  Sets-Gains :
      (c : ContractId) (value : ℕ) (s s' : TransferState Note)
      → Sets c (contract_balance c s + value) s s'
      → contract_balance c s + value < u64_mod
      → Gains c value s s'
  Sets-Gains c value s s' e fits =
      let r : contract_balance c s' ≡ contract_balance c s + value = ground (arith, e.others c) in
      (r, omega arith)

  Gains-same :
      (c : ContractId) (value : ℕ) (s s' s'' : TransferState Note)
      → s''.contract_balances ≡ s'.contract_balances
      → Gains c value s s'
      → Gains c value s s''
  Gains-same c value s s' s'' e g =
      let same = same_balance c s' s'' e in (omega (arith, same, g.0), omega (arith, same, g.1))

  pick_up-Gains :
      (c : ContractId) (value : ℕ) (found : Deposit) (s : TransferState Note)
      → Ensures (Gains c value s) (pick_up h c value found s)
  unfolding pick_up
  pick_up-Gains c value (Deposit.available sender target deposit_value) s =
      Ensures-guard _ _ _ λ same_value. Ensures-guard _ _ _ λ same_target.
        Ensures-bind _ _ λ s' added.
          let v : deposit_value ≡ value = ground arith in
          let t : target ≡ c = ground arith in
          let e = (add_contract_balance-Sets target deposit_value s).holds s' added in
          let g : Gains c value s s' =
            Sets-Gains c value s s' (rw (← v, ← t) e.0) (rw (← v, ← t) e.1) in
          Ensures-done _ (Gains-same c value s s' _ (take_deposit-same s').0 g)
  pick_up-Gains c value (Deposit.taken _ _ _) s = Ensures-panic _
  pick_up-Gains c value Deposit.no_deposit s = Ensures-panic _

  -- The caller of `deposit` is credited with the value it names.
  pub deposit-Gains :
      (value : ℕ) (c : ContractId) (s : TransferState Note)
      → h.caller ≡ some c
      → Ensures (Gains c value s) (deposit h value s)
  unfolding deposit
  deposit-Gains value c s e = Ensures-expect _ _ _ λ caller is.
      Ensures-bind _ _
        λ found _. let same : caller ≡ c = cc in rw same (pick_up-Gains c value found s)

module _ {Note : Type 0} (h : Host) (n : NoteOps Note) where
  pub push_note-same :
      (height : ℕ) (note : Note) (s : TransferState Note)
      → ((push_note n height note s).1.contract_balances ≡ s.contract_balances)
        × ((push_note n height note s).1.accounts ≡ s.accounts)
        × ((push_note n height note s).1.ongoing ≡ s.ongoing)
        × ((push_note n height note s).1.nullifiers ≡ s.nullifiers)
  unfolding push_note
  push_note-same height note s = ground arith

  -- A withdrawal is paid to a note, which leaves the two maps alone, or to an account.
  pub pay_receiver-same :
      (fn_name : Bytes) (w : Withdraw) (r : WithdrawReceiver) (s : TransferState Note)
      → Ensures (λ s'. s'.contract_balances ≡ s.contract_balances) (pay_receiver h n fn_name w r s)
  unfolding pay_receiver
  pay_receiver-same fn_name w (WithdrawReceiver.phoenix address) s =
      Ensures-bind _ _
        λ _ _. Ensures-guard _ _ _ λ _. Ensures-done _ (push_note-same h.block_height _ s).0
  pay_receiver-same fn_name w (WithdrawReceiver.moonlight account) s = Ensures-bind _ _ λ _ _.
      Ensures-guard _ _ _
        λ _. Ensures-mono (λ s' c. c.same_contracts) (credit_account-Credits account w.value s)

  pub mint_withdrawal-same :
      (fn_name : Bytes) (w : Withdraw) (s : TransferState Note)
      → Ensures (λ s'. s'.contract_balances ≡ s.contract_balances) (mint_withdrawal h n fn_name w s)
  unfolding mint_withdrawal
  mint_withdrawal-same fn_name w s =
      Ensures-bind _ _ λ _ _. pay_receiver-same fn_name w w.receiver s

  -- A withdrawal takes its value from what the calling contract holds.
  pub withdraw-Loses :
      (w : Withdraw) (c : ContractId) (s : TransferState Note)
      → h.caller ≡ some c
      → Ensures (λ s'. contract_balance c s ≡ contract_balance c s' + w.value) (withdraw h n w s)
  unfolding withdraw
  withdraw-Loses w c s e = Ensures-expect _ _ _ λ caller is. Ensures-guard _ _ _ λ own.
      Ensures-guard _ _ _ λ enough. Ensures-call _ _ _ λ s₁ lowered. Ensures-bind _ _ λ s₂ paid.
        let p : caller ≡ c = cc in
        let q : w.contract ≡ c = ground arith in
        let low : Lowers c w.value s s₁ =
          rw (← q) ((sub_contract_balance-Lowers w.contract w.value s).holds s₁ lowered) in
        let kept = same_balance c s₁ _ ((mint_withdrawal-same withdraw_name w s₁).holds s₂ paid) in
        Ensures-done _ (Lowers-Loses c w.value s s₁ _ low kept)
