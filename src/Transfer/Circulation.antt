-- ===== src/Transfer/Circulation.antt =====
-- The Dusk that is neither in Phoenix notes nor paid for gas: what the accounts and the contracts
-- hold, and the deposit that waits for the called contract.
use rusk.Prelude.{ℕ, ◌+◌, ◌≡◌, refl, ap, ◌∙◌, Option, none, some, arith, unwrap_or}
use rusk.Vm.{Host, PublicKey, ContractId, Bytes, ok}
use rusk.Vm.Ensures.{
  Ensures, Ensures-bind, Ensures-expect, Ensures-call, Ensures-guard, Ensures-done, Ensures-mono,
  Ensures-panic,
}
use rusk.Transfer.Withdrawal.{Withdraw, WithdrawReceiver, ContractToAccount}
use rusk.Transfer.Types.{NoteOps}
use rusk.Transfer.State.{
  TransferState, OngoingTransaction, Deposit, deposit_info, take_deposit, set_taken,
}
use rusk.Transfer.Settlement.{
  pay_receiver, mint_withdrawal, mint, withdraw, convert, convert_deposit,
}
use rusk.Transfer.Contracts.{pick_up, deposit, contract_to_account}
use rusk.Transfer.Spending.{refundable}
use rusk.Transfer.Supply.{
  accounts_total, contracts_total, credit_account-Credits, add_contract_balance-Sets,
  sub_contract_balance-Lowers, debit_caller-Lowers,
}
use rusk.Transfer.Balances.{push_note-same, take_deposit-same}

-- The part of a withdrawal that goes to a note.
unfoldable pub note_part : WithdrawReceiver → ℕ → ℕ
note_part (WithdrawReceiver.phoenix _) value = value
note_part (WithdrawReceiver.moonlight _) value = 0

module _ {Note : Type 0} where
  -- What the deposit of the transaction still gives back.
  unfoldable pub pending_of : Option (OngoingTransaction Note) → ℕ
  pending_of none = 0
  pending_of (some o) = unwrap_or (refundable o.deposit) 0

  unfoldable pub circulating : TransferState Note → ℕ
  circulating s = accounts_total s + (contracts_total s + pending_of s.ongoing)

  pub same_accounts :
      (s s' : TransferState Note) → s'.accounts ≡ s.accounts → accounts_total s' ≡ accounts_total s
  unfolding accounts_total
  same_accounts s s' e = rw e

  pub same_contracts :
      (s s' : TransferState Note)
      → s'.contract_balances ≡ s.contract_balances
      → contracts_total s' ≡ contracts_total s
  unfolding contracts_total
  same_contracts s s' e = rw e

  -- The deposit that is found is the one that is pending, and taking it leaves none.
  pub deposit_info-pending :
      (s : TransferState Note)
      → Ensures
          (λ d.
            (pending_of s.ongoing ≡ unwrap_or (refundable d) 0)
            × (pending_of (take_deposit s).ongoing ≡ unwrap_or (refundable (set_taken d)) 0))
          (deposit_info s)
  unfolding deposit_info pending_of take_deposit
  deposit_info-pending s = Ensures-expect _ _ _ λ o e. Ensures-done _ (rw e, rw e)

  -- A deposit that is taken is no longer pending.
  pub take_deposit-circulating :
      (sender : Option PublicKey) (target : ContractId) (value : ℕ) (s s' : TransferState Note)
      → deposit_info s ≡ ok (Deposit.available sender target value)
      → s'.ongoing ≡ s.ongoing
      → circulating (take_deposit s') + value ≡ circulating s'
  unfolding circulating
  take_deposit-circulating sender target value s s' found same =
      let here : deposit_info s' ≡ ok (Deposit.available sender target value) =
        unfold deposit_info in rw same (unfold deposit_info in found) in
      let (before, after) = (deposit_info-pending s').holds _ here in
      let (balances, accounts, _) = take_deposit-same s' in
      let a = same_accounts s' (take_deposit s') accounts in
      let c = same_contracts s' (take_deposit s') balances in
      let b : pending_of s'.ongoing ≡ value = before ∙ (unfold refundable in refl) in
      let z : pending_of (take_deposit s').ongoing ≡ 0 =
        after ∙ (unfold refundable set_taken in refl) in
      omega (arith, a, c, b, z)

module _ {Note : Type 0} (h : Host) (n : NoteOps Note) where
  pay_receiver-circulating :
      (fn_name : Bytes) (w : Withdraw) (r : WithdrawReceiver) (s : TransferState Note)
      → Ensures
          (λ s'.
            (accounts_total s' + note_part r w.value ≡ accounts_total s + w.value)
            × (s'.contract_balances ≡ s.contract_balances)
            × (s'.ongoing ≡ s.ongoing))
          (pay_receiver h n fn_name w r s)
  unfolding pay_receiver note_part
  pay_receiver-circulating fn_name w (WithdrawReceiver.phoenix address) s = Ensures-bind _ _ λ _ _.
      Ensures-guard _ _ _ λ _.
        let (balances, accounts, ongoing, _) = push_note-same h n h.block_height _ s in
        Ensures-done _ (ap (λ k. k + w.value) (same_accounts s _ accounts), balances, ongoing)
  pay_receiver-circulating fn_name w (WithdrawReceiver.moonlight account) s =
      Ensures-bind _ _ λ _ _. Ensures-guard _ _ _ λ _.
        Ensures-mono (λ s' c. (omega (arith, c.total_rises), c.same_contracts, c.same_ongoing))
          (credit_account-Credits account w.value s)

  mint_withdrawal-circulating :
      (fn_name : Bytes) (w : Withdraw) (s : TransferState Note)
      → Ensures
          (λ s'.
            (accounts_total s' + note_part w.receiver w.value ≡ accounts_total s + w.value)
            × (s'.contract_balances ≡ s.contract_balances)
            × (s'.ongoing ≡ s.ongoing))
          (mint_withdrawal h n fn_name w s)
  unfolding mint_withdrawal
  mint_withdrawal-circulating fn_name w s =
      Ensures-bind _ _ λ _ _. pay_receiver-circulating fn_name w w.receiver s

  pub withdraw-circulating :
      (w : Withdraw) (s : TransferState Note)
      → Ensures
          (λ s'. circulating s' + note_part w.receiver w.value ≡ circulating s)
          (withdraw h n w s)
  unfolding withdraw
  withdraw-circulating w s = Ensures-expect _ _ _ λ caller is. Ensures-guard _ _ _ λ own.
      Ensures-guard _ _ _ λ enough. Ensures-call _ _ _ λ s₁ lowered. Ensures-bind _ _ λ s₂ paid.
        let low = (sub_contract_balance-Lowers w.contract w.value s).holds s₁ lowered in
        let (pays, balances, ongoing) = (mint_withdrawal-circulating _ w s₁).holds s₂ paid in
        let a = same_accounts s s₁ low.sets.same_accounts in
        let c = same_contracts s₁ s₂ balances in
        let o : pending_of s₂.ongoing ≡ pending_of s.ongoing =
          ap pending_of (ongoing ∙ low.sets.same_ongoing) in
        let sum : circulating s₂ + note_part w.receiver w.value ≡ circulating s =
          unfold circulating in omega (arith, pays, a, c, o, low.covered, low.sets.total_moves) in
        Ensures-done _ (unfold circulating accounts_total contracts_total in sum)

  pub mint-circulating :
      (w : Withdraw) (s : TransferState Note)
      → Ensures
          (λ s'. circulating s' + note_part w.receiver w.value ≡ circulating s + w.value)
          (mint h n w s)
  unfolding mint
  mint-circulating w s = Ensures-expect _ _ _ λ caller is. Ensures-guard _ _ _ λ own.
      Ensures-guard _ _ _ λ stake. Ensures-bind _ _ λ s' paid.
        let (pays, balances, ongoing) = (mint_withdrawal-circulating _ w s).holds s' paid in
        let c = same_contracts s s' balances in
        let o : pending_of s'.ongoing ≡ pending_of s.ongoing = ap pending_of ongoing in
        let sum : circulating s' + note_part w.receiver w.value ≡ circulating s + w.value =
          unfold circulating in omega (arith, pays, c, o) in
        Ensures-done _ (unfold circulating accounts_total contracts_total in sum)

  convert_deposit-circulating :
      (w : Withdraw) (d : Deposit) (s : TransferState Note)
      → deposit_info s ≡ ok d
      → Ensures
          (λ s'. circulating s' + note_part w.receiver w.value ≡ circulating s)
          (convert_deposit h n w d s)
  unfolding convert_deposit
  convert_deposit-circulating w (Deposit.available sender target value) s found =
      Ensures-guard _ _ _ λ exact. Ensures-bind _ _ λ s' paid.
        let (pays, balances, ongoing) = (mint_withdrawal-circulating _ w s).holds s' paid in
        let taken = take_deposit-circulating sender target value s s' found ongoing in
        let c = same_contracts s s' balances in
        let o : pending_of s'.ongoing ≡ pending_of s.ongoing = ap pending_of ongoing in
        let v : w.value ≡ value = ground arith in
        let paid_out : circulating s' + note_part w.receiver w.value ≡ circulating s + w.value =
          unfold circulating in omega (arith, pays, c, o) in
        let sum : circulating (take_deposit s') + note_part w.receiver w.value ≡ circulating s =
          omega (arith, paid_out, taken, v) in
        Ensures-done _ (unfold circulating accounts_total contracts_total in sum)
  convert_deposit-circulating w (Deposit.taken _ _ _) s found = Ensures-panic _
  convert_deposit-circulating w Deposit.no_deposit s found = Ensures-panic _

  pub convert-circulating :
      (w : Withdraw) (s : TransferState Note)
      → Ensures
          (λ s'. circulating s' + note_part w.receiver w.value ≡ circulating s)
          (convert h n w s)
  unfolding convert
  convert-circulating w s = Ensures-expect _ _ _ λ caller is. Ensures-guard _ _ _ λ own.
      Ensures-guard _ _ _
        λ transfer. Ensures-bind _ _ λ d found. convert_deposit-circulating w d s found

module _ {Note : Type 0} (h : Host) where
  pick_up-circulating :
      (caller : ContractId) (value : ℕ) (d : Deposit) (s : TransferState Note)
      → deposit_info s ≡ ok d
      → Ensures (λ s'. circulating s' ≡ circulating s) (pick_up h caller value d s)
  unfolding pick_up
  pick_up-circulating caller value (Deposit.available sender target deposited) s found =
      Ensures-guard _ _ _ λ same_value. Ensures-guard _ _ _ λ same_target.
        Ensures-bind _ _ λ s' added.
          let (e, _) = (add_contract_balance-Sets target deposited s).holds s' added in
          let taken = take_deposit-circulating sender target deposited s s' found e.same_ongoing in
          let a = same_accounts s s' e.same_accounts in
          let o : pending_of s'.ongoing ≡ pending_of s.ongoing = ap pending_of e.same_ongoing in
          let credited : circulating s' ≡ circulating s + deposited =
            unfold circulating in omega (arith, e.total_moves, a, o) in
          let sum : circulating (take_deposit s') ≡ circulating s =
            omega (arith, credited, taken) in
          Ensures-done _ (unfold circulating accounts_total contracts_total in sum)
  pick_up-circulating caller value (Deposit.taken _ _ _) s found = Ensures-panic _
  pick_up-circulating caller value Deposit.no_deposit s found = Ensures-panic _

  pub deposit-circulating :
      (value : ℕ) (s : TransferState Note)
      → Ensures (λ s'. circulating s' ≡ circulating s) (deposit h value s)
  unfolding deposit
  deposit-circulating value s =
      Ensures-expect _ _ _
        λ caller is. Ensures-bind _ _ λ d found. pick_up-circulating caller value d s found

  pub contract_to_account-circulating :
      (t : ContractToAccount) (s : TransferState Note)
      → Ensures (λ s'. circulating s' ≡ circulating s) (contract_to_account h t s)
  unfolding contract_to_account
  contract_to_account-circulating t s = Ensures-expect _ _ _ λ sender is. Ensures-guard _ _ _ λ own.
      Ensures-bind _ _ λ s₁ lowered. Ensures-bind _ _ λ s₂ credited.
        let low = (debit_caller-Lowers h sender t.value s).holds s₁ lowered in
        let up = (credit_account-Credits t.account t.value s₁).holds s₂ credited in
        let a = same_accounts s s₁ low.sets.same_accounts in
        let c = same_contracts s₁ s₂ up.same_contracts in
        let o : pending_of s₂.ongoing ≡ pending_of s.ongoing =
          ap pending_of (up.same_ongoing ∙ low.sets.same_ongoing) in
        let sum : circulating s₂ ≡ circulating s =
          unfold circulating in
          omega (arith, up.total_rises, a, c, o, low.covered, low.sets.total_moves) in
        Ensures-done _ (unfold circulating accounts_total contracts_total in sum)
