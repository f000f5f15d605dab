-- ===== src/Transfer/Replay.antt =====
-- Sequences of calls of the transfer contract (contracts/transfer/src/state.rs), and replays in them.
use rusk.Prelude.{ℕ, ◌≤◌, ◌≡◌, refl, ◌∙◌, true, none, arith}
use rusk.Vm.{Host, PublicKey, ContractId, ok}
use rusk.Vm.Ensures.{
  Ensures, Ensures-bind, Ensures-expect, Ensures-call, Ensures-guard, Ensures-done, Ensures-mono,
  Ensures-panic,
}
use rusk.Map.{get-insert, contains_key}
use rusk.Transfer.Withdrawal.{Withdraw, ContractToAccount}
use rusk.Transfer.Types.{
  AccountData, NoteOps, MoonlightTransaction, PhoenixTransaction, Transaction,
}
use rusk.Transfer.State.{
  put_transaction, add_contract_balance, put_account, add_account_balance, update_root, account,
  TransferState, OngoingTransaction, Deposit, take_ongoing,
}
use rusk.Transfer.Settlement
use rusk.Transfer.Settlement.{mint_withdrawal, convert_deposit, contains}
use rusk.Transfer.Contracts
use rusk.Transfer.Contracts.{pick_up, contract_to_account}
use rusk.Transfer.Spending.{spend, refund_phoenix, refund_moonlight, refund_tx, refund}
use rusk.Transfer.Supply.{
  credit_account-Credits, add_contract_balance-Sets, sub_contract_balance-Lowers,
  debit_caller-Lowers,
}
use rusk.Transfer.Balances.{take_deposit-same}
use rusk.Transfer.Gas.{spend_moonlight-Spends}
use rusk.Transfer.Later.{
  Later, Later-refl, Later-trans, same-Later, Credits-Later, Spends-Later, push_note-Later,
  mint_withdrawal-Later, spend_phoenix-Later,
}

module _ {Note : Type 0} (h : Host) (n : NoteOps Note) where
  spend-Later :
      (tx : Transaction Note) (s : TransferState Note) → Ensures (Later s) (spend h n tx s)
  unfolding spend
  spend-Later (Transaction.phoenix tx) s =
      Ensures-mono (λ s' (later, _). later) (spend_phoenix-Later h n tx s)
  spend-Later (Transaction.moonlight tx) s =
      Ensures-mono (λ s' e. Spends-Later h tx s s' e) (spend_moonlight-Spends h tx s)

  refund_tx-Later :
      (tx : Transaction Note) (o : OngoingTransaction Note) (gas_spent : ℕ) (s : TransferState Note)
      → Ensures (Later s) (refund_tx h n tx o gas_spent s)
  unfolding refund_tx refund_phoenix refund_moonlight
  refund_tx-Later (Transaction.phoenix tx) o gas_spent s =
      let later = push_note-Later h n h.block_height _ s in
      Ensures-done _ (Later-trans s _ _ later (same-Later _ _ refl refl))
  refund_tx-Later (Transaction.moonlight tx) o gas_spent s = Ensures-bind _ _ λ _ _.
      Ensures-bind _ _ λ _ _. Ensures-bind _ _ λ back _. Ensures-bind _ _ λ s' credited.
        let up = (credit_account-Credits tx.fee.refund_address back s).holds s' credited in
        let later = Credits-Later tx.fee.refund_address back s s' up in
        Ensures-done _ (Later-trans s s' _ later (same-Later s' _ refl refl))

  refund-Later :
      (gas_spent : ℕ) (s : TransferState Note) → Ensures (Later s) (refund h n gas_spent s)
  unfolding refund take_ongoing
  refund-Later gas_spent s = Ensures-bind _ _ λ p taken.
      let later : Later s p.1 =
        (Ensures-expect s.ongoing _ (λ o. ok (o, record s { ongoing = none }))
            (λ o _. Ensures-done {P = λ q. Later s q.1} _ (same-Later s _ refl refl))).holds
          p taken in
      Ensures-mono (λ s' l. Later-trans s p.1 s' later l) (refund_tx-Later p.0.tx p.0 gas_spent p.1)

  withdraw-Later :
      (w : Withdraw) (s : TransferState Note) → Ensures (Later s) (Settlement.withdraw h n w s)
  unfolding Settlement.withdraw
  withdraw-Later w s = Ensures-expect _ _ _ λ _ _. Ensures-guard _ _ _ λ _. Ensures-guard _ _ _ λ _.
      Ensures-call _ _ _ λ s₁ lowered. Ensures-bind _ _ λ s₂ paid.
        let low = (sub_contract_balance-Lowers w.contract w.value s).holds s₁ lowered in
        let first = same-Later s s₁ low.sets.same_accounts low.sets.same_nullifiers in
        let second = (mint_withdrawal-Later h n _ w s₁).holds s₂ paid in
        Ensures-done _
          (Later-trans s s₁ _ first (Later-trans s₁ s₂ _ second (same-Later s₂ _ refl refl)))

  mint-Later : (w : Withdraw) (s : TransferState Note) → Ensures (Later s) (Settlement.mint h n w s)
  unfolding Settlement.mint
  mint-Later w s = Ensures-expect _ _ _ λ _ _. Ensures-guard _ _ _ λ _. Ensures-guard _ _ _ λ _.
      Ensures-bind _ _ λ s' paid.
        let later = (mint_withdrawal-Later h n _ w s).holds s' paid in
        Ensures-done _ (Later-trans s s' _ later (same-Later s' _ refl refl))

  convert_deposit-Later :
      (w : Withdraw) (d : Deposit) (s : TransferState Note)
      → Ensures (Later s) (convert_deposit h n w d s)
  unfolding convert_deposit
  convert_deposit-Later w (Deposit.available _ _ _) s = Ensures-guard _ _ _ λ _.
      Ensures-bind _ _ λ s' paid.
        let later = (mint_withdrawal-Later h n _ w s).holds s' paid in
        let (_, accounts, nullifiers) = take_deposit-same s' in
        Ensures-done _ (Later-trans s s' _ later (same-Later s' _ accounts nullifiers))
  convert_deposit-Later w (Deposit.taken _ _ _) s = Ensures-panic _
  convert_deposit-Later w Deposit.no_deposit s = Ensures-panic _

  convert-Later :
      (w : Withdraw) (s : TransferState Note) → Ensures (Later s) (Settlement.convert h n w s)
  unfolding Settlement.convert
  convert-Later w s = Ensures-expect _ _ _ λ _ _.
      Ensures-guard _ _ _
        λ _. Ensures-guard _ _ _ λ _. Ensures-bind _ _ λ d _. convert_deposit-Later w d s

  pick_up-Later :
      (caller : ContractId) (value : ℕ) (d : Deposit) (s : TransferState Note)
      → Ensures (Later s) (pick_up h caller value d s)
  unfolding pick_up
  pick_up-Later caller value (Deposit.available sender target deposited) s =
      Ensures-guard _ _ _ λ _. Ensures-guard _ _ _ λ _. Ensures-bind _ _ λ s' added.
        let (e, _) = (add_contract_balance-Sets target deposited s).holds s' added in
        let (_, accounts, nullifiers) = take_deposit-same s' in
        Ensures-done _
          (same-Later s _ (accounts ∙ e.same_accounts) (nullifiers ∙ e.same_nullifiers))
  pick_up-Later caller value (Deposit.taken _ _ _) s = Ensures-panic _
  pick_up-Later caller value Deposit.no_deposit s = Ensures-panic _

  deposit-Later :
      (value : ℕ) (s : TransferState Note) → Ensures (Later s) (Contracts.deposit h value s)
  unfolding Contracts.deposit
  deposit-Later value s =
      Ensures-expect _ _ _ λ caller _. Ensures-bind _ _ λ d _. pick_up-Later caller value d s

  contract_to_account-Later :
      (t : ContractToAccount) (s : TransferState Note)
      → Ensures (Later s) (contract_to_account h t s)
  unfolding contract_to_account
  contract_to_account-Later t s = Ensures-expect _ _ _ λ sender _. Ensures-guard _ _ _ λ _.
      Ensures-bind _ _ λ s₁ lowered. Ensures-bind _ _ λ s₂ credited.
        let low = (debit_caller-Lowers h sender t.value s).holds s₁ lowered in
        let first = same-Later s s₁ low.sets.same_accounts low.sets.same_nullifiers in
        let up = (credit_account-Credits t.account t.value s₁).holds s₂ credited in
        let second = Credits-Later t.account t.value s₁ s₂ up in
        Ensures-done _
          (Later-trans s s₁ _ first (Later-trans s₁ s₂ _ second (same-Later s₂ _ refl refl)))

module _ {Note : Type 0} where
  put_transaction-Later :
      (tx : Transaction Note) (s : TransferState Note) → Ensures (Later s) (put_transaction tx s)
  unfolding put_transaction
  put_transaction-Later tx s = Ensures-bind _ _ λ _ _. Ensures-done _ (same-Later s _ refl refl)

  add_contract_balance-Later :
      (c : ContractId) (value : ℕ) (s : TransferState Note)
      → Ensures (Later s) (add_contract_balance c value s)
  add_contract_balance-Later c value s =
      Ensures-mono (λ s' (e, _). same-Later s s' e.same_accounts e.same_nullifiers)
        (add_contract_balance-Sets c value s)

  nonce_put :
      (k j : PublicKey) (a : AccountData) (s : TransferState Note)
      → (account k s).nonce ≤ a.nonce
      → (account j s).nonce ≤ (account j (put_account k a s)).nonce
  unfolding put_account account
  nonce_put k j a s h = ground (arith, get-insert k j a s.accounts)

  put_account-Later :
      (k : PublicKey) (a : AccountData) (s : TransferState Note)
      → (account k s).nonce ≤ a.nonce
      → Later s (put_account k a s)
  unfolding put_account
  put_account-Later k a s h = record { nonces = λ j. nonce_put k j a s h; spent = λ x e. e }

  add_account_balance-Later :
      (k : PublicKey) (value : ℕ) (s : TransferState Note) → Later s (add_account_balance k value s)
  unfolding add_account_balance
  add_account_balance-Later k value s = put_account-Later k _ s (omega arith)

  update_root-Later : (n : NoteOps Note) (s : TransferState Note) → Later s (update_root n s)
  unfolding update_root
  update_root-Later n s = same-Later s _ refl refl

-- One call that returned. The calls that call another contract are not among them.
pub data Move {Note : Type 0} (n : NoteOps Note) (s s' : TransferState Note) : Type 0 where
  spends : (h : Host) (tx : Transaction Note) → spend h n tx s ≡ ok s' → Move n s s'
  refunds : (h : Host) (gas_spent : ℕ) → refund h n gas_spent s ≡ ok s' → Move n s s'
  withdraws : (h : Host) (w : Withdraw) → Settlement.withdraw h n w s ≡ ok s' → Move n s s'
  mints : (h : Host) (w : Withdraw) → Settlement.mint h n w s ≡ ok s' → Move n s s'
  converts : (h : Host) (w : Withdraw) → Settlement.convert h n w s ≡ ok s' → Move n s s'
  deposits : (h : Host) (value : ℕ) → Contracts.deposit h value s ≡ ok s' → Move n s s'
  opens : (tx : Transaction Note) → put_transaction tx s ≡ ok s' → Move n s s'
  funds_contract :
      (c : ContractId) (value : ℕ) → add_contract_balance c value s ≡ ok s' → Move n s s'
  funds_account : (k : PublicKey) (value : ℕ) → s' ≡ add_account_balance k value s → Move n s s'
  updates_root : s' ≡ update_root n s → Move n s s'
  pays : (h : Host) (t : ContractToAccount) → contract_to_account h t s ≡ ok s' → Move n s s'

pub data Moves {Note : Type 0} (n : NoteOps Note) (s : TransferState Note)
    : TransferState Note → Type 0 where
  start : Moves n s s
  next : {s' s'' : TransferState Note} → Moves n s s' → Move n s' s'' → Moves n s s''

module _ {Note : Type 0} (n : NoteOps Note) where
  Move-Later : {s s' : TransferState Note} → Move n s s' → Later s s'
  Move-Later {s} {s'} (Move.spends h tx e) = (spend-Later h n tx s).holds s' e
  Move-Later {s} {s'} (Move.refunds h g e) = (refund-Later h n g s).holds s' e
  Move-Later {s} {s'} (Move.withdraws h w e) = (withdraw-Later h n w s).holds s' e
  Move-Later {s} {s'} (Move.mints h w e) = (mint-Later h n w s).holds s' e
  Move-Later {s} {s'} (Move.converts h w e) = (convert-Later h n w s).holds s' e
  Move-Later {s} {s'} (Move.deposits h v e) = (deposit-Later h n v s).holds s' e
  Move-Later {s} {s'} (Move.opens tx e) = (put_transaction-Later tx s).holds s' e
  Move-Later {s} {s'} (Move.funds_contract c v e) = (add_contract_balance-Later c v s).holds s' e
  Move-Later {s} {s'} (Move.funds_account k v e) = rw e (add_account_balance-Later k v s)
  Move-Later {s} {s'} (Move.updates_root e) = rw e (update_root-Later n s)
  Move-Later {s} {s'} (Move.pays h t e) = (contract_to_account-Later h n t s).holds s' e

  Moves-Later : {s s' : TransferState Note} → Moves n s s' → Later s s'
  Moves-Later {s} Moves.start = Later-refl s
  Moves-Later {s} (Moves.next {s'} {s''} ms m) =
      Later-trans s s' s'' (Moves-Later ms) (Move-Later m)

  -- No Moonlight transaction is accepted twice: once `spend` has accepted it, then after any sequence
  -- of `Move`s, on any hosts, `spend` does not return for it. These are the openings, spendings and
  -- refunds of transactions, withdrawals, mints, conversions, deposits, payments to accounts, and the
  -- management calls that credit or update the root.
  pub moonlight_accepted_once :
      (h : Host) (tx : MoonlightTransaction) (s s₁ s₂ : TransferState Note)
      → spend h n (Transaction.moonlight tx) s ≡ ok s₁
      → Moves n s₁ s₂
      → (later : Host) (t : TransferState Note)
      → ¬ (spend later n (Transaction.moonlight tx) s₂ ≡ ok t)
  unfolding spend
  moonlight_accepted_once h tx s s₁ s₂ accepted ms later t again =
      let first = (spend_moonlight-Spends h tx s).holds s₁ accepted in
      let second = (spend_moonlight-Spends later tx s₂).holds t again in
      ground (arith, first.nonces tx.sender, (Moves-Later ms).nonces tx.sender, second.next_nonce)

  -- No nullifier is spent twice: once `spend` has accepted a Phoenix transaction with the nullifier,
  -- then after any sequence of `Move`s, on any hosts, `spend` does not return for any Phoenix
  -- transaction that has the nullifier too.
  pub nullifier_spent_once :
      (h : Host) (tx tx' : PhoenixTransaction Note) (x : ℕ) (s s₁ s₂ : TransferState Note)
      → contains tx.nullifiers x ≡ true
      → contains tx'.nullifiers x ≡ true
      → spend h n (Transaction.phoenix tx) s ≡ ok s₁
      → Moves n s₁ s₂
      → (later : Host) (t : TransferState Note)
      → ¬ (spend later n (Transaction.phoenix tx') s₂ ≡ ok t)
  unfolding spend
  nullifier_spent_once h tx tx' x s s₁ s₂ i i' accepted ms later t again =
      let (_, first) = (spend_phoenix-Later h n tx s).holds s₁ accepted in
      let (_, second) = (spend_phoenix-Later later n tx' s₂).holds t again in
      let spent : contains_key x s₂.nullifiers ≡ true = (Moves-Later ms).spent x (first x i).1 in
      ground (arith, spent, (second x i').0)
