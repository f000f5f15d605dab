-- ===== src/Transfer/Refund.antt =====
-- The refund of a Moonlight transaction, and the transaction from its start to its refund.
use rusk.Prelude.{
  ℕ, ◌+◌, ◌-◌, ◌*◌, ◌≤◌, ◌<◌, ◌≡◌, refl, ap, ◌∙◌, [], Option, none, some, arith, ltb, if◌then◌else◌,
  unwrap_or,
}
use rusk.Vm.{Host, PublicKey, Bytes, ok, ◌>>=◌, expect, u64_mod, no_call}
use rusk.Vm.Ensures.{
  Ensures, Ensures-bind, Ensures-expect, Ensures-guard, Ensures-if, Ensures-done, Ensures-mono,
  Ensures-option, add_u64-eq-ok, mul_u64-eq-ok, sub_u64-eq-ok,
}
use rusk.Vm.Succeeds.{Succeeds, Succeeds-bind, add_u64-ok, sub_u64-ok, mul_u64-ok}
use rusk.Map.Weight.{share-le-total}
use rusk.Transfer.Types.{
  NoteOps, ContractCall, MoonlightTransaction, Transaction, tx_deposit, tx_call, moonlight_sender,
}
use rusk.Transfer.State.{
  TransferState, OngoingTransaction, Deposit, account, credit_account, put_transaction,
  take_ongoing,
}
use rusk.Transfer.Spending.{
  refundable, refund_moonlight, refund, refund_tx, spend, spend_and_execute,
}
use rusk.Transfer.Supply.{
  accounts_total, contracts_total, credit_account-Credits, account_share, account_balance,
}
use rusk.Transfer.Circulation.{circulating, pending_of, same_accounts, same_contracts}
use rusk.Transfer.Gas.{spend_moonlight-Spends, max_gas}

split_gas :
    (limit spent price : ℕ)
    → spent ≤ limit
    → (limit - spent) * price + spent * price ≡ limit * price
split_gas limit spent price h = grind arith

module _ {Note : Type 0} (h : Host) (n : NoteOps Note) where
  -- What is given back: the gas that was not spent and the deposit that was not picked up.
  refund_moonlight-total :
      (tx : MoonlightTransaction) (o : OngoingTransaction Note) (gas_spent : ℕ)
      (s : TransferState Note)
      → Ensures
          (λ s'.
            (gas_spent ≤ tx.fee.gas_limit)
            × (accounts_total s'
                ≡ accounts_total s
                  + ((tx.fee.gas_limit - gas_spent) * tx.fee.gas_price
                      + unwrap_or (refundable o.deposit) 0))
            × (s'.contract_balances ≡ s.contract_balances)
            × (s'.ongoing ≡ s.ongoing))
          (refund_moonlight h n tx o gas_spent s)
  unfolding refund_moonlight
  refund_moonlight-total tx o gas_spent s = Ensures-bind _ _ λ remaining r.
      Ensures-bind _ _ λ unspent u. Ensures-bind _ _ λ back b. Ensures-bind _ _ λ s' credited.
        let left = sub_u64-eq-ok tx.fee.gas_limit gas_spent r in
        let cost = mul_u64-eq-ok remaining tx.fee.gas_price u in
        let sum = add_u64-eq-ok unspent (unwrap_or (refundable o.deposit) 0) b in
        let up = (credit_account-Credits tx.fee.refund_address back s).holds s' credited in
        let gas : remaining ≡ tx.fee.gas_limit - gas_spent = omega (arith, left.0) in
        let price : unspent ≡ (tx.fee.gas_limit - gas_spent) * tx.fee.gas_price =
          cost.0 ∙ ap (λ k. k * tx.fee.gas_price) gas in
        let rises : accounts_total s'
            ≡ accounts_total s
              + ((tx.fee.gas_limit - gas_spent) * tx.fee.gas_price
                  + unwrap_or (refundable o.deposit) 0) =
          omega (arith, up.total_rises, sum.0, price) in
        let enough : gas_spent ≤ tx.fee.gas_limit = omega (arith, left.0) in
        Ensures-done _
          (enough, (unfold accounts_total in rises), up.same_contracts, up.same_ongoing)

  taken_tx :
      (tx : MoonlightTransaction) (o : OngoingTransaction Note) (gas_spent : ℕ)
      (s : TransferState Note)
      → s.ongoing ≡ some o
      → o.tx ≡ Transaction.moonlight tx
      → refund h n gas_spent s ≡ refund_moonlight h n tx o gas_spent (record s { ongoing = none })
  unfolding refund take_ongoing ◌>>=◌ refund_tx
  taken_tx tx o gas_spent s e f = rw (e, f) refl

  -- The refund closes the transaction.
  pub refund-circulating :
      (tx : MoonlightTransaction) (o : OngoingTransaction Note) (gas_spent : ℕ)
      (s : TransferState Note)
      → s.ongoing ≡ some o
      → o.tx ≡ Transaction.moonlight tx
      → Ensures
          (λ s'.
            (gas_spent ≤ tx.fee.gas_limit)
            × (circulating s' ≡ circulating s + (tx.fee.gas_limit - gas_spent) * tx.fee.gas_price)
            × (s'.ongoing ≡ none))
          (refund h n gas_spent s)
  refund-circulating tx o gas_spent s e f = rw (taken_tx tx o gas_spent s e f) (
      Ensures-mono
        (λ s' (enough, total, balances, closed).
          let back : pending_of s.ongoing ≡ unwrap_or (refundable o.deposit) 0 =
            unfold pending_of in rw e in
          let none_left : pending_of s'.ongoing ≡ 0 = unfold pending_of in rw closed in
          let c : contracts_total s' ≡ contracts_total s =
            same_contracts (record s { ongoing = none }) s' balances
            ∙ (unfold contracts_total in refl) in
          let a : accounts_total s'
              ≡ accounts_total s
                + ((tx.fee.gas_limit - gas_spent) * tx.fee.gas_price
                    + unwrap_or (refundable o.deposit) 0) =
            total ∙ (unfold accounts_total in refl) in
          (enough, (unfold circulating in omega (arith, a, c, back, none_left)), closed))
        (refund_moonlight-total tx o gas_spent (record s { ongoing = none })))

  -- The transaction is the one that is being executed, and its deposit waits.
  pub record Puts (tx : MoonlightTransaction) (s s' : TransferState Note) : Type 0 where
    pub ongoing : OngoingTransaction Note
    pub put : s'.ongoing ≡ some ongoing
    pub is_tx : ongoing.tx ≡ Transaction.moonlight tx
    pub waits : pending_of s'.ongoing ≡ tx.deposit
    pub same_accounts : s'.accounts ≡ s.accounts
    pub same_contracts : s'.contract_balances ≡ s.contract_balances

  put_transaction-Puts :
      (tx : MoonlightTransaction) (s : TransferState Note)
      → Ensures (Puts tx s) (put_transaction (Transaction.moonlight tx) s)
  unfolding put_transaction tx_deposit pending_of moonlight_sender refundable
  put_transaction-Puts tx s = Ensures-bind _ _ λ d made.
      let waits : unwrap_or (refundable d) 0 ≡ tx.deposit = (deposit_made.holds d made) in
      Ensures-done _ (record {
        ongoing = record { tx = Transaction.moonlight tx; deposit = d; notes = [] };
        put = refl;
        is_tx = refl;
        waits = waits;
        same_accounts = refl;
        same_contracts = refl;
      })
    where
      deposit_made :
          Ensures
            (λ d. unwrap_or (refundable d) 0 ≡ tx.deposit)
            (if ltb 0 tx.deposit
              then expect (tx_call {Note = Note} (Transaction.moonlight tx)) no_call
                >>= (λ call. ok (Deposit.available (some tx.sender) call.contract tx.deposit))
              else ok Deposit.no_deposit)
      deposit_made =
          Ensures-if (ltb 0 tx.deposit) _ _
            (λ _. Ensures-expect _ _ _ λ call _. Ensures-done _ refl)
            (λ nothing. Ensures-done _ (ground arith))

-- A call of a contract keeps the Dusk in circulation and the transaction that is being executed.
pub record Keeps {Note : Type 0}
    (call_raw : ContractCall → TransferState Note → Option Bytes × TransferState Note)
    : Type 0 where
  pub same_circulating :
      (c : ContractCall) (s : TransferState Note) → circulating (call_raw c s).1 ≡ circulating s
  pub same_tx :
      (c : ContractCall) (s : TransferState Note) (o : OngoingTransaction Note)
      → s.ongoing ≡ some o
      → (o' : OngoingTransaction Note) × ((call_raw c s).1.ongoing ≡ some o') × (o'.tx ≡ o.tx)

module _ {Note : Type 0} (h : Host) (n : NoteOps Note)
    (call_raw : ContractCall → TransferState Note → Option Bytes × TransferState Note)
    (keeps : Keeps call_raw) (tx : MoonlightTransaction) where
  abbrev IsExecuting : TransferState Note → TransferState Note → Type 0
  IsExecuting s s' =
      (circulating s' + max_gas tx ≡ circulating s)
      × (o : OngoingTransaction Note) × (s'.ongoing ≡ some o)
      × (o.tx ≡ Transaction.moonlight tx)

  spend_and_execute-IsExecuting :
      (s : TransferState Note)
      → s.ongoing ≡ none
      → Ensures
          (λ p. IsExecuting s p.1)
          (spend_and_execute h n call_raw (Transaction.moonlight tx) s)
  unfolding spend_and_execute spend
  spend_and_execute-IsExecuting s idle = Ensures-guard _ _ _ λ _. Ensures-bind _ _ λ s₁ put.
      Ensures-bind _ _ λ s₂ spent.
        let p = (put_transaction-Puts h n tx s).holds s₁ put in
        let e = (spend_moonlight-Spends h tx s₁).holds s₂ spent in
        let before : pending_of s.ongoing ≡ 0 = unfold pending_of in rw idle in
        let a = same_accounts s s₁ p.same_accounts in
        let c = same_contracts s s₂ (e.same_contracts ∙ p.same_contracts) in
        let waits : pending_of s₂.ongoing ≡ tx.deposit = ap pending_of e.same_ongoing ∙ p.waits in
        let sum : circulating s₂ + max_gas tx ≡ circulating s =
          unfold circulating in omega (arith, e.total_falls, a, c, before, waits) in
        let there : s₂.ongoing ≡ some p.ongoing = e.same_ongoing ∙ p.put in
        Ensures-option (tx_call {Note = Note} (Transaction.moonlight tx)) (ok (some [], s₂))
          (λ c. ok (call_raw c s₂)) (λ _. Ensures-done _ (sum, p.ongoing, there, p.is_tx))
          (λ call _.
            let (o, kept, same) = keeps.same_tx call s₂ p.ongoing there in
            let after : circulating (call_raw call s₂).1 + max_gas tx ≡ circulating s =
              omega (arith, sum, keeps.same_circulating call s₂) in
            Ensures-done _ (after, o, kept, same ∙ p.is_tx))

  pub execute_and_refund-circulating :
      (gas_spent : ℕ) (s : TransferState Note)
      → s.ongoing ≡ none
      → Ensures
          (λ s'.
            (circulating s' + gas_spent * tx.fee.gas_price ≡ circulating s) × (s'.ongoing ≡ none))
          (spend_and_execute h n call_raw (Transaction.moonlight tx) s >>= λ p.
            refund h n gas_spent p.1)
  execute_and_refund-circulating gas_spent s idle = Ensures-bind _ _ λ p executed.
      let (falls, o, there, is_tx) = (spend_and_execute-IsExecuting s idle).holds p executed in
      Ensures-mono
        (λ s' (enough, rises, closed).
          let split = split_gas tx.fee.gas_limit gas_spent tx.fee.gas_price enough in
          (omega (arith, falls, rises, split), closed))
        (refund-circulating h n tx o gas_spent p.1 there is_tx)

module _ {Note : Type 0} (h : Host) (n : NoteOps Note) where
  balance-le-circulating :
      (k : PublicKey) (s : TransferState Note) → (account k s).balance ≤ accounts_total s
  unfolding accounts_total
  balance-le-circulating k s =
      omega (arith, account_share k s, share-le-total account_balance k s.accounts)

  credit_account-ok :
      (k : PublicKey) (value : ℕ) (s : TransferState Note)
      → (account k s).balance + value < u64_mod
      → Succeeds (credit_account k value s)
  unfolding credit_account
  credit_account-ok k value s fits =
      Succeeds-bind _ _ (add_u64-ok (account k s).balance value fits) (_, refl)

  -- The refund of a Moonlight transaction does not panic, where the transaction is being executed,
  -- spent no more gas than its limit, and what circulates with the unspent gas is less than 2^64.
  pub refund-Succeeds :
      (tx : MoonlightTransaction) (o : OngoingTransaction Note) (gas_spent : ℕ)
      (s : TransferState Note)
      → s.ongoing ≡ some o
      → o.tx ≡ Transaction.moonlight tx
      → gas_spent ≤ tx.fee.gas_limit
      → circulating s + (tx.fee.gas_limit - gas_spent) * tx.fee.gas_price < u64_mod
      → Succeeds (refund h n gas_spent s)
  unfolding refund_moonlight
  refund-Succeeds tx o gas_spent s e f enough fits =
      let s' : TransferState Note = record s { ongoing = none } in
      let gas : ℕ = (tx.fee.gas_limit - gas_spent) * tx.fee.gas_price in
      let back : ℕ = gas + unwrap_or (refundable o.deposit) 0 in
      let waits : pending_of s.ongoing ≡ unwrap_or (refundable o.deposit) 0 =
        unfold pending_of in rw e in
      let sum : accounts_total s + (contracts_total s + pending_of s.ongoing) + gas < u64_mod =
        unfold circulating in fits in
      let same : account tx.fee.refund_address s' ≡ account tx.fee.refund_address s =
        unfold account in refl in
      let held : (account tx.fee.refund_address s').balance ≤ accounts_total s =
        rw same (balance-le-circulating tx.fee.refund_address s) in
      rw (taken_tx h n tx o gas_spent s e f) (
        Succeeds-bind _ _ (sub_u64-ok tx.fee.gas_limit gas_spent enough) (
          Succeeds-bind _ _
            (mul_u64-ok (tx.fee.gas_limit - gas_spent) tx.fee.gas_price (omega (arith, sum)))
            (Succeeds-bind _ _
              (add_u64-ok gas (unwrap_or (refundable o.deposit) 0) (omega (arith, sum, waits)))
              (Succeeds-bind _ _
                (credit_account-ok tx.fee.refund_address back s'
                  (omega (arith, sum, waits, held))).1
                (_, refl)))))
