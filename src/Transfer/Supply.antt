-- ===== src/Transfer/Supply.antt =====
-- The Dusk that the accounts and the contracts hold, and how the writes to the two maps move it.
use rusk.Prelude.{ℕ, ◌+◌, ◌-◌, ◌≤◌, ◌<◌, ◌≡◌, refl, some, arith, ◌==◌, if◌then◌else◌}
use rusk.Vm.{Host, PublicKey, ContractId, u64_mod}
use rusk.Vm.Ensures.{
  Ensures, Ensures-bind, Ensures-expect, Ensures-guard, Ensures-done, add_u64-eq-ok,
}
use rusk.Map.{get, get-insert}
use rusk.Map.Weight.{total, share, total-insert}
use rusk.Transfer.Types.{AccountData}
use rusk.Transfer.State.{
  TransferState, account, credit_account, put_account, put_balance, contract_balance,
  add_contract_balance, sub_contract_balance,
}
use rusk.Transfer.Contracts.{debit_caller}

abbrev pub account_balance : AccountData → ℕ
account_balance a = a.balance

abbrev pub same : ℕ → ℕ
same n = n

module _ {Note : Type 0} where
  -- What the Moonlight accounts hold together, and the contracts.
  unfoldable pub accounts_total : TransferState Note → ℕ
  accounts_total s = total account_balance s.accounts

  unfoldable pub contracts_total : TransferState Note → ℕ
  contracts_total s = total same s.contract_balances

  pub account_share :
      (k : PublicKey) (s : TransferState Note)
      → share account_balance (get k s.accounts) ≡ (account k s).balance
  unfolding account
  account_share k s = ground arith

  balance_share :
      (c : ContractId) (s : TransferState Note)
      → share same (get c s.contract_balances) ≡ contract_balance c s
  unfolding contract_balance
  balance_share c s = ground arith

  -- What a write to the accounts or to the balances leaves alone.
  pub record Credits (key : PublicKey) (value : ℕ) (s s' : TransferState Note) : Type 0 where
    pub total_rises : accounts_total s' ≡ accounts_total s + value
    pub fits : (account key s').balance < u64_mod
    pub credited :
        (k : PublicKey)
        → account k s' ≡ (
            if k == key
            then record (account key s) { balance = (account key s).balance + value }
            else account k s)
    pub same_contracts : s'.contract_balances ≡ s.contract_balances
    pub same_ongoing : s'.ongoing ≡ s.ongoing
    pub same_nullifiers : s'.nullifiers ≡ s.nullifiers
    pub same_leaves : s'.leaves ≡ s.leaves

  pub credit_account-Credits :
      (key : PublicKey) (value : ℕ) (s : TransferState Note)
      → Ensures (Credits key value s) (credit_account key value s)
  unfolding credit_account put_account accounts_total
  credit_account-Credits key value s = Ensures-bind _ _ λ balance added.
      let sum = add_u64-eq-ok (account key s).balance value added in
      let a : AccountData = record (account key s) { balance = balance } in
      Ensures-done _ (record {
        total_rises =
            omega (arith, sum, account_share key s, total-insert account_balance key a s.accounts);
        fits = unfold account in rw (get-insert key key a s.accounts) (ground (arith, sum));
        credited = λ k. unfold account in rw (get-insert key k a s.accounts) (ground (arith, sum));
        same_contracts = refl;
        same_ongoing = refl;
        same_nullifiers = refl;
        same_leaves = refl;
      })

  -- A write of one contract's balance.
  pub record Sets (contract : ContractId) (value : ℕ) (s s' : TransferState Note) : Type 0 where
    pub others :
        (c : ContractId)
        → contract_balance c s' ≡ (if c == contract then value else contract_balance c s)
    pub total_moves : contracts_total s' + contract_balance contract s ≡ contracts_total s + value
    pub same_accounts : s'.accounts ≡ s.accounts
    pub same_ongoing : s'.ongoing ≡ s.ongoing
    pub same_nullifiers : s'.nullifiers ≡ s.nullifiers
    pub same_leaves : s'.leaves ≡ s.leaves

  put_balance-Sets :
      (contract : ContractId) (value : ℕ) (s : TransferState Note)
      → Sets contract value s (put_balance contract value s)
  unfolding put_balance contracts_total
  put_balance-Sets contract value s = record {
    others = λ c.
        unfold contract_balance in
        rw (get-insert contract c value s.contract_balances) (ground arith);
    total_moves =
        omega
          (arith, balance_share contract s, total-insert same contract value s.contract_balances);
    same_accounts = refl;
    same_ongoing = refl;
    same_nullifiers = refl;
    same_leaves = refl;
  }

  pub add_contract_balance-Sets :
      (contract : ContractId) (value : ℕ) (s : TransferState Note)
      → Ensures
          (λ s'.
            Sets contract (contract_balance contract s + value) s s'
            × (contract_balance contract s + value < u64_mod))
          (add_contract_balance contract value s)
  unfolding add_contract_balance
  add_contract_balance-Sets contract value s = Ensures-bind _ _ λ balance added.
      let sum = add_u64-eq-ok (contract_balance contract s) value added in
      Ensures-done _ (rw (← sum.0) (put_balance-Sets contract balance s), omega (arith, sum))

  pub record Lowers (contract : ContractId) (value : ℕ) (s s' : TransferState Note) : Type 0 where
    pub covered : value ≤ contract_balance contract s
    pub sets : Sets contract (contract_balance contract s - value) s s'

  found_balance :
      (contract : ContractId) (s : TransferState Note) {b : ℕ}
      → get contract s.contract_balances ≡ some b
      → contract_balance contract s ≡ b
  unfolding contract_balance
  found_balance contract s e = rw e

  pub debit_caller-Lowers :
      (h : Host) (sender : ContractId) (value : ℕ) (s : TransferState Note)
      → Ensures (Lowers sender value s) (debit_caller h sender value s)
  unfolding debit_caller
  debit_caller-Lowers h sender value s = Ensures-expect _ _ _ λ b found.
      Ensures-guard _ _ _ λ enough. Ensures-done _ (record {
        covered = ground (arith, found_balance sender s found);
        sets = rw (found_balance sender s found) (put_balance-Sets sender (b - value) s);
      })

  pub sub_contract_balance-Lowers :
      (contract : ContractId) (value : ℕ) (s : TransferState Note)
      → Ensures (Lowers contract value s) (sub_contract_balance contract value s)
  unfolding sub_contract_balance
  sub_contract_balance-Lowers contract value s = Ensures-expect _ _ _ λ b found.
      Ensures-guard _ _ _ λ enough. Ensures-done _ (record {
        covered = ground (arith, found_balance contract s found);
        sets = rw (found_balance contract s found) (put_balance-Sets contract (b - value) s);
      })
