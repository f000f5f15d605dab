-- ===== src/Transfer/Pickup.antt =====
-- How a deposit that is pending is taken up: by the contract that it is for, or by a conversion
-- (contracts/transfer/src/state.rs).
use rusk.Prelude.{ℕ, ◌+◌, ◌≡◌, ◌∙◌, Option, some, arith, ◌==◌, if◌then◌else◌}
use rusk.Vm.{Host, PublicKey, ContractId, ok, ◌>>=◌}
use rusk.Vm.Ensures.{
  Ensures, Ensures-bind, Ensures-expect, Ensures-guard, Ensures-done, Ensures-panic,
}
use rusk.Transfer.Withdrawal.{Withdraw}
use rusk.Transfer.Types.{NoteOps}
use rusk.Transfer.State.{
  TransferState, Deposit, contract_balance, deposit_info, take_deposit, set_taken,
}
use rusk.Transfer.Settlement.{convert, convert_deposit, convert_name}
use rusk.Transfer.Contracts.{pick_up, deposit}
use rusk.Transfer.Supply.{add_contract_balance-Sets}
use rusk.Transfer.Balances.{take_deposit-same, same_balance}
use rusk.Transfer.Receipt.{IsTransparent, Receives, Receives-later, mint_withdrawal-Receives}

module _ {Note : Type 0} where
  take_deposit-leaves : (s : TransferState Note) → (take_deposit s).leaves ≡ s.leaves
  unfolding take_deposit
  take_deposit-leaves s = ground arith

  -- The deposit of the ongoing transaction, `sender`'s for `target`, has been taken up.
  pub record IsTakenUp (sender : Option PublicKey) (target : ContractId) (value : ℕ)
      (s s' : TransferState Note) : Type 0 where
    pub was_available : deposit_info s ≡ ok (Deposit.available sender target value)
    pub is_taken : deposit_info s' ≡ ok (Deposit.taken sender target value)

  take_deposit-IsTakenUp :
      (sender : Option PublicKey) (target : ContractId) (value : ℕ) (s s' : TransferState Note)
      → deposit_info s ≡ ok (Deposit.available sender target value)
      → s'.ongoing ≡ s.ongoing
      → IsTakenUp sender target value s (take_deposit s')
  unfolding deposit_info take_deposit set_taken ◌>>=◌
  take_deposit-IsTakenUp sender target value s s' found same = record {
    was_available = found;
    is_taken = rw same (ground (arith, found));
  }

module _ {Note : Type 0} (h : Host) (n : NoteOps Note) where
  -- What a conversion does: the deposit that it takes up is of its value.
  abbrev pub Converts : Withdraw → TransferState Note → TransferState Note → Type 0
  Converts w s s' =
      (sender : Option PublicKey) × (target : ContractId) × IsTakenUp sender target w.value s s'
      × ((c : ContractId) → contract_balance c s' ≡ contract_balance c s)
      × Receives h n convert_name w w.receiver s s'

  module _ (clear : IsTransparent n) where
    convert_deposit-Converts :
        (w : Withdraw) (d : Deposit) (s : TransferState Note)
        → deposit_info s ≡ ok d
        → Ensures (Converts w s) (convert_deposit h n w d s)
    unfolding convert_deposit take_deposit deposit_info
    convert_deposit-Converts w (Deposit.available sender target value) s found =
        Ensures-guard _ _ _ λ exact. Ensures-bind _ _ λ s₁ paid.
          let (gets, balances, ongoing) =
            (mint_withdrawal-Receives h n clear convert_name w s).holds s₁ paid in
          let v : w.value ≡ value = ground arith in
          let (kept, accounts, _) = take_deposit-same s₁ in
          let up = take_deposit-IsTakenUp sender target w.value s s₁ (rw v found) ongoing in
          Ensures-done _ (
            sender,
            target,
            record { was_available = up.was_available; is_taken = up.is_taken },
            λ c. same_balance c s _ (kept ∙ balances),
            Receives-later h n convert_name w w.receiver s s₁ _ accounts (take_deposit-leaves s₁)
                gets,
          )
    convert_deposit-Converts w (Deposit.taken _ _ _) s found = Ensures-panic _
    convert_deposit-Converts w Deposit.no_deposit s found = Ensures-panic _

    pub convert-Converts :
        (w : Withdraw) (s : TransferState Note) → Ensures (Converts w s) (convert h n w s)
    unfolding convert
    convert-Converts w s = Ensures-expect _ _ _ λ caller is. Ensures-guard _ _ _ λ own.
        Ensures-guard _ _ _
          λ transfer. Ensures-bind _ _ λ d found. convert_deposit-Converts w d s found

module _ {Note : Type 0} (h : Host) where
  -- What taking up a deposit does: the contract that calls gets it, and it was meant for that contract.
  abbrev pub TakesUp : ℕ → TransferState Note → TransferState Note → Type 0
  TakesUp value s s' =
      (caller : ContractId) × (sender : Option PublicKey) × (h.caller ≡ some caller)
      × IsTakenUp sender caller value s s'
      × ((c : ContractId)
          → contract_balance c s' ≡ contract_balance c s + (if c == caller then value else 0))
      × (s'.accounts ≡ s.accounts)
      × (s'.leaves ≡ s.leaves)

  pick_up-TakesUp :
      (caller : ContractId) (value : ℕ) (d : Deposit) (s : TransferState Note)
      → h.caller ≡ some caller
      → deposit_info s ≡ ok d
      → Ensures (TakesUp value s) (pick_up h caller value d s)
  unfolding pick_up take_deposit deposit_info contract_balance
  pick_up-TakesUp caller value (Deposit.available sender target deposited) s is found =
      Ensures-guard _ _ _ λ same_value. Ensures-guard _ _ _ λ same_target.
        Ensures-bind _ _ λ s₁ added.
          let v : deposited ≡ value = ground arith in
          let t : target ≡ caller = ground arith in
          let (e, _) = (add_contract_balance-Sets target deposited s).holds s₁ added in
          let (kept, accounts, _) = take_deposit-same s₁ in
          let up =
            take_deposit-IsTakenUp sender caller value s s₁ (rw (← v, ← t) found) e.same_ongoing in
          Ensures-done _ (
            caller,
            sender,
            is,
            record { was_available = up.was_available; is_taken = up.is_taken },
            λ c.
                let stays = same_balance c s₁ (take_deposit s₁) kept in
                let moves : contract_balance c (take_deposit s₁)
                    ≡ contract_balance c s + (if c == caller then value else 0) =
                  ground (arith, stays, e.others c, v, t) in
                moves,
            accounts ∙ e.same_accounts,
            take_deposit-leaves s₁ ∙ e.same_leaves,
          )
  pick_up-TakesUp caller value (Deposit.taken _ _ _) s is found = Ensures-panic _
  pick_up-TakesUp caller value Deposit.no_deposit s is found = Ensures-panic _

  pub deposit-TakesUp :
      (value : ℕ) (s : TransferState Note) → Ensures (TakesUp value s) (deposit h value s)
  unfolding deposit
  deposit-TakesUp value s =
      Ensures-expect _ _ _
        λ caller is. Ensures-bind _ _ λ d found. pick_up-TakesUp caller value d s is found
