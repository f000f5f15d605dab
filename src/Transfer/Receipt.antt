-- ===== src/Transfer/Receipt.antt =====
-- Who gets what, and who pays, when the transfer contract withdraws, converts, mints or takes up a
-- deposit (contracts/transfer/src/state.rs).
use rusk.Prelude.{ℕ, ◌+◌, ◌≡◌, refl, ◌∙◌, some, arith, ◌++◌, [], ◌∷◌, length, ◌==◌, if◌then◌else◌}
use rusk.Vm.{Host, PublicKey, ContractId, Bytes}
use rusk.Vm.Ensures.{
  Ensures, Ensures-bind, Ensures-expect, Ensures-call, Ensures-guard, Ensures-done, Ensures-mono,
}
use rusk.Transfer.Withdrawal.{Withdraw, WithdrawReceiver}
use rusk.Transfer.Types.{NoteOps, Sender}
use rusk.Transfer.State.{TransferState, account, contract_balance, contract_fn_sender, push_note}
use rusk.Transfer.Settlement.{
  pay_receiver, mint_withdrawal, mint, withdraw, withdraw_name, mint_name,
}
use rusk.Transfer.Supply.{credit_account-Credits, sub_contract_balance-Lowers}
use rusk.Transfer.Balances.{push_note-same, same_balance}

-- A transparent note tells the value that it was made with.
pub record IsTransparent {Note : Type 0} (n : NoteOps Note) : Type 0 where
  pub tells :
      (address value : ℕ) (sender : Sender)
      → n.value (n.transparent_stealth address value sender) ≡ some value

module _ {Note : Type 0} where
  same_account :
      (k : PublicKey) (s s' : TransferState Note)
      → s'.accounts ≡ s.accounts
      → account k s' ≡ account k s
  unfolding account
  same_account k s s' e = rw e

module _ {Note : Type 0} (h : Host) (n : NoteOps Note) where
  -- What a withdrawal gives: a transparent note of exactly its value to the Phoenix address, as the
  -- last leaf of the tree, or exactly its value to the Moonlight account. A note of no value is not
  -- added. Nothing else changes in the accounts and the leaves.
  unfoldable pub Receives :
      Bytes → Withdraw → WithdrawReceiver → TransferState Note → TransferState Note → Type 0
  Receives fn_name w (WithdrawReceiver.phoenix address) s s' =
      ((k : PublicKey) → account k s' ≡ account k s)
      × (s'.leaves ≡ (
          if w.value == 0
          then s.leaves
          else s.leaves
            ++ record {
              block_height = h.block_height;
              note =
                  n.set_pos (length s.leaves)
                    (n.transparent_stealth address w.value (contract_fn_sender fn_name w.contract));
            }
              ∷ []))
  Receives fn_name w (WithdrawReceiver.moonlight key) s s' =
      ((k : PublicKey)
        → account k s' ≡ (
            if k == key
            then record (account key s) { balance = (account key s).balance + w.value }
            else account k s))
      × (s'.leaves ≡ s.leaves)

  pub Receives-later :
      (fn_name : Bytes) (w : Withdraw) (r : WithdrawReceiver) (s s' s'' : TransferState Note)
      → s''.accounts ≡ s'.accounts
      → s''.leaves ≡ s'.leaves
      → Receives fn_name w r s s'
      → Receives fn_name w r s s''
  unfolding Receives
  Receives-later fn_name w (WithdrawReceiver.phoenix address) s s' s'' a l (p, q) =
      (λ k. same_account k s' s'' a ∙ p k, l ∙ q)
  Receives-later fn_name w (WithdrawReceiver.moonlight key) s s' s'' a l (p, q) =
      (λ k. same_account k s' s'' a ∙ p k, l ∙ q)

  Receives-earlier :
      (fn_name : Bytes) (w : Withdraw) (r : WithdrawReceiver) (s₀ s s' : TransferState Note)
      → s.accounts ≡ s₀.accounts
      → s.leaves ≡ s₀.leaves
      → Receives fn_name w r s s'
      → Receives fn_name w r s₀ s'
  unfolding Receives account
  Receives-earlier fn_name w (WithdrawReceiver.phoenix address) s₀ s s' a l e = rw (← a, ← l) e
  Receives-earlier fn_name w (WithdrawReceiver.moonlight key) s₀ s s' a l e = rw (← a, ← l) e

  module _ (clear : IsTransparent n) where
    pushed :
        (address value : ℕ) (sender : Sender) (s : TransferState Note)
        → (push_note n h.block_height (n.transparent_stealth address value sender) s).1.leaves ≡ (
            if value == 0
            then s.leaves
            else s.leaves
              ++ record {
                block_height = h.block_height;
                note = n.set_pos (length s.leaves) (n.transparent_stealth address value sender);
              }
                ∷ [])
    unfolding push_note
    pushed address value sender s = ground (arith, clear.tells address value sender)

    pay_receiver-Receives :
        (fn_name : Bytes) (w : Withdraw) (r : WithdrawReceiver) (s : TransferState Note)
        → Ensures
            (λ s'.
              Receives fn_name w r s s'
              × (s'.contract_balances ≡ s.contract_balances)
              × (s'.ongoing ≡ s.ongoing))
            (pay_receiver h n fn_name w r s)
    unfolding pay_receiver Receives
    pay_receiver-Receives fn_name w (WithdrawReceiver.phoenix address) s = Ensures-bind _ _ λ _ _.
        Ensures-guard _ _ _ λ _.
          let note =
            n.transparent_stealth address w.value (contract_fn_sender fn_name w.contract) in
          let (balances, accounts, ongoing, _) = push_note-same h n h.block_height note s in
          Ensures-done _ (
            (
              λ k. same_account k s (push_note n h.block_height note s).1 accounts,
              pushed address w.value (contract_fn_sender fn_name w.contract) s,
            ),
            balances,
            ongoing,
          )
    pay_receiver-Receives fn_name w (WithdrawReceiver.moonlight key) s = Ensures-bind _ _ λ _ _.
        Ensures-guard _ _ _ λ _.
          Ensures-mono (λ s' c. ((c.credited, c.same_leaves), c.same_contracts, c.same_ongoing))
            (credit_account-Credits key w.value s)

    pub mint_withdrawal-Receives :
        (fn_name : Bytes) (w : Withdraw) (s : TransferState Note)
        → Ensures
            (λ s'.
              Receives fn_name w w.receiver s s'
              × (s'.contract_balances ≡ s.contract_balances)
              × (s'.ongoing ≡ s.ongoing))
            (mint_withdrawal h n fn_name w s)
    unfolding mint_withdrawal
    mint_withdrawal-Receives fn_name w s =
        Ensures-bind _ _ λ _ _. pay_receiver-Receives fn_name w w.receiver s

    -- A withdrawal takes its value from the contract that calls and names itself, and from no other.
    pub withdraw-Receives :
        (w : Withdraw) (s : TransferState Note)
        → Ensures
            (λ s'.
              (h.caller ≡ some w.contract)
              × ((c : ContractId)
                  → contract_balance c s' + (if c == w.contract then w.value else 0)
                    ≡ contract_balance c s)
              × Receives withdraw_name w w.receiver s s')
            (withdraw h n w s)
    unfolding withdraw contract_balance
    withdraw-Receives w s = Ensures-expect _ _ _ λ caller is. Ensures-guard _ _ _ λ own.
        Ensures-guard _ _ _ λ enough. Ensures-call _ _ _ λ s₁ lowered. Ensures-bind _ _ λ s₂ paid.
          let low = (sub_contract_balance-Lowers w.contract w.value s).holds s₁ lowered in
          let (gets, balances, _) = (mint_withdrawal-Receives withdraw_name w s₁).holds s₂ paid in
          let same_caller : caller ≡ w.contract = ground arith in
          Ensures-done _ (
            rw (← same_caller) is,
            λ c.
                let kept = same_balance c s₁ s₂ balances in
                let moves : contract_balance c s₂ + (if c == w.contract then w.value else 0)
                    ≡ contract_balance c s =
                  ground (arith, kept, low.sets.others c, low.covered) in
                moves,
            Receives-later withdraw_name w w.receiver s s₂ _ refl refl (
                Receives-earlier withdraw_name w w.receiver s s₁ s₂ low.sets.same_accounts
                  low.sets.same_leaves gets),
          )

    pub mint-Receives :
        (w : Withdraw) (s : TransferState Note)
        → Ensures
            (λ s'.
              ((c : ContractId) → contract_balance c s' ≡ contract_balance c s)
              × Receives mint_name w w.receiver s s')
            (mint h n w s)
    unfolding mint
    mint-Receives w s = Ensures-expect _ _ _ λ caller is. Ensures-guard _ _ _ λ own.
        Ensures-guard _ _ _ λ stake. Ensures-bind _ _ λ s₁ paid.
          let (gets, balances, _) = (mint_withdrawal-Receives mint_name w s).holds s₁ paid in
          Ensures-done _ (
            λ c. same_balance c s _ balances,
            Receives-later mint_name w w.receiver s s₁ _ refl refl gets,
          )
