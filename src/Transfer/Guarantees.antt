-- ===== src/Transfer/Guarantees.antt =====
-- What the calls of the transfer contract guarantee when they return.
use rusk.Prelude.{ℕ, ◌+◌, ◌*◌, ◌≡◌, Option, none, some, true, ◌==◌, if◌then◌else◌}
use rusk.Vm.{Host, PublicKey, ContractId, Bytes, ok, ◌>>=◌}
use rusk.Transfer.Withdrawal.{Withdraw, ContractToAccount}
use rusk.Transfer.Types.{
  NoteOps, ContractCall, MoonlightTransaction, Transaction, moonlight_message,
}
use rusk.Transfer.State.{TransferState, account, contract_balance}
use rusk.Transfer.Settlement
use rusk.Transfer.Settlement.{withdraw_name, mint_name}
use rusk.Transfer.Contracts
use rusk.Transfer.Spending.{spend_moonlight, spend_and_execute, refund}
use rusk.Transfer.Gas.{spend_moonlight-Spends, max_gas}
use rusk.Transfer.Circulation.{
  circulating, note_part, withdraw-circulating, mint-circulating, convert-circulating,
  deposit-circulating, contract_to_account-circulating,
}
use rusk.Transfer.Receipt.{IsTransparent, Receives, withdraw-Receives, mint-Receives}
use rusk.Transfer.Pickup.{Converts, convert-Converts, TakesUp, deposit-TakesUp}
use rusk.Transfer.Refund.{Keeps, execute_and_refund-circulating}

module _ {Note : Type 0} (h : Host) (n : NoteOps Note) where
  -- A Moonlight transaction that is executed and refunded costs exactly the gas that was spent:
  -- where no transaction is being executed before, and the called contract keeps the Dusk in
  -- circulation and the transaction that is being executed, what the accounts, the contracts and
  -- the pending deposit hold together falls by the gas spent times its price, and no transaction is
  -- left open.
  pub transaction_costs_gas :
      (call_raw : ContractCall → TransferState Note → Option Bytes × TransferState Note)
      → Keeps call_raw
      → (tx : MoonlightTransaction) (gas_spent : ℕ) (s s' : TransferState Note) → s.ongoing ≡ none
      → (spend_and_execute h n call_raw (Transaction.moonlight tx) s >>= λ p.
          refund h n gas_spent p.1)
        ≡ ok s'
      → (circulating s' + gas_spent * tx.fee.gas_price ≡ circulating s) × (s'.ongoing ≡ none)
  transaction_costs_gas call_raw keeps tx gas_spent s s' idle e =
      (execute_and_refund-circulating h n call_raw keeps tx gas_spent s idle).holds s' e

  module _ (clear : IsTransparent n) where
    -- Where a transparent note tells the value that it was made with, a withdrawal that returns was
    -- made by the contract that it names, lowers the balance of that contract by exactly its value and
    -- leaves every other contract's, and gives the value to its receiver alone: to the Moonlight
    -- account, or as a note of exactly that value, the last leaf of the tree, to the Phoenix address.
    -- What circulates falls by exactly what goes to a note.
    pub withdraw_moves :
        (w : Withdraw) (s s' : TransferState Note)
        → Settlement.withdraw h n w s ≡ ok s'
        → (circulating s' + note_part w.receiver w.value ≡ circulating s)
          × (h.caller ≡ some w.contract)
          × ((c : ContractId)
              → contract_balance c s' + (if c == w.contract then w.value else 0)
                ≡ contract_balance c s)
          × Receives h n withdraw_name w w.receiver s s'
    withdraw_moves w s s' e =
        let m = (withdraw-Receives h n clear w s).holds s' e in
        ((withdraw-circulating h n w s).holds s' e, m.0, m.1, m.2)

    -- Where a transparent note tells the value that it was made with, a conversion that returns takes
    -- up the deposit that was pending, which was of exactly its value, gives that value to its
    -- receiver alone, as a note to a Phoenix address or to a Moonlight account, and leaves the balance
    -- of every contract. What circulates falls by exactly what goes to a note.
    pub convert_moves :
        (w : Withdraw) (s s' : TransferState Note)
        → Settlement.convert h n w s ≡ ok s'
        → (circulating s' + note_part w.receiver w.value ≡ circulating s) × Converts h n w s s'
    convert_moves w s s' e =
        ((convert-circulating h n w s).holds s' e, (convert-Converts h n clear w s).holds s' e)

    -- Where a transparent note tells the value that it was made with, a mint that returns creates
    -- exactly its value and gives it to its receiver alone, as a note to a Phoenix address or to a
    -- Moonlight account, and leaves the balance of every contract.
    pub mint_creates :
        (w : Withdraw) (s s' : TransferState Note)
        → Settlement.mint h n w s ≡ ok s'
        → (circulating s' + note_part w.receiver w.value ≡ circulating s + w.value)
          × ((c : ContractId) → contract_balance c s' ≡ contract_balance c s)
          × Receives h n mint_name w w.receiver s s'
    mint_creates w s s' e =
        let m = (mint-Receives h n clear w s).holds s' e in
        ((mint-circulating h n w s).holds s' e, m.0, m.1)

module _ {Note : Type 0} (h : Host) where
  -- A deposit that is picked up was pending, of the value that is named and for the contract that
  -- calls. That contract's balance rises by exactly the value, every other balance and every account
  -- and note stays, the deposit is no longer pending, and so what circulates stays the same.
  pub deposit_moves :
      (value : ℕ) (s s' : TransferState Note)
      → Contracts.deposit h value s ≡ ok s'
      → (circulating s' ≡ circulating s) × TakesUp h value s s'
  deposit_moves value s s' e =
      ((deposit-circulating h value s).holds s' e, (deposit-TakesUp h value s).holds s' e)

  -- A payment of a contract to an account that returns leaves what circulates the same.
  pub contract_to_account_conserves :
      (t : ContractToAccount) (s s' : TransferState Note)
      → Contracts.contract_to_account h t s ≡ ok s'
      → circulating s' ≡ circulating s
  contract_to_account_conserves t s s' e = (contract_to_account-circulating h t s).holds s' e

  -- A Moonlight transaction that is accepted was signed by its sender for this chain and carries the
  -- sender's next nonce. The sender pays the value, the deposit and all the gas, the receiver gets
  -- the value, the sender's nonce is the transaction's, and every other account is as before.
  pub spend_moonlight_moves :
      (tx : MoonlightTransaction) (s s' : TransferState Note)
      → spend_moonlight h tx s ≡ ok s'
      → (tx.chain_id ≡ h.chain_id)
        × (h.verify_bls (moonlight_message tx) tx.sender tx.signature ≡ true)
        × (tx.nonce ≡ (account tx.sender s).nonce + 1)
        × ((k : PublicKey)
            → (account k s').balance
                + (if k == tx.sender then tx.value + tx.deposit + max_gas tx else 0)
              ≡ (account k s).balance + (if k == tx.receiver then tx.value else 0))
        × ((k : PublicKey)
            → (account k s').nonce ≡ (if k == tx.sender then tx.nonce else (account k s).nonce))
  spend_moonlight_moves tx s s' e =
      let m = (spend_moonlight-Spends h tx s).holds s' e in
      (m.on_chain, m.signed, m.next_nonce, m.balances, m.nonces)
