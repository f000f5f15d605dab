-- ===== src/Transfer/Spending.antt =====
-- contracts/transfer/src/state.rs: the execution of a transaction. The contract that it calls is
-- the parameter `call_raw`: the answer of the call, and the state that it leaves.
use rusk.Prelude.{
  ℕ, ◌+◌, ◌-◌, ◌*◌, ◌%◌, not, Bool, ◌&&◌, Option, none, some, List, [], ◌∷◌, ◌==◌, ltb, leb, length,
  min, if◌then◌else◌, unwrap_or,
}
use rusk.Vm.{
  Host, Bytes, Outcome, ok, guard, expect, add_u64, sub_u64, mul_u64, u64_mod, ◌>>=◌, ◌>>◌,
  wrong_chain, root_not_found, nullifier_spent, invalid_proof, invalid_signature, no_funds,
  nonce_used, nonce_not_ready, gas_price_zero,
}
use rusk.Map.{get, insert, contains_key}
use rusk.Transfer.Types.{
  ContractCall, MoonlightTransaction, PhoenixTransaction, Transaction, NoteOps, Event, gas_price,
  tx_call, tx_memo, moonlight_message, moonlight_receiver,
}
use rusk.Transfer.State.{
  TransferState, OngoingTransaction, Deposit, emit, put_transaction, take_ongoing, cache_note,
  root_exists, credit_account, put_account, push_note,
}

module _ {Note : Type 0} where
  -- A nullifier that is in the set already is spent.
  unfoldable pub insert_nullifiers : List ℕ → TransferState Note → Outcome (TransferState Note)
  insert_nullifiers [] s = ok s
  insert_nullifiers (x ∷ xs) s = do
    guard (not (contains_key x s.nullifiers)) nullifier_spent
    insert_nullifiers xs (record s { nullifiers = insert x tt s.nullifiers })

module _ {Note : Type 0} (h : Host) (n : NoteOps Note) where
  -- `Tree::extend_notes`, each note pushed to the transitory list too.
  unfoldable pub extend_notes : List Note → TransferState Note → Outcome (TransferState Note)
  extend_notes [] s = ok s
  extend_notes (x ∷ xs) s = do
    let (pushed, s') = push_note n h.block_height x s
    s'' ← elim pushed [ none ↦ ok s' | some note ↦ cache_note note s' ]
    extend_notes xs s''

  unfoldable pub verify_tx_proof : PhoenixTransaction Note → Outcome Bool
  verify_tx_proof tx = do
    vd ← expect (n.tx_circuit_verifier (length tx.nullifiers)) invalid_proof
    ok (n.verify_plonk vd tx)

  unfoldable pub spend_phoenix :
      PhoenixTransaction Note → TransferState Note → Outcome (TransferState Note)
  spend_phoenix tx s = do
    guard (tx.chain_id == h.chain_id) wrong_chain
    guard (root_exists tx.root s) root_not_found
    s' ← insert_nullifiers tx.nullifiers s
    proven ← verify_tx_proof tx
    guard proven invalid_proof
    extend_notes tx.outputs s'

-- The value, the deposit and the most that the gas can cost.
unfoldable pub total_value : MoonlightTransaction → Outcome ℕ
total_value tx = do
  base ← add_u64 tx.value tx.deposit
  gas ← mul_u64 tx.fee.gas_limit tx.fee.gas_price
  add_u64 base gas

module _ {Note : Type 0} (h : Host) where
  -- The checks and the writes on the sender's account.
  unfoldable pub charge_sender :
      MoonlightTransaction → ℕ → TransferState Note → Outcome (TransferState Note)
  unfolding put_account
  charge_sender tx total s = do
    account ← expect (get tx.sender s.accounts) no_funds
    guard (leb total account.balance) no_funds
    incremented_nonce ← add_u64 account.nonce 1
    guard (leb incremented_nonce tx.nonce) nonce_used
    guard (leb tx.nonce incremented_nonce) nonce_not_ready
    ok (put_account tx.sender (record { nonce = tx.nonce; balance = account.balance - total }) s)

  unfoldable pub spend_moonlight :
      MoonlightTransaction → TransferState Note → Outcome (TransferState Note)
  spend_moonlight tx s = do
    guard (tx.chain_id == h.chain_id) wrong_chain
    guard (h.verify_bls (moonlight_message tx) tx.sender tx.signature) invalid_signature
    total ← total_value tx
    s' ← charge_sender tx total s
    if ltb 0 tx.value
        then credit_account (unwrap_or (moonlight_receiver tx) tx.sender) tx.value s'
        else ok s'

-- What a deposit that was not picked up gives back.
unfoldable pub refundable : Deposit → Option ℕ
refundable (Deposit.available _ _ value) = some value
refundable _ = none

module _ {Note : Type 0} (h : Host) (n : NoteOps Note) where
  unfoldable pub spend : Transaction Note → TransferState Note → Outcome (TransferState Note)
  spend (Transaction.phoenix tx) s = spend_phoenix h n tx s
  spend (Transaction.moonlight tx) s = spend_moonlight h tx s

  unfoldable pub spend_and_execute :
      (ContractCall → TransferState Note → Option Bytes × TransferState Note)
      → Transaction Note
      → TransferState Note
      → Outcome (Option Bytes × TransferState Note)
  spend_and_execute call_raw tx s = do
    guard (not (gas_price tx == 0)) gas_price_zero
    s₁ ← put_transaction tx s
    s₂ ← spend tx s₁
    elim (tx_call tx) [ none ↦ ok (some [], s₂) | some call ↦ ok (call_raw call s₂) ]

  -- `Fee::gen_remainder_note`, in `dusk-core`: the sums wrap.
  unfoldable pub gen_remainder_note : PhoenixTransaction Note → ℕ → Option ℕ → Note
  gen_remainder_note tx gas_consumed deposit =
      let gas = min gas_consumed tx.fee.gas_limit in
      let gas_changes = (tx.fee.gas_limit - gas) * tx.fee.gas_price % u64_mod in
      n.transparent_stealth tx.fee.stealth_address ((gas_changes + unwrap_or deposit 0) % u64_mod)
        tx.fee.sender

  unfoldable pub refund_phoenix :
      PhoenixTransaction Note
      → OngoingTransaction Note
      → ℕ
      → TransferState Note
      → Outcome (TransferState Note)
  refund_phoenix tx ongoing gas_spent s = do
    let note = gen_remainder_note tx gas_spent (refundable ongoing.deposit)
    let (refund_note, s') = push_note n h.block_height note s
    let memo = unwrap_or (tx_memo ongoing.tx) []
    ok (emit (Event.phoenix tx.nullifiers ongoing.notes memo gas_spent refund_note) s')

  unfoldable pub refund_moonlight :
      MoonlightTransaction
      → OngoingTransaction Note
      → ℕ
      → TransferState Note
      → Outcome (TransferState Note)
  refund_moonlight tx ongoing gas_spent s = do
    remaining_gas ← sub_u64 tx.fee.gas_limit gas_spent
    unspent ← mul_u64 remaining_gas tx.fee.gas_price
    refund ← add_u64 unspent (unwrap_or (refundable ongoing.deposit) 0)
    s' ← credit_account tx.fee.refund_address refund s
    let memo = unwrap_or (tx_memo ongoing.tx) []
    let refund_info =
        if ltb 0 refund && not (tx.fee.refund_address == tx.sender)
        then some (tx.fee.refund_address, refund)
        else none
    ok (
        emit (Event.moonlight tx.sender (moonlight_receiver tx) tx.value memo gas_spent refund_info)
          s')

  unfoldable pub refund_tx :
      Transaction Note
      → OngoingTransaction Note
      → ℕ
      → TransferState Note
      → Outcome (TransferState Note)
  refund_tx (Transaction.phoenix tx) ongoing gas_spent s = refund_phoenix tx ongoing gas_spent s
  refund_tx (Transaction.moonlight tx) ongoing gas_spent s = refund_moonlight tx ongoing gas_spent s

  unfoldable pub refund : ℕ → TransferState Note → Outcome (TransferState Note)
  unfolding refund_tx
  refund gas_spent s = do (ongoing, s') ← take_ongoing s; refund_tx ongoing.tx ongoing gas_spent s'
