-- ===== src/Transfer/Settlement.antt =====
-- contracts/transfer/src/state.rs: withdrawals to Phoenix notes and Moonlight accounts.
use rusk.Prelude.{ℕ, Bool, true, false, ◌&&◌, List, [], ◌∷◌, ◌==◌, leb, if◌then◌else◌}
use rusk.Vm.{
  Host, Bytes, Outcome, ok, panic, guard, expect, expect_call, ◌>>=◌, ◌>>◌, incorrect_nullifiers,
  incorrect_nonce, expected_moonlight, expected_phoenix, invalid_signature, bad_caller,
  wrong_contract, not_enough_balance, no_deposit, deposit_mismatch, unreachable,
}
use rusk.Transfer.Withdrawal.{
  Withdraw, WithdrawReceiver, WithdrawReplayToken, WithdrawSignature, signature_message,
  stake_contract, transfer_contract,
}
use rusk.Transfer.Types.{NoteOps, Event}
use rusk.Transfer.State.{
  TransferState, Deposit, emit, phoenix_transaction, moonlight_transaction, deposit_info,
  take_deposit, credit_account, contract_balance, sub_contract_balance, push_note,
  contract_fn_sender,
}

-- The function names as the contract writes them.
abbrev pub mint_name : Bytes
mint_name = b'm' ∷ b'i' ∷ b'n' ∷ b't' ∷ []

abbrev pub withdraw_name : Bytes
withdraw_name = b'w' ∷ b'i' ∷ b't' ∷ b'h' ∷ b'd' ∷ b'r' ∷ b'a' ∷ b'w' ∷ []

abbrev pub convert_name : Bytes
convert_name = b'c' ∷ b'o' ∷ b'n' ∷ b'v' ∷ b'e' ∷ b'r' ∷ b't' ∷ []

abbrev pub contains : List ℕ → ℕ → Bool
contains [] a = false
contains (x ∷ xs) a = let rest = contains xs a in if a == x then true else rest

abbrev pub all_in : List ℕ → List ℕ → Bool
all_in [] known = true
all_in (x ∷ xs) known = contains known x && all_in xs known

phoenix_signature : WithdrawSignature → Outcome ℕ
phoenix_signature (WithdrawSignature.phoenix s) = ok s
phoenix_signature (WithdrawSignature.moonlight _) = panic expected_phoenix

moonlight_signature : WithdrawSignature → Outcome ℕ
moonlight_signature (WithdrawSignature.moonlight s) = ok s
moonlight_signature (WithdrawSignature.phoenix _) = panic expected_moonlight

module _ {Note : Type 0} where
  -- The token names the transaction that is being executed.
  unfoldable pub check_token : WithdrawReplayToken → TransferState Note → Outcome (Unit {0})
  check_token (WithdrawReplayToken.phoenix nullifiers) s = do
    tx ← phoenix_transaction s
    guard (all_in tx.nullifiers nullifiers) incorrect_nullifiers
  check_token (WithdrawReplayToken.moonlight nonce) s = do
    tx ← moonlight_transaction s
    guard (nonce == tx.nonce) incorrect_nonce

module _ {Note : Type 0} (h : Host) (n : NoteOps Note) where
  unfoldable pub pay_receiver :
      Bytes → Withdraw → WithdrawReceiver → TransferState Note → Outcome (TransferState Note)
  unfolding phoenix_signature moonlight_signature
  pay_receiver fn_name w (WithdrawReceiver.phoenix address) s = do
    signature ← phoenix_signature w.signature
    guard (n.verify_schnorr (n.hash (signature_message w)) (n.note_pk address) signature)
        invalid_signature
    let sender = contract_fn_sender fn_name w.contract
    let note = n.transparent_stealth address w.value sender
    ok (push_note n h.block_height note s).1
  pay_receiver fn_name w (WithdrawReceiver.moonlight account) s = do
    signature ← moonlight_signature w.signature
    guard (h.verify_bls (signature_message w) account signature) invalid_signature
    credit_account account w.value s

  unfoldable pub mint_withdrawal :
      Bytes → Withdraw → TransferState Note → Outcome (TransferState Note)
  mint_withdrawal fn_name w s = do check_token w.token s; pay_receiver fn_name w w.receiver s

  unfoldable pub mint : Withdraw → TransferState Note → Outcome (TransferState Note)
  mint w s = do
    caller ← expect h.caller bad_caller
    guard (caller == stake_contract) bad_caller
    guard (w.contract == stake_contract) wrong_contract
    s' ← mint_withdrawal mint_name w s
    ok (emit (Event.mint w.contract w.receiver w.value) s')

  unfoldable pub withdraw : Withdraw → TransferState Note → Outcome (TransferState Note)
  withdraw w s = do
    caller ← expect h.caller bad_caller
    guard (w.contract == caller) bad_caller
    guard (leb w.value (contract_balance w.contract s)) not_enough_balance
    s₁ ← expect_call (sub_contract_balance w.contract w.value s) not_enough_balance
    s₂ ← mint_withdrawal withdraw_name w s₁
    ok (emit (Event.withdraw w.contract w.receiver w.value) s₂)

  -- The match of `convert` on the deposit.
  unfoldable pub convert_deposit :
      Withdraw → Deposit → TransferState Note → Outcome (TransferState Note)
  convert_deposit w (Deposit.available sender target deposit_value) s = do
    guard (w.value == deposit_value) deposit_mismatch
    s' ← mint_withdrawal convert_name w s
    ok (emit (Event.convert sender w.receiver w.value) (take_deposit s'))
  convert_deposit w (Deposit.taken _ _ _) s = panic unreachable
  convert_deposit w Deposit.no_deposit s = panic no_deposit

  unfoldable pub convert : Withdraw → TransferState Note → Outcome (TransferState Note)
  convert w s = do
    caller ← expect h.caller bad_caller
    guard (caller == transfer_contract) bad_caller
    guard (w.contract == transfer_contract) wrong_contract
    deposit ← deposit_info s
    convert_deposit w deposit s
