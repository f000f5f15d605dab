-- ===== src/Transfer/Withdrawal.antt =====
-- core/src/transfer/withdraw.rs, and the records that two contracts exchange (core/src/transfer.rs).
-- Stealth addresses, nullifiers and Schnorr signatures are the numbers that their bytes spell.
use rusk.Prelude.{ℕ, ◌++◌, ◌*◌, ◌^◌, List, [], ◌∷◌}
use rusk.Vm.{PublicKey, ContractId, Signature, Bytes}
use rusk.Bytes.{to_le_bytes, to_be_bytes}

-- core/src/lib.rs: the id whose first byte is `b`.
abbrev pub reserved : ℕ → ContractId
reserved b = b * 256 ^ 31

abbrev pub transfer_contract : ContractId
transfer_contract = reserved 1

abbrev pub stake_contract : ContractId
stake_contract = reserved 2

abbrev pub StealthAddress : Type 0
StealthAddress = ℕ

pub data WithdrawReceiver : Type 0 where
  phoenix : StealthAddress → WithdrawReceiver
  moonlight : PublicKey → WithdrawReceiver

pub data WithdrawReplayToken : Type 0 where
  phoenix : List ℕ → WithdrawReplayToken
  moonlight : ℕ → WithdrawReplayToken

pub data WithdrawSignature : Type 0 where
  phoenix : Signature → WithdrawSignature
  moonlight : Signature → WithdrawSignature

pub record Withdraw : Type 0 where
  pub contract : ContractId
  pub value : ℕ
  pub receiver : WithdrawReceiver
  pub token : WithdrawReplayToken
  pub signature : WithdrawSignature

receiver_bytes : WithdrawReceiver → Bytes
receiver_bytes (WithdrawReceiver.phoenix address) = to_be_bytes 64 address
receiver_bytes (WithdrawReceiver.moonlight account) = to_be_bytes 96 account

nullifier_bytes : List ℕ → Bytes
nullifier_bytes [] = []
nullifier_bytes (n ∷ ns) = to_be_bytes 32 n ++ nullifier_bytes ns

token_bytes : WithdrawReplayToken → Bytes
unfolding nullifier_bytes
token_bytes (WithdrawReplayToken.phoenix nullifiers) = nullifier_bytes nullifiers
token_bytes (WithdrawReplayToken.moonlight nonce) = to_le_bytes 8 nonce

-- The message that the receiver signs.
unfoldable pub signature_message : Withdraw → Bytes
unfolding receiver_bytes token_bytes
signature_message w =
    to_be_bytes 32 w.contract
    ++ (to_le_bytes 8 w.value ++ (receiver_bytes w.receiver ++ token_bytes w.token))

to_var_bytes : WithdrawSignature → Bytes
to_var_bytes (WithdrawSignature.phoenix sig) = to_be_bytes 64 sig
to_var_bytes (WithdrawSignature.moonlight sig) = to_be_bytes 48 sig

unfoldable pub wrapped_signature_message : Withdraw → Bytes
unfolding to_var_bytes signature_message
wrapped_signature_message w = signature_message w ++ to_var_bytes w.signature

pub record ContractToContract : Type 0 where
  pub contract : ContractId
  pub value : ℕ
  pub fn_name : Bytes
  pub payload : Bytes

pub record ReceiveFromContract : Type 0 where
  pub contract : ContractId
  pub value : ℕ
  pub payload : Bytes

pub record ContractToAccount : Type 0 where
  pub account : PublicKey
  pub value : ℕ
