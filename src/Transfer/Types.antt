-- ===== src/Transfer/Types.antt =====
-- core/src/transfer.rs, core/src/transfer/{data,moonlight,phoenix}.rs: transactions and events. Notes
-- are those of the `phoenix-core` crate, so their type and its operations are parameters.
use rusk.Prelude.{ℕ, Bool, Option, none, some, List, [], ◌==◌, if◌then◌else◌, ◌∷◌, ◌++◌}
use rusk.Vm.{PublicKey, ContractId, Signature, Bytes}
use rusk.Bytes.{to_le_bytes, to_be_bytes}
use rusk.Transfer.Withdrawal.{StealthAddress, WithdrawReceiver}

pub data Sender : Type 0 where
  encryption contract_info : Bytes → Sender

pub record ContractCall : Type 0 where
  pub contract : ContractId
  pub fn_name : Bytes
  pub fn_args : Bytes

-- The bytes of a deployment that are hashed and signed.
pub record ContractDeploy : Type 0 where
  pub bytecode_hash : Bytes
  pub owner : Bytes
  pub init_args : Option Bytes

pub data TransactionData : Type 0 where
  call : ContractCall → TransactionData
  deploy : ContractDeploy → TransactionData
  memo : Bytes → TransactionData

pub record AccountData : Type 0 where
  pub nonce : ℕ
  pub balance : ℕ

pub record MoonlightFee : Type 0 where
  pub gas_limit : ℕ
  pub gas_price : ℕ
  pub refund_address : PublicKey

-- `Payload` of moonlight.rs with the signature of `Transaction`.
pub record MoonlightTransaction : Type 0 where
  pub chain_id : ℕ
  pub sender : PublicKey
  pub receiver : PublicKey
  pub value : ℕ
  pub deposit : ℕ
  pub fee : MoonlightFee
  pub nonce : ℕ
  pub tx_data : Option TransactionData
  pub signature : Signature

-- `Transaction::receiver`: none if the sender pays itself.
unfoldable pub moonlight_receiver : MoonlightTransaction → Option PublicKey
moonlight_receiver tx = if tx.sender == tx.receiver then none else some tx.receiver

data_message : Option TransactionData → Bytes
data_message none = []
data_message (some (TransactionData.call c)) = to_be_bytes 32 c.contract ++ (c.fn_name ++ c.fn_args)
data_message (some (TransactionData.deploy d)) =
    d.bytecode_hash ++ (d.owner ++ (elim d.init_args [ none ↦ [] | some args ↦ args ]))
data_message (some (TransactionData.memo m)) = m

-- `Payload::signature_message`: the receiver and the refund address only where they differ from the
-- sender.
unfoldable pub moonlight_message : MoonlightTransaction → Bytes
unfolding data_message
moonlight_message tx =
    tx.chain_id
    ∷ (to_be_bytes 96 tx.sender
        ++ ((if tx.receiver == tx.sender then [] else to_be_bytes 96 tx.receiver)
            ++ (to_le_bytes 8 tx.value
                ++ (to_le_bytes 8 tx.deposit
                    ++ (to_le_bytes 8 tx.fee.gas_limit
                        ++ (to_le_bytes 8 tx.fee.gas_price
                            ++ ((if tx.fee.refund_address == tx.sender
                                  then []
                                  else to_be_bytes 96 tx.fee.refund_address)
                                ++ (to_le_bytes 8 tx.nonce ++ data_message tx.tx_data))))))))

pub record PhoenixFee : Type 0 where
  pub gas_limit : ℕ
  pub gas_price : ℕ
  pub stealth_address : StealthAddress
  pub sender : Sender

pub record PhoenixTransaction (Note : Type 0) : Type 0 where
  pub chain_id : ℕ
  pub root : ℕ
  pub nullifiers : List ℕ
  pub outputs : List Note
  pub deposit : ℕ
  pub fee : PhoenixFee
  pub tx_data : Option TransactionData
  pub proof : Bytes

pub data Transaction (Note : Type 0) : Type 0 where
  phoenix : PhoenixTransaction Note → Transaction Note
  moonlight : MoonlightTransaction → Transaction Note

abbrev pub call_of : Option TransactionData → Option ContractCall
call_of (some (TransactionData.call c)) = some c
call_of _ = none

abbrev pub memo_of : Option TransactionData → Option Bytes
memo_of (some (TransactionData.memo m)) = some m
memo_of _ = none

module _ {Note : Type 0} where
  unfoldable pub moonlight_sender : Transaction Note → Option PublicKey
  moonlight_sender (Transaction.phoenix _) = none
  moonlight_sender (Transaction.moonlight tx) = some tx.sender

  unfoldable pub tx_deposit : Transaction Note → ℕ
  tx_deposit (Transaction.phoenix tx) = tx.deposit
  tx_deposit (Transaction.moonlight tx) = tx.deposit

  unfoldable pub gas_price : Transaction Note → ℕ
  gas_price (Transaction.phoenix tx) = tx.fee.gas_price
  gas_price (Transaction.moonlight tx) = tx.fee.gas_price

  unfoldable pub tx_call : Transaction Note → Option ContractCall
  tx_call (Transaction.phoenix tx) = call_of tx.tx_data
  tx_call (Transaction.moonlight tx) = call_of tx.tx_data

  unfoldable pub tx_memo : Transaction Note → Option Bytes
  tx_memo (Transaction.phoenix tx) = memo_of tx.tx_data
  tx_memo (Transaction.moonlight tx) = memo_of tx.tx_data

-- What the contract uses of the crates and host functions for notes, hashes and proofs.
pub record NoteOps (Note : Type 0) : Type 0 where
  -- `Note::value(None)`: known for a transparent note only.
  pub value : Note → Option ℕ
  pub set_pos : ℕ → Note → Note
  pub transparent_stealth : StealthAddress → ℕ → Sender → Note
  pub poseidon_hash : Note → ℕ
  -- The root of the merkle tree over the hashes of the leaves, in order of position.
  pub merkle_root : List ℕ → ℕ
  pub note_pk : StealthAddress → ℕ
  pub hash : Bytes → ℕ
  pub verify_schnorr : ℕ → ℕ → Signature → Bool
  pub tx_circuit_verifier : ℕ → Option Bytes
  -- `verify_plonk` on the verifier data, the proof and the public inputs of the transaction.
  pub verify_plonk : Bytes → PhoenixTransaction Note → Bool

pub data Event (Note : Type 0) : Type 0 where
  mint withdraw : ContractId → WithdrawReceiver → ℕ → Event Note
  convert : Option PublicKey → WithdrawReceiver → ℕ → Event Note
  deposit : Option PublicKey → ContractId → ℕ → Event Note
  mint_contract contract_to_contract : ContractId → ContractId → ℕ → Event Note
  contract_to_account : ContractId → PublicKey → ℕ → Event Note
  phoenix : List ℕ → List Note → Bytes → ℕ → Option Note → Event Note
  moonlight : PublicKey → Option PublicKey → ℕ → Bytes → ℕ → Option (PublicKey × ℕ) → Event Note
