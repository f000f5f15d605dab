-- ===== src/TxBytes/WellFormed.antt =====
-- What the types of the source say of a transaction: the sizes of arrays, numbers and vectors, text
-- that is UTF-8 and keys and signatures that are points; and a memo within its limit.
use rusk.Prelude.{◌≡◌, ◌≤◌, Bool, true, Option, none, some, length}
use rusk.Vm.{Bytes}
use rusk.Reader.{IsU8, IsU64}
use rusk.TxBytes.Slices.{Crates}
use rusk.TxBytes.Payloads.{
  ContractDeploy, ContractCall, TransactionData, max_memo_size, MoonlightPayload, PhoenixPayload,
  write_moonlight_payload, write_phoenix_payload,
}
use rusk.TxBytes.Transactions.{MoonlightTransaction, PhoenixTransaction, Transaction}

abbrev pub IsVec : Bytes → Type 0
IsVec bs = IsU64 (length bs)

abbrev pub IsArgs : Option Bytes → Type 0
IsArgs none = Unit
IsArgs (some args) = IsVec args

pub record IsDeploy (d : ContractDeploy) : Type 0 where
  pub hash_size : length d.bytecode.hash ≡ 32
  pub bytes_fit : IsVec d.bytecode.bytes
  pub owner_fits : IsVec d.owner
  pub init_args_fit : IsArgs d.init_args
  pub nonce_fits : IsU64 d.nonce

pub record IsCall (is_utf8 : Bytes → Bool) (call : ContractCall) : Type 0 where
  pub contract_size : length call.contract ≡ 32
  pub fn_name_fits : IsVec call.fn_name
  pub fn_name_text : is_utf8 call.fn_name ≡ true
  pub fn_args_fit : IsVec call.fn_args

abbrev pub IsData : (Bytes → Bool) → Option TransactionData → Type 0
IsData is_utf8 none = Unit
IsData is_utf8 (some (TransactionData.call call)) = IsCall is_utf8 call
IsData is_utf8 (some (TransactionData.deploy d)) = IsDeploy d
IsData is_utf8 (some (TransactionData.memo m)) = length m ≤ max_memo_size

pub record IsKey (is_key : Bytes → Bool) (key : Bytes) : Type 0 where
  pub size : length key ≡ 96
  pub point : is_key key ≡ true

module _ {Skeleton : Type 0} (c : Crates Skeleton) where
  pub record IsMoonlightPayload (p : MoonlightPayload) : Type 0 where
    pub chain_id_fits : IsU8 p.chain_id
    pub sender_valid : IsKey c.is_key p.sender
    pub receiver_valid : IsKey c.is_key p.receiver
    pub value_fits : IsU64 p.value
    pub deposit_fits : IsU64 p.deposit
    pub gas_limit_fits : IsU64 p.fee.gas_limit
    pub gas_price_fits : IsU64 p.fee.gas_price
    pub refund_address_valid : IsKey c.is_key p.fee.refund_address
    pub nonce_fits : IsU64 p.nonce
    pub data_valid : IsData c.is_utf8 p.tx_data

  pub record IsPhoenixPayload (p : PhoenixPayload Skeleton) : Type 0 where
    pub chain_id_fits : IsU8 p.chain_id
    pub skeleton_fits : IsVec (c.skeleton_to_var_bytes p.tx_skeleton)
    pub gas_limit_fits : IsU64 p.fee.gas_limit
    pub gas_price_fits : IsU64 p.fee.gas_price
    pub stealth_address_size : length p.fee.stealth_address ≡ c.stealth_address_size
    pub stealth_address_valid : c.is_stealth_address p.fee.stealth_address ≡ true
    pub sender_size : length p.fee.sender ≡ c.sender_size
    pub sender_valid : c.is_sender p.fee.sender ≡ true
    pub data_valid : IsData c.is_utf8 p.tx_data

  pub record IsMoonlight (tx : MoonlightTransaction) : Type 0 where
    pub payload_valid : IsMoonlightPayload tx.payload
    pub payload_fits : IsVec (write_moonlight_payload tx.payload)
    pub signature_size : length tx.signature ≡ 48
    pub signature_valid : c.is_signature tx.signature ≡ true

  pub record IsPhoenix (tx : PhoenixTransaction Skeleton) : Type 0 where
    pub payload_valid : IsPhoenixPayload tx.payload
    pub payload_fits : IsVec (write_phoenix_payload c tx.payload)
    pub proof_fits : IsVec tx.proof

  abbrev pub IsTransaction : Transaction Skeleton → Type 0
  IsTransaction (Transaction.phoenix tx) = IsPhoenix tx
  IsTransaction (Transaction.moonlight tx) = IsMoonlight tx
