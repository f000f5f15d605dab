-- ===== src/TxBytes/HashInput.antt =====
-- The bytes of a transaction that are hashed and signed, and the transaction without its bytecode, as it is
-- handed to the transfer contract (core/src/transfer.rs, core/src/transfer/{data,moonlight,phoenix}.rs).
use rusk.Prelude.{ℕ, ◌*◌, ◌%◌, ◌^◌, Option, none, some, [], ◌∷◌, ◌++◌, leb, if◌then◌else◌, length}
use rusk.Vm.{Bytes}
use rusk.Bytes.{to_le_bytes, bytes_eq}
use rusk.TxBytes.Payloads.{
  ContractBytecode, ContractDeploy, TransactionData, call, deploy, memo, MoonlightPayload,
}
use rusk.TxBytes.Transactions.{
  MoonlightTransaction, PhoenixTransaction, Transaction, phoenix, moonlight,
}

-- `deploy()`, on the data of a payload.
unfoldable pub deploy_of : Option TransactionData → Option ContractDeploy
deploy_of (some (deploy d)) = some d
deploy_of (some (call c)) = none
deploy_of (some (memo m)) = none
deploy_of none = none

unfoldable pub bytecode_hash_input : ContractBytecode → Bytes
bytecode_hash_input b = b.hash

unfoldable pub init_args_input : Option Bytes → Bytes
init_args_input (some args) = args
init_args_input none = []

-- What both kinds of payload hash of their data.
unfoldable pub data_input : Option TransactionData → Bytes
unfolding bytecode_hash_input init_args_input
data_input (some (deploy d)) =
    bytecode_hash_input d.bytecode ++ (d.owner ++ init_args_input d.init_args)
data_input (some (call c)) = c.contract ++ (c.fn_name ++ c.fn_args)
data_input (some (memo m)) = m
data_input none = []

-- `Payload::signature_message` of moonlight.rs
unfoldable pub payload_message : MoonlightPayload → Bytes
unfolding data_input
payload_message p =
    p.chain_id
    ∷ (p.sender
        ++ ((if bytes_eq p.receiver p.sender then [] else p.receiver)
            ++ (to_le_bytes 8 p.value
                ++ (to_le_bytes 8 p.deposit
                    ++ (to_le_bytes 8 p.fee.gas_limit
                        ++ (to_le_bytes 8 p.fee.gas_price
                            ++ ((if bytes_eq p.fee.refund_address p.sender
                                  then []
                                  else p.fee.refund_address)
                                ++ (to_le_bytes 8 p.nonce ++ data_input p.tx_data))))))))

unfoldable pub moonlight_hash_input : MoonlightTransaction → Bytes
unfolding payload_message
moonlight_hash_input tx = payload_message tx.payload ++ tx.signature

-- The deployment with an empty bytecode in place of its own.
unfoldable pub stripped_deploy : ContractDeploy → ContractDeploy
stripped_deploy d = record {
  bytecode = record { hash = d.bytecode.hash; bytes = [] };
  owner = d.owner;
  init_args = d.init_args;
  nonce = d.nonce;
}

unfoldable pub with_data : MoonlightTransaction → TransactionData → MoonlightTransaction
with_data tx d = record tx { payload = record tx.payload { tx_data = some d } }

unfoldable pub strip_moonlight : MoonlightTransaction → Option MoonlightTransaction
unfolding deploy_of stripped_deploy with_data
strip_moonlight tx = elim (deploy_of tx.payload.tx_data) [
  | none ↦ none
  | some d ↦ some (with_data tx (deploy (stripped_deploy d)))
]

-- The product is on 64 bits.
unfoldable pub charge_of : ContractDeploy → ℕ → ℕ → ℕ
charge_of d gas_per_deploy_byte min_deploy_points =
    let bytes = length d.bytecode.bytes * gas_per_deploy_byte % 2 ^ 64 in
    if leb bytes min_deploy_points then min_deploy_points else bytes

module _ {Skeleton : Type 0} where
  unfoldable pub gas_limit_of : Transaction Skeleton → ℕ
  gas_limit_of (phoenix tx) = tx.payload.fee.gas_limit
  gas_limit_of (moonlight tx) = tx.payload.fee.gas_limit

  unfoldable pub gas_price_of : Transaction Skeleton → ℕ
  gas_price_of (phoenix tx) = tx.payload.fee.gas_price
  gas_price_of (moonlight tx) = tx.payload.fee.gas_price

  unfoldable pub tx_deploy : Transaction Skeleton → Option ContractDeploy
  unfolding deploy_of
  tx_deploy (phoenix tx) = deploy_of tx.payload.tx_data
  tx_deploy (moonlight tx) = deploy_of tx.payload.tx_data

  unfoldable pub deploy_charge : Transaction Skeleton → ℕ → ℕ → ℕ
  unfolding tx_deploy charge_of
  deploy_charge tx gas_per_deploy_byte min_deploy_points = elim (tx_deploy tx) [
    | none ↦ 0
    | some d ↦ charge_of d gas_per_deploy_byte min_deploy_points
  ]

  unfoldable pub strip_phoenix : PhoenixTransaction Skeleton → Option (PhoenixTransaction Skeleton)
  unfolding deploy_of stripped_deploy
  strip_phoenix tx = elim (deploy_of tx.payload.tx_data) [
    | none ↦ none
    | some d ↦
        some (record tx {
          payload = record tx.payload { tx_data = some (deploy (stripped_deploy d)) };
        })
  ]

  abbrev as_phoenix : Option (PhoenixTransaction Skeleton) → Option (Transaction Skeleton)
  as_phoenix none = none
  as_phoenix (some tx) = some (phoenix tx)

  abbrev as_moonlight : Option MoonlightTransaction → Option (Transaction Skeleton)
  as_moonlight none = none
  as_moonlight (some tx) = some (moonlight tx)

  unfoldable pub strip_off_bytecode : Transaction Skeleton → Option (Transaction Skeleton)
  unfolding strip_phoenix strip_moonlight
  strip_off_bytecode (phoenix tx) = as_phoenix (strip_phoenix tx)
  strip_off_bytecode (moonlight tx) = as_moonlight (strip_moonlight tx)

  -- `skeleton_input` is the hash input of a transaction skeleton.
  module _ (skeleton_input : Skeleton → Bytes) where
    unfoldable pub phoenix_hash_input : PhoenixTransaction Skeleton → Bytes
    unfolding data_input
    phoenix_hash_input tx =
        (tx.payload.chain_id
          ∷ (skeleton_input tx.payload.tx_skeleton ++ data_input tx.payload.tx_data))
        ++ tx.proof

    unfoldable pub to_hash_input_bytes : Transaction Skeleton → Bytes
    unfolding phoenix_hash_input moonlight_hash_input
    to_hash_input_bytes (phoenix tx) = phoenix_hash_input tx
    to_hash_input_bytes (moonlight tx) = moonlight_hash_input tx
