-- ===== src/TxBytes/Unsigned.antt =====
-- What the hash and the signature of a transaction do not depend on.
use rusk.Prelude.{ℕ, ◌≡◌, refl, sym, Option, none, some, ◌++◌, Option-cases, inl, inr}
use mathlib.Core.List.{append_assoc}
use rusk.Vm.{Bytes}
use rusk.TxBytes.Payloads.{ContractDeploy, TransactionData, call, deploy, memo, MoonlightPayload}
use rusk.TxBytes.Transactions.{Transaction, phoenix, moonlight}
use rusk.TxBytes.HashInput.{
  deploy_of, data_input, payload_message, strip_moonlight, strip_phoenix, strip_off_bytecode,
  gas_limit_of, gas_price_of, to_hash_input_bytes, stripped_deploy,
}

data_input-deploy :
    (data' : Option TransactionData) (d : ContractDeploy)
    → deploy_of data' ≡ some d
    → data_input data' ≡ data_input (some (deploy (stripped_deploy d)))
unfolding deploy_of data_input stripped_deploy
data_input-deploy (some (deploy e)) d h = let same : e ≡ d = cc in rw same refl
data_input-deploy (some (call c)) d h = cc
data_input-deploy (some (memo m)) d h = cc
data_input-deploy none d h = cc

module _ {Skeleton : Type 0} (input : Skeleton → Bytes) where
  -- What a transaction and its stripped form agree on.
  abbrev pub Alike : Transaction Skeleton → Transaction Skeleton → Type 0
  Alike tx' tx =
      (to_hash_input_bytes input tx' ≡ to_hash_input_bytes input tx)
      × (gas_limit_of tx' ≡ gas_limit_of tx)
      × (gas_price_of tx' ≡ gas_price_of tx)

  -- A transaction that is stripped of its bytecode has the hash, the gas limit and the gas price that it
  -- had before.
  pub strip_off_bytecode-Alike :
      (tx tx' : Transaction Skeleton) → strip_off_bytecode tx ≡ some tx' → Alike tx' tx
  unfolding strip_off_bytecode to_hash_input_bytes gas_limit_of gas_price_of
  strip_off_bytecode-Alike (phoenix tx) tx' h = elim (Option-cases (deploy_of tx.payload.tx_data)) [
    | inl none_e ↦ let e = rw (none_e, strip_off_bytecode, strip_phoenix) at h in cc
    | inr (d, e) ↦
        let h' = rw (e, strip_off_bytecode, strip_phoenix) at h in
        let same : phoenix (record tx {
          payload = record tx.payload { tx_data = some (deploy (stripped_deploy d)) };
        })
            ≡ tx' =
          cc in
        let data_e : data_input tx.payload.tx_data
            ≡ data_input (some (deploy (stripped_deploy d))) =
          data_input-deploy tx.payload.tx_data d e in
        rw (sym same, data_e) (refl, refl, refl)
  ]
  strip_off_bytecode-Alike (moonlight tx) tx' h =
      elim (Option-cases (deploy_of tx.payload.tx_data)) [
        | inl none_e ↦ let e = rw (none_e, strip_off_bytecode, strip_moonlight) at h in cc
        | inr (d, e) ↦
            let h' = rw (e, strip_off_bytecode, strip_moonlight) at h in
            let same : moonlight (record tx {
              payload = record tx.payload { tx_data = some (deploy (stripped_deploy d)) };
            })
                ≡ tx' =
              cc in
            let data_e : data_input tx.payload.tx_data
                ≡ data_input (some (deploy (stripped_deploy d))) =
              data_input-deploy tx.payload.tx_data d e in
            rw (sym same, data_e) (refl, refl, refl)
      ]

module _ (p : MoonlightPayload) where
  abbrev pub message_of : TransactionData → Bytes
  message_of d = payload_message (record p { tx_data = some d })

  -- The message that is signed for a payload does not say where the name of the called function ends and
  -- its arguments begin, nor whether the payload is a call or a memo, nor with which nonce a contract
  -- is deployed.
  pub payload_message_ambiguous :
      (contract fn_name more fn_args : Bytes) (d : ContractDeploy) (nonce : ℕ)
      → (message_of
            (call (record { contract = contract; fn_name = fn_name ++ more; fn_args = fn_args }))
          ≡ message_of
              (call (record { contract = contract; fn_name = fn_name; fn_args = more ++ fn_args })))
        × (message_of (call (record { contract = contract; fn_name = fn_name; fn_args = fn_args }))
            ≡ message_of (memo (contract ++ (fn_name ++ fn_args))))
        × (message_of (deploy d) ≡ message_of (deploy (record d { nonce = nonce })))
  unfolding payload_message
  payload_message_ambiguous contract fn_name more fn_args d nonce =
      (rw (append_assoc fn_name more fn_args) refl, refl, refl)
