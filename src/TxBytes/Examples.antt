-- ===== src/TxBytes/Examples.antt =====
-- The theorems on the bytes of transactions at concrete inputs. A skeleton is one byte here.
use rusk.Prelude.{ℕ, ◌≡◌, ◌≢◌, ◌++◌, refl, true, some, none, [], ◌∷◌, replicate, arith}
use rusk.Vm.{Bytes}
use rusk.Bytes.{to_le_bytes, bytes_eq}
use rusk.Reader.{Error, Result, ok, err}
use rusk.TxBytes.Slices.{Crates, CratesLaws, write_vec}
use rusk.TxBytes.Payloads.{
  TransactionData, ContractDeploy, PhoenixPayload, write_moonlight_payload, write_phoenix_payload,
  write_other_key, write_data, write_call, write_phoenix_fee,
}
use rusk.TxBytes.Transactions.{
  MoonlightTransaction, moonlight, to_var_bytes, from_slice, moonlight_from_slice,
}
use rusk.TxBytes.WellFormed.{IsPhoenixPayload, IsMoonlight, IsVec}
use rusk.TxBytes.HashInput.{strip_off_bytecode, stripped_deploy}
use rusk.TxBytes.Unsigned.{Alike, strip_off_bytecode-Alike, message_of, payload_message_ambiguous}
use rusk.TxBytes.Parsing.{from_slice-to_var_bytes}
use rusk.TxBytes.Malformed.{moonlight_from_slice_no_panic, from_slice_short_proof}

abbrev one_byte : Bytes → Result ℕ
one_byte [] = err Error.bad_length
one_byte (b ∷ bs) = ok b

abbrev pub crates : Crates ℕ
crates = record {
  is_key = λ _. true;
  is_signature = λ _. true;
  is_utf8 = λ _. true;
  stealth_address_size = 2;
  is_stealth_address = λ _. true;
  sender_size = 3;
  is_sender = λ _. true;
  skeleton_to_var_bytes = λ b. b ∷ [];
  skeleton_from_slice = one_byte;
}

pub crates-CratesLaws : CratesLaws crates
crates-CratesLaws = record { from_slice-to_var_bytes = λ s rest. refl }

abbrev pub moonlight_tx : MoonlightTransaction
moonlight_tx = record {
  payload = record {
    chain_id = 1;
    sender = replicate 96 5;
    receiver = replicate 96 6;
    value = 1000;
    deposit = 0;
    fee = record { gas_limit = 500; gas_price = 2; refund_address = replicate 96 5 };
    nonce = 7;
    tx_data = some (
        TransactionData.call
          (record { contract = replicate 32 9; fn_name = 112 ∷ []; fn_args = 1 ∷ (2 ∷ []) }));
  };
  signature = replicate 48 4;
}

abbrev phoenix_payload : PhoenixPayload ℕ
phoenix_payload = record {
  chain_id = 1;
  tx_skeleton = 77;
  fee = record {
    gas_limit = 500;
    gas_price = 2;
    stealth_address = 1 ∷ (2 ∷ []);
    sender = 3 ∷ (4 ∷ (5 ∷ []));
  };
  tx_data = some (TransactionData.memo (8 ∷ (9 ∷ [])));
}

pub moonlight_tx-IsMoonlight : IsMoonlight crates moonlight_tx
unfolding write_moonlight_payload write_other_key write_data write_call write_vec to_le_bytes
    bytes_eq
moonlight_tx-IsMoonlight = ground arith

phoenix_payload-IsPhoenixPayload : IsPhoenixPayload crates phoenix_payload
phoenix_payload-IsPhoenixPayload = ground arith

phoenix_payload_fits : IsVec (write_phoenix_payload crates phoenix_payload)
unfolding write_phoenix_payload write_data write_vec to_le_bytes write_phoenix_fee
phoenix_payload_fits = omega arith

from_slice-to_var_bytes_example :
    from_slice crates (to_var_bytes crates (moonlight moonlight_tx)) ≡ ok (moonlight moonlight_tx)
from_slice-to_var_bytes_example =
    from_slice-to_var_bytes crates crates-CratesLaws (moonlight moonlight_tx)
      moonlight_tx-IsMoonlight

moonlight_from_slice_no_panic_example :
    moonlight_from_slice crates (9 ∷ (9 ∷ (9 ∷ []))) ≢ err Error.panicked
moonlight_from_slice_no_panic_example = moonlight_from_slice_no_panic crates (9 ∷ (9 ∷ (9 ∷ [])))

from_slice_short_proof_example :
    from_slice crates (
      0
      ∷ (write_vec (write_phoenix_payload crates phoenix_payload)
          ++ (to_le_bytes 8 200 ++ (1 ∷ []))))
    ≡ err Error.panicked
from_slice_short_proof_example =
    from_slice_short_proof crates crates-CratesLaws phoenix_payload 200 (1 ∷ [])
      phoenix_payload-IsPhoenixPayload phoenix_payload_fits (omega arith) (omega arith)

abbrev deployment : ContractDeploy
deployment = record {
  bytecode = record { hash = replicate 32 1; bytes = 1 ∷ (2 ∷ (3 ∷ [])) };
  owner = replicate 32 2;
  init_args = none;
  nonce = 1;
}

abbrev deploying : ContractDeploy → MoonlightTransaction
deploying d = record moonlight_tx {
  payload = record moonlight_tx.payload { tx_data = some (TransactionData.deploy d) };
}

strip_off_bytecode-Alike_example :
    Alike {Skeleton = ℕ}
      (λ _. [])
      (moonlight (deploying (stripped_deploy deployment)))
      (moonlight (deploying deployment))
unfolding strip_off_bytecode
strip_off_bytecode-Alike_example =
    strip_off_bytecode-Alike {Skeleton = ℕ} (λ _. []) (moonlight (deploying deployment))
      (moonlight (deploying (stripped_deploy deployment))) refl

-- The name and the arguments are one text, of which the first ends after the letter a, or ab.
payload_message_ambiguous_example :
    (message_of moonlight_tx.payload (
        TransactionData.call
          (record { contract = replicate 32 9; fn_name = 97 ∷ (98 ∷ []); fn_args = 1 ∷ [] }))
      ≡ message_of moonlight_tx.payload (
          TransactionData.call
            (record { contract = replicate 32 9; fn_name = 97 ∷ []; fn_args = 98 ∷ (1 ∷ []) })))
    × (message_of moonlight_tx.payload (
          TransactionData.call
            (record { contract = replicate 32 9; fn_name = 97 ∷ []; fn_args = 1 ∷ [] }))
        ≡ message_of moonlight_tx.payload
            (TransactionData.memo (replicate 32 9 ++ (97 ∷ (1 ∷ [])))))
    × (message_of moonlight_tx.payload (TransactionData.deploy deployment)
        ≡ message_of moonlight_tx.payload
            (TransactionData.deploy (record deployment { nonce = 2 })))
payload_message_ambiguous_example =
    payload_message_ambiguous moonlight_tx.payload (replicate 32 9) (97 ∷ []) (98 ∷ []) (1 ∷ [])
      deployment 2
