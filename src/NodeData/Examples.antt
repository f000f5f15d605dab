-- ===== src/NodeData/Examples.antt =====
-- The theorems on node-data at concrete inputs.
use rusk.Prelude.{ℕ, ◌≡◌, ◌≤◌, ◌↔◌, ◌++◌, refl, true, none, some, [], ◌∷◌, replicate, arith, length}
use rusk.Vm.{Bytes}
use rusk.Reader.{Error, ok, err}
use rusk.Bytes.{to_le_bytes, bytes_eq}
use rusk.TxBytes.Slices.{write_vec}
use rusk.TxBytes.Payloads.{write_moonlight_payload, write_other_key, write_data, write_call}
use rusk.TxBytes.Transactions.{moonlight, to_var_bytes, moonlight_to_var_bytes}
use rusk.NodeData.Inventory.{write_get_blocks}
use rusk.TxBytes.Examples.{crates, crates-CratesLaws, moonlight_tx, moonlight_tx-IsMoonlight}
use rusk.NodeData.Votes.{ConsensusHeader, Vote}
use rusk.NodeData.Faults.{Crypto, FaultData, Fault, IsFault}
use rusk.NodeData.Ledger.{Transaction, IsLedgerTransaction, write_spent, read_spent, with_size}
use rusk.NodeData.Attestations.{IterationsInfo, write_iterations_info, read_iterations_info}
use rusk.NodeData.Messages.{
  Version, Payload, from_wire, with_version, write_message, read_message, as_read, write_payload,
  write_version, topic_of,
}
use rusk.NodeData.RoundTrip.Ledger.{read_spent-write_spent-none, read_spent-write_spent-some}
use rusk.NodeData.Truncation.{truncated_message_refused}
use rusk.NodeData.Guarantees.{read_message-write_message, read_iterations_info-write_iff}

abbrev place : ConsensusHeader
place = record { prev_block_hash = replicate 32 7; round = 40; iteration = 2 }

abbrev vote_of : ℕ → FaultData Vote
vote_of b = record {
  header = place;
  sig = record { signer = replicate 96 5; signature = replicate 48 6 };
  content = Vote.valid (replicate 32 b);
}

abbrev two_votes : Fault
two_votes = Fault.double_validation_vote (vote_of 1) (vote_of 2)

two_votes-IsFault : IsFault (λ _. true) two_votes
two_votes-IsFault = ground arith

-- The hash keeps the bytes, and every signature is good.
abbrev crypto : Crypto
crypto = record { is_key = λ _. true; sha3 = λ bs. bs; verify_multisig = λ _ _ _. true }

abbrev ledger_tx : Transaction ℕ
ledger_tx = record { version = 1; tx_type = 1; inner = moonlight moonlight_tx; size = none }

ledger_tx-IsLedgerTransaction : IsLedgerTransaction crates ledger_tx
unfolding to_var_bytes moonlight_to_var_bytes write_moonlight_payload write_other_key write_data
    write_call write_vec to_le_bytes bytes_eq
ledger_tx-IsLedgerTransaction = record {
  version_fits = omega arith;
  type_fits = omega arith;
  inner_valid = moonlight_tx-IsMoonlight;
  inner_fits = omega arith;
}

read_spent-write_spent-none_example :
    read_spent crates (
      write_spent crates
        (record { inner = ledger_tx; block_height = 9; gas_spent = 3; error_text = none })
      ++ (1 ∷ []))
    ≡ ok (
      record {
        inner = with_size crates ledger_tx;
        block_height = 9;
        gas_spent = 3;
        error_text = none;
      },
      0 ∷ (0 ∷ (0 ∷ (0 ∷ (1 ∷ [])))),
    )
read_spent-write_spent-none_example =
    read_spent-write_spent-none crates crates-CratesLaws ledger_tx 9 3 (1 ∷ [])
      ledger_tx-IsLedgerTransaction (omega arith) (omega arith)

read_spent-write_spent-some_example :
    read_spent crates (
      write_spent crates
        (record { inner = ledger_tx; block_height = 9; gas_spent = 3; error_text = some (79 ∷ []) })
      ++ (1 ∷ []))
    ≡ ok (
      record {
        inner = with_size crates ledger_tx;
        block_height = 9;
        gas_spent = 3;
        error_text = some (79 ∷ []);
      },
      1 ∷ [],
    )
read_spent-write_spent-some_example =
    read_spent-write_spent-some crates crates-CratesLaws ledger_tx 9 3 (79 ∷ []) (1 ∷ [])
      ledger_tx-IsLedgerTransaction (omega arith) (omega arith) (omega arith) (omega arith) refl

-- Nine iterations that failed without an attestation.
abbrev nine : IterationsInfo
nine = replicate 9 none

read_iterations_info-write_iff_example :
    (read_iterations_info (write_iterations_info nine ++ (4 ∷ [])) ≡ ok (nine, 4 ∷ []))
    ↔ (length nine ≤ 8)
read_iterations_info-write_iff_example =
    read_iterations_info-write_iff nine (4 ∷ [])
      (tt, (tt, (tt, (tt, (tt, (tt, (tt, (tt, (tt, tt)))))))))

abbrev validation_message : Payload ℕ
validation_message = Payload.validation (record {
  header = place;
  vote = Vote.no_quorum;
  sign_info = record { signer = replicate 96 5; signature = replicate 48 6 };
})

abbrev some_version : Version
some_version = record { major = 1; minor = 0; patch = 3 }

abbrev ask_blocks : Payload ℕ
ask_blocks = Payload.get_blocks (record { locator = replicate 32 8; nonce = replicate 8 3 })

abbrev ask_bytes : Bytes
ask_bytes = 1 ∷ (0 ∷ (0 ∷ (3 ∷ (0 ∷ (9 ∷ (replicate 32 8 ++ replicate 8 3))))))

ask_blocks_written :
    write_message crates (with_version some_version (from_wire ask_blocks)) ≡ ok ask_bytes
unfolding write_message with_version from_wire write_payload write_version write_get_blocks
    to_le_bytes topic_of
ask_blocks_written = refl

read_message-write_message_example :
    read_message crates (λ bs. bs) (ask_bytes ++ (9 ∷ []))
    ≡ ok (with_version some_version (from_wire (as_read crates ask_blocks)), 9 ∷ [])
read_message-write_message_example =
    read_message-write_message crates crates-CratesLaws (λ bs. bs) some_version ask_blocks ask_bytes
      (9 ∷ []) (omega arith) (omega arith) ask_blocks_written

truncated_message_refused_example :
    (e : Error) × (read_message crates (λ bs. bs) (1 ∷ (0 ∷ (0 ∷ (3 ∷ (0 ∷ (9 ∷ replicate 32 8))))))
      ≡ err e)
truncated_message_refused_example =
    truncated_message_refused crates (λ bs. bs) crates-CratesLaws some_version ask_blocks
      (1 ∷ (0 ∷ (0 ∷ (3 ∷ (0 ∷ (9 ∷ replicate 32 8)))))) (replicate 7 3) 3 (omega arith)
      (omega arith) ask_blocks_written
