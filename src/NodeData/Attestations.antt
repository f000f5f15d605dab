-- ===== src/NodeData/Attestations.antt =====
-- node-data/src/ledger/attestation.rs and header.rs: attestations and the headers of blocks, with
-- their encodings in node-data/src/encoding.rs.
use rusk.Prelude.{
  ℕ, ◌%◌, ◌≤◌, ◌≡◌, Option, none, some, List, [], ◌∷◌, ◌++◌, ◌==◌, ltb, if◌then◌else◌, length, All,
}
use rusk.Vm.{Bytes}
use rusk.Bytes.{to_le_bytes}
use rusk.Reader.{
  Reader, Error, pure, fail, ◌>>=◌, read_bytes, read_u8, read_u64_le, read_many, IsU8, IsU64,
}
use rusk.Reader.RoundTrip.{write_all}
use rusk.NodeData.Votes.{
  Hash, IsHash, IsVote, RatificationResult, result_vote, write_ratification_result,
  read_ratification_result,
}

pub record StepVotes : Type 0 where
  pub bitset : ℕ
  pub aggregate_signature : Bytes

pub record IsStepVotes (sv : StepVotes) : Type 0 where
  pub bitset_fits : IsU64 sv.bitset
  pub signature_size : length sv.aggregate_signature ≡ 48

unfoldable pub write_step_votes : StepVotes → Bytes
write_step_votes sv = to_le_bytes 8 sv.bitset ++ sv.aggregate_signature

unfoldable pub read_step_votes : Reader StepVotes
read_step_votes = do
  bitset ← read_u64_le
  aggregate_signature ← read_bytes 48
  pure (record { bitset = bitset; aggregate_signature = aggregate_signature })

pub record Attestation : Type 0 where
  pub result : RatificationResult
  pub validation : StepVotes
  pub ratification : StepVotes

pub record IsAttestation (att : Attestation) : Type 0 where
  pub result_valid : IsVote (result_vote att.result)
  pub validation_valid : IsStepVotes att.validation
  pub ratification_valid : IsStepVotes att.ratification

unfoldable pub write_attestation : Attestation → Bytes
write_attestation att =
    write_ratification_result att.result
    ++ (write_step_votes att.validation ++ write_step_votes att.ratification)

unfoldable pub read_attestation : Reader Attestation
read_attestation = do
  result ← read_ratification_result
  validation ← read_step_votes
  ratification ← read_step_votes
  pure (record { result = result; validation = validation; ratification = ratification })

-- The attestation of a failed iteration and the key of its generator.
abbrev pub IterationInfo : Type 0
IterationInfo = Attestation × Bytes

abbrev pub IterationsInfo : Type 0
IterationsInfo = List (Option IterationInfo)

abbrev pub message_max_failed_iterations : ℕ
message_max_failed_iterations = 8

abbrev pub IsIterationInfo : Option IterationInfo → Type 0
IsIterationInfo none = Unit
IsIterationInfo (some (att, pk)) = IsAttestation att × (length pk ≡ 96)

pub record IsIterationsInfo (info : IterationsInfo) : Type 0 where
  pub all_valid : All IsIterationInfo info
  pub not_too_many : length info ≤ message_max_failed_iterations

unfoldable pub write_iteration_info : Option IterationInfo → Bytes
write_iteration_info none = 0 ∷ []
write_iteration_info (some (att, pk)) = 1 ∷ (write_attestation att ++ pk)

-- `self.att_list.len() as u8`
unfoldable pub write_iterations_info : IterationsInfo → Bytes
unfolding write_iteration_info
write_iterations_info info = (length info % 256) ∷ write_all write_iteration_info info

read_attested : Reader (Option IterationInfo)
read_attested = do att ← read_attestation; pk ← read_bytes 96; pure (some (att, pk))

unfoldable pub read_iteration_info : Reader (Option IterationInfo)
unfolding read_attested
read_iteration_info = do
  opt ← read_u8
  if opt == 0 then pure none else if opt == 1 then read_attested else fail Error.invalid_data

unfoldable pub read_iterations_info : Reader IterationsInfo
unfolding read_iteration_info
read_iterations_info = do
  count ← read_u8
  if ltb message_max_failed_iterations count
      then fail Error.invalid_data
      else read_many count read_iteration_info

pub record Header : Type 0 where
  pub version : ℕ
  pub height : ℕ
  pub timestamp : ℕ
  pub prev_block_hash : Hash
  pub seed : Bytes
  pub state_hash : Hash
  pub event_bloom : Bytes
  pub generator_bls_pubkey : Bytes
  pub txroot : Hash
  pub faultroot : Hash
  pub gas_limit : ℕ
  pub iteration : ℕ
  pub prev_block_cert : Attestation
  pub failed_iterations : IterationsInfo
  pub hash : Hash
  pub signature : Bytes
  pub att : Attestation

pub record IsHeader (h : Header) : Type 0 where
  pub version_fits : IsU8 h.version
  pub height_fits : IsU64 h.height
  pub timestamp_fits : IsU64 h.timestamp
  pub prev_block_hash_size : IsHash h.prev_block_hash
  pub seed_size : length h.seed ≡ 48
  pub state_hash_size : IsHash h.state_hash
  pub event_bloom_size : length h.event_bloom ≡ 256
  pub generator_size : length h.generator_bls_pubkey ≡ 96
  pub txroot_size : IsHash h.txroot
  pub faultroot_size : IsHash h.faultroot
  pub gas_limit_fits : IsU64 h.gas_limit
  pub iteration_fits : IsU8 h.iteration
  pub prev_block_cert_valid : IsAttestation h.prev_block_cert
  pub failed_iterations_valid : IsIterationsInfo h.failed_iterations
  pub hash_size : IsHash h.hash
  pub signature_size : length h.signature ≡ 48
  pub att_valid : IsAttestation h.att
