-- ===== src/NodeData/Steps.antt =====
-- node-data/src/message.rs: the signed messages of the steps and their results.
use rusk.Prelude.{ℕ, Bool, true, ◌≡◌, ◌++◌, if◌then◌else◌, length}
use rusk.Vm.{Bytes}
use rusk.Bytes.{to_le_bytes}
use rusk.Reader.{Reader, Error, pure, fail, ◌>>=◌, read_bytes, read_u64_le, IsU64}
use rusk.NodeData.Votes.{
  ConsensusHeader, IsConsensusHeader, write_consensus_header, read_consensus_header, Vote, IsVote,
  write_vote, read_vote, QuorumType, write_quorum_type, read_quorum_type, result_vote,
}
use rusk.NodeData.Attestations.{
  StepVotes, IsStepVotes, write_step_votes, read_step_votes, Attestation, IsAttestation,
  write_attestation, read_attestation,
}

-- A `bls::PublicKey` keeps the bytes that it was made from, which stand for it here.
pub record SignInfo : Type 0 where
  pub signer : Bytes
  pub signature : Bytes

unfoldable pub write_sign_info : SignInfo → Bytes
write_sign_info info = info.signer ++ info.signature

pub record Validation : Type 0 where
  pub header : ConsensusHeader
  pub vote : Vote
  pub sign_info : SignInfo

unfoldable pub write_validation : Validation → Bytes
write_validation v =
    write_consensus_header v.header ++ (write_vote v.vote ++ write_sign_info v.sign_info)

pub record ValidationResult : Type 0 where
  pub quorum : QuorumType
  pub vote : Vote
  pub sv : StepVotes

pub record IsValidationResult (r : ValidationResult) : Type 0 where
  pub vote_valid : IsVote r.vote
  pub sv_valid : IsStepVotes r.sv

unfoldable pub write_validation_result : ValidationResult → Bytes
write_validation_result r =
    write_step_votes r.sv ++ (write_vote r.vote ++ write_quorum_type r.quorum)

unfoldable pub read_validation_result : Reader ValidationResult
read_validation_result = do
  sv ← read_step_votes
  vote ← read_vote
  quorum ← read_quorum_type
  pure (record { quorum = quorum; vote = vote; sv = sv })

pub record Ratification : Type 0 where
  pub header : ConsensusHeader
  pub vote : Vote
  pub timestamp : ℕ
  pub validation_result : ValidationResult
  pub sign_info : SignInfo

unfoldable pub write_ratification : Ratification → Bytes
write_ratification r =
    write_consensus_header r.header
    ++ (write_vote r.vote
        ++ (to_le_bytes 8 r.timestamp
            ++ (write_validation_result r.validation_result ++ write_sign_info r.sign_info)))

pub record Quorum : Type 0 where
  pub header : ConsensusHeader
  pub att : Attestation

pub record IsQuorum (q : Quorum) : Type 0 where
  pub header_valid : IsConsensusHeader q.header
  pub att_valid : IsAttestation q.att

unfoldable pub write_quorum : Quorum → Bytes
write_quorum q = write_consensus_header q.header ++ write_attestation q.att

unfoldable pub read_quorum : Reader Quorum
read_quorum = do
  header ← read_consensus_header
  att ← read_attestation
  pure (record { header = header; att = att })

-- `Quorum::vote`
unfoldable pub quorum_vote : Quorum → Vote
quorum_vote q = result_vote q.att.result

pub record ValidationQuorum : Type 0 where
  pub header : ConsensusHeader
  pub result : ValidationResult

pub record IsValidationQuorum (q : ValidationQuorum) : Type 0 where
  pub header_valid : IsConsensusHeader q.header
  pub result_valid : IsValidationResult q.result

unfoldable pub write_validation_quorum : ValidationQuorum → Bytes
write_validation_quorum q = write_consensus_header q.header ++ write_validation_result q.result

unfoldable pub read_validation_quorum : Reader ValidationQuorum
read_validation_quorum = do
  header ← read_consensus_header
  result ← read_validation_result
  pure (record { header = header; result = result })

-- `is_key` is whether `BlsPublicKey::from_slice` accepts the bytes.
module _ (is_key : Bytes → Bool) where
  pub record IsSignInfo (info : SignInfo) : Type 0 where
    pub signer_size : length info.signer ≡ 96
    pub signer_valid : is_key info.signer ≡ true
    pub signature_size : length info.signature ≡ 48

  unfoldable pub as_signer : Bytes → Reader Bytes
  as_signer bytes = if is_key bytes then pure bytes else fail Error.invalid_data

  unfoldable pub read_sign_info : Reader SignInfo
  unfolding as_signer
  read_sign_info = do
    bytes ← read_bytes 96
    signer ← as_signer bytes
    signature ← read_bytes 48
    pure (record { signer = signer; signature = signature })

  pub record IsValidation (v : Validation) : Type 0 where
    pub header_valid : IsConsensusHeader v.header
    pub vote_valid : IsVote v.vote
    pub sign_info_valid : IsSignInfo v.sign_info

  unfoldable pub read_validation : Reader Validation
  read_validation = do
    header ← read_consensus_header
    vote ← read_vote
    sign_info ← read_sign_info
    pure (record { header = header; vote = vote; sign_info = sign_info })

  pub record IsRatification (r : Ratification) : Type 0 where
    pub header_valid : IsConsensusHeader r.header
    pub vote_valid : IsVote r.vote
    pub timestamp_fits : IsU64 r.timestamp
    pub result_valid : IsValidationResult r.validation_result
    pub sign_info_valid : IsSignInfo r.sign_info

  unfoldable pub read_ratification : Reader Ratification
  read_ratification = do
    header ← read_consensus_header
    vote ← read_vote
    timestamp ← read_u64_le
    validation_result ← read_validation_result
    sign_info ← read_sign_info
    pure (record {
      header = header;
      vote = vote;
      timestamp = timestamp;
      validation_result = validation_result;
      sign_info = sign_info;
    })
