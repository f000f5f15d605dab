-- ===== src/NodeData/RoundTrip/Votes.antt =====
-- Votes, results and consensus headers are read back from what was written.
use rusk.Prelude.{◌≡◌, Option, none, some, length, ◌%◌, arith, ltb, false}
use rusk.Reader.RoundTrip.{
  ReadsBack, ReadsBack-pure, ReadsBack-bind, ReadsBack-last, ReadsBack-tag, ReadsBack-bytes,
  ReadsBack-u8, ReadsBack-u64, ReadsBack-many,
}
use rusk.NodeData.Votes.{
  ConsensusHeader, IsConsensusHeader, write_consensus_header, read_consensus_header, Vote, IsVote,
  write_vote, read_vote, RatificationResult, result_vote, write_ratification_result,
  read_ratification_result, QuorumType, write_quorum_type, read_quorum_type,
}
use rusk.NodeData.Attestations.{
  StepVotes, IsStepVotes, write_step_votes, read_step_votes, Attestation, IsAttestation,
  write_attestation, read_attestation, IterationInfo, IsIterationInfo, write_iteration_info,
  read_iteration_info, IsIterationsInfo, IterationsInfo, write_iterations_info,
  read_iterations_info,
}

pub ReadsBack-consensus_header :
    (h : ConsensusHeader)
    → IsConsensusHeader h
    → ReadsBack read_consensus_header (write_consensus_header h) h
unfolding read_consensus_header write_consensus_header
ReadsBack-consensus_header h v =
    ReadsBack-bind _ (ReadsBack-bytes 32 h.prev_block_hash v.prev_block_hash_size) (
      ReadsBack-bind _ (ReadsBack-u64 h.round v.round_fits)
        (ReadsBack-last _ (ReadsBack-u8 h.iteration)))

pub ReadsBack-vote : (v : Vote) → IsVote v → ReadsBack read_vote (write_vote v) v
unfolding read_vote write_vote
ReadsBack-vote Vote.no_candidate h = ReadsBack-tag _ 0 (ReadsBack-pure _)
ReadsBack-vote (Vote.valid x) h = ReadsBack-tag _ 1 (ReadsBack-last _ (ReadsBack-bytes 32 x h))
ReadsBack-vote (Vote.invalid x) h = ReadsBack-tag _ 2 (ReadsBack-last _ (ReadsBack-bytes 32 x h))
ReadsBack-vote Vote.no_quorum h = ReadsBack-tag _ 3 (ReadsBack-pure _)

pub ReadsBack-result :
    (r : RatificationResult)
    → IsVote (result_vote r)
    → ReadsBack read_ratification_result (write_ratification_result r) r
unfolding read_ratification_result write_ratification_result
ReadsBack-result (RatificationResult.failure v) h =
    ReadsBack-tag _ 0 (ReadsBack-last _ (ReadsBack-vote v h))
ReadsBack-result (RatificationResult.success v) h =
    ReadsBack-tag _ 1 (ReadsBack-last _ (ReadsBack-vote v h))

pub ReadsBack-quorum_type : (q : QuorumType) → ReadsBack read_quorum_type (write_quorum_type q) q
unfolding read_quorum_type write_quorum_type
ReadsBack-quorum_type QuorumType.valid_quorum = ReadsBack-last _ (ReadsBack-u8 0)
ReadsBack-quorum_type QuorumType.invalid_quorum = ReadsBack-last _ (ReadsBack-u8 1)
ReadsBack-quorum_type QuorumType.no_candidate_quorum = ReadsBack-last _ (ReadsBack-u8 2)
ReadsBack-quorum_type QuorumType.without_quorum = ReadsBack-last _ (ReadsBack-u8 255)

pub ReadsBack-step_votes :
    (sv : StepVotes) → IsStepVotes sv → ReadsBack read_step_votes (write_step_votes sv) sv
unfolding read_step_votes write_step_votes
ReadsBack-step_votes sv v =
    ReadsBack-bind _ (ReadsBack-u64 sv.bitset v.bitset_fits)
      (ReadsBack-last _ (ReadsBack-bytes 48 sv.aggregate_signature v.signature_size))

pub ReadsBack-attestation :
    (att : Attestation) → IsAttestation att → ReadsBack read_attestation (write_attestation att) att
unfolding read_attestation write_attestation
ReadsBack-attestation att v = ReadsBack-bind _ (ReadsBack-result att.result v.result_valid) (
    ReadsBack-bind _ (ReadsBack-step_votes att.validation v.validation_valid)
      (ReadsBack-last _ (ReadsBack-step_votes att.ratification v.ratification_valid)))

ReadsBack-iteration_info :
    (info : Option IterationInfo)
    → IsIterationInfo info
    → ReadsBack read_iteration_info (write_iteration_info info) info
unfolding read_iteration_info write_iteration_info
ReadsBack-iteration_info none h = ReadsBack-tag _ 0 (ReadsBack-pure _)
ReadsBack-iteration_info (some (att, pk)) (hatt, hpk) = ReadsBack-tag _ 1 (
    ReadsBack-bind _ (ReadsBack-attestation att hatt)
      (ReadsBack-last _ (ReadsBack-bytes 96 pk hpk)))

-- The count is at most 8, so that it fits in its byte and passes the check of the reader.
pub ReadsBack-iterations_info :
    (info : IterationsInfo)
    → IsIterationsInfo info
    → ReadsBack read_iterations_info (write_iterations_info info) info
unfolding read_iterations_info write_iterations_info
ReadsBack-iterations_info info v = ReadsBack-tag _ (length info % 256) (
    rw (fits, in_range)
      (ReadsBack-many read_iteration_info write_iteration_info ReadsBack-iteration_info info
        v.all_valid))
  where
    fits : length info % 256 ≡ length info
    fits = omega (arith, v.not_too_many)

    in_range : ltb 8 (length info) ≡ false
    in_range = ground (arith, v.not_too_many)
