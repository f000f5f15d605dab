-- ===== src/NodeData/RoundTrip/Steps.antt =====
-- The messages of the steps are read back from what was written.
use rusk.Prelude.{Bool}
use rusk.Vm.{Bytes}
use rusk.Reader.RoundTrip.{
  ReadsBack, ReadsBack-pure, ReadsBack-bind, ReadsBack-last, ReadsBack-bytes, ReadsBack-u64,
}
use rusk.NodeData.Steps.{
  SignInfo, IsSignInfo, write_sign_info, read_sign_info, Validation, IsValidation, write_validation,
  read_validation, ValidationResult, IsValidationResult, write_validation_result,
  read_validation_result, Ratification, IsRatification, write_ratification, read_ratification,
  Quorum, IsQuorum, write_quorum, read_quorum, ValidationQuorum, IsValidationQuorum,
  write_validation_quorum, read_validation_quorum,
}
use rusk.NodeData.RoundTrip.Votes.{
  ReadsBack-consensus_header, ReadsBack-vote, ReadsBack-quorum_type, ReadsBack-step_votes,
  ReadsBack-attestation,
}

pub ReadsBack-validation_result :
    (r : ValidationResult)
    → IsValidationResult r
    → ReadsBack read_validation_result (write_validation_result r) r
unfolding read_validation_result write_validation_result
ReadsBack-validation_result r v = ReadsBack-bind _ (ReadsBack-step_votes r.sv v.sv_valid) (
    ReadsBack-bind _ (ReadsBack-vote r.vote v.vote_valid)
      (ReadsBack-last _ (ReadsBack-quorum_type r.quorum)))

pub ReadsBack-quorum : (q : Quorum) → IsQuorum q → ReadsBack read_quorum (write_quorum q) q
unfolding read_quorum write_quorum
ReadsBack-quorum q v =
    ReadsBack-bind _ (ReadsBack-consensus_header q.header v.header_valid)
      (ReadsBack-last _ (ReadsBack-attestation q.att v.att_valid))

pub ReadsBack-validation_quorum :
    (q : ValidationQuorum)
    → IsValidationQuorum q
    → ReadsBack read_validation_quorum (write_validation_quorum q) q
unfolding read_validation_quorum write_validation_quorum
ReadsBack-validation_quorum q v =
    ReadsBack-bind _ (ReadsBack-consensus_header q.header v.header_valid)
      (ReadsBack-last _ (ReadsBack-validation_result q.result v.result_valid))

module _ (is_key : Bytes → Bool) where
  pub ReadsBack-sign_info :
      (info : SignInfo)
      → IsSignInfo is_key info
      → ReadsBack (read_sign_info is_key) (write_sign_info info) info
  unfolding read_sign_info write_sign_info
  ReadsBack-sign_info info v = ReadsBack-bind _ (ReadsBack-bytes 96 info.signer v.signer_size) (
      rw v.signer_valid (
        ReadsBack-bind _ (ReadsBack-pure info.signer)
          (ReadsBack-last _ (ReadsBack-bytes 48 info.signature v.signature_size))))

  pub ReadsBack-validation :
      (m : Validation)
      → IsValidation is_key m
      → ReadsBack (read_validation is_key) (write_validation m) m
  unfolding read_validation write_validation
  ReadsBack-validation m v = ReadsBack-bind _ (ReadsBack-consensus_header m.header v.header_valid) (
      ReadsBack-bind _ (ReadsBack-vote m.vote v.vote_valid)
        (ReadsBack-last _ (ReadsBack-sign_info m.sign_info v.sign_info_valid)))

  pub ReadsBack-ratification :
      (m : Ratification)
      → IsRatification is_key m
      → ReadsBack (read_ratification is_key) (write_ratification m) m
  unfolding read_ratification write_ratification
  ReadsBack-ratification m v =
      ReadsBack-bind _ (ReadsBack-consensus_header m.header v.header_valid) (
        ReadsBack-bind _ (ReadsBack-vote m.vote v.vote_valid) (
          ReadsBack-bind _ (ReadsBack-u64 m.timestamp v.timestamp_fits) (
            ReadsBack-bind _ (ReadsBack-validation_result m.validation_result v.result_valid)
              (ReadsBack-last _ (ReadsBack-sign_info m.sign_info v.sign_info_valid)))))
