-- ===== src/NodeData/RoundTrip/Headers.antt =====
-- The header of a block is read back from what was written.
use rusk.Reader.RoundTrip.{
  ReadsBack, ReadsBack-bind, ReadsBack-last, ReadsBack-tag, ReadsBack-bytes, ReadsBack-u64,
}
use rusk.NodeData.Attestations.{Header, IsHeader}
use rusk.NodeData.Headers.{
  marshal_hashable, unmarshal_hashable, write_header, read_header, default_hash, default_signature,
  default_attestation,
}
use rusk.NodeData.RoundTrip.Votes.{ReadsBack-attestation, ReadsBack-iterations_info}

-- The fields that are not hashed come back at their defaults.
pub ReadsBack-hashable :
    (h : Header)
    → IsHeader h
    → ReadsBack unmarshal_hashable
        (marshal_hashable h)
        (record h { hash = default_hash; signature = default_signature; att = default_attestation })
unfolding unmarshal_hashable marshal_hashable
ReadsBack-hashable h v = ReadsBack-tag _ h.version (
    ReadsBack-bind _ (ReadsBack-u64 h.height v.height_fits) (
      ReadsBack-bind _ (ReadsBack-u64 h.timestamp v.timestamp_fits) (
        ReadsBack-bind _ (ReadsBack-bytes 32 h.prev_block_hash v.prev_block_hash_size) (
          ReadsBack-bind _ (ReadsBack-bytes 48 h.seed v.seed_size) (
            ReadsBack-bind _ (ReadsBack-bytes 32 h.state_hash v.state_hash_size) (
              ReadsBack-bind _ (ReadsBack-bytes 256 h.event_bloom v.event_bloom_size) (
                ReadsBack-bind _ (ReadsBack-bytes 96 h.generator_bls_pubkey v.generator_size) (
                  ReadsBack-bind _ (ReadsBack-bytes 32 h.txroot v.txroot_size) (
                    ReadsBack-bind _ (ReadsBack-bytes 32 h.faultroot v.faultroot_size) (
                      ReadsBack-bind _ (ReadsBack-u64 h.gas_limit v.gas_limit_fits) (
                        ReadsBack-tag _ h.iteration (
                          ReadsBack-bind _
                            (ReadsBack-attestation h.prev_block_cert v.prev_block_cert_valid)
                            (ReadsBack-last _ (
                              ReadsBack-iterations_info h.failed_iterations
                                v.failed_iterations_valid))))))))))))))

pub ReadsBack-header : (h : Header) → IsHeader h → ReadsBack read_header (write_header h) h
unfolding read_header write_header
ReadsBack-header h v = ReadsBack-bind _ (ReadsBack-hashable h v) (
    ReadsBack-bind _ (ReadsBack-attestation h.att v.att_valid) (
      ReadsBack-bind _ (ReadsBack-bytes 32 h.hash v.hash_size)
        (ReadsBack-last _ (ReadsBack-bytes 48 h.signature v.signature_size))))
