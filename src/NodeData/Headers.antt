-- ===== src/NodeData/Headers.antt =====
-- node-data/src/ledger/header.rs: the fields of a header that are hashed, and the whole header as it
-- is sent.
use rusk.Prelude.{◌∷◌, ◌++◌, replicate}
use rusk.Vm.{Bytes}
use rusk.Bytes.{to_le_bytes}
use rusk.Reader.{Reader, pure, ◌>>=◌, read_bytes, read_u8, read_u64_le}
use rusk.NodeData.Votes.{ConsensusHeader, Vote, RatificationResult}
use rusk.NodeData.Attestations.{
  Header, Attestation, write_attestation, read_attestation, write_iterations_info,
  read_iterations_info,
}

unfoldable pub to_consensus_header : Header → ConsensusHeader
to_consensus_header h = record {
  prev_block_hash = h.prev_block_hash;
  round = h.height;
  iteration = h.iteration;
}

unfoldable pub marshal_hashable : Header → Bytes
marshal_hashable h =
    h.version
    ∷ (to_le_bytes 8 h.height
        ++ (to_le_bytes 8 h.timestamp
            ++ (h.prev_block_hash
                ++ (h.seed
                    ++ (h.state_hash
                        ++ (h.event_bloom
                            ++ (h.generator_bls_pubkey
                                ++ (h.txroot
                                    ++ (h.faultroot
                                        ++ (to_le_bytes 8 h.gas_limit
                                            ++ (h.iteration
                                                ∷ (write_attestation h.prev_block_cert
                                                    ++ write_iterations_info
                                                        h.failed_iterations))))))))))))

abbrev pub default_hash : Bytes
default_hash = replicate 32 0

abbrev pub default_signature : Bytes
default_signature = replicate 48 0

abbrev pub default_attestation : Attestation
default_attestation = record {
  result = RatificationResult.failure Vote.no_quorum;
  validation = record { bitset = 0; aggregate_signature = default_signature };
  ratification = record { bitset = 0; aggregate_signature = default_signature };
}

-- The fields that are not hashed are left at their defaults.
unfoldable pub unmarshal_hashable : Reader Header
unmarshal_hashable = do
  version ← read_u8
  height ← read_u64_le
  timestamp ← read_u64_le
  prev_block_hash ← read_bytes 32
  seed ← read_bytes 48
  state_hash ← read_bytes 32
  event_hash ← read_bytes 256
  generator_bls_pubkey ← read_bytes 96
  txroot ← read_bytes 32
  faultroot ← read_bytes 32
  gas_limit ← read_u64_le
  iteration ← read_u8
  prev_block_cert ← read_attestation
  failed_iterations ← read_iterations_info
  pure (record {
    version = version;
    height = height;
    timestamp = timestamp;
    prev_block_hash = prev_block_hash;
    seed = seed;
    state_hash = state_hash;
    event_bloom = event_hash;
    generator_bls_pubkey = generator_bls_pubkey;
    txroot = txroot;
    faultroot = faultroot;
    gas_limit = gas_limit;
    iteration = iteration;
    prev_block_cert = prev_block_cert;
    failed_iterations = failed_iterations;
    hash = default_hash;
    signature = default_signature;
    att = default_attestation;
  })

unfoldable pub write_header : Header → Bytes
unfolding marshal_hashable
write_header h = marshal_hashable h ++ (write_attestation h.att ++ (h.hash ++ h.signature))

unfoldable pub read_header : Reader Header
unfolding unmarshal_hashable
read_header = do
  header ← unmarshal_hashable
  att ← read_attestation
  hash ← read_bytes 32
  signature ← read_bytes 48
  pure (record header { att = att; hash = hash; signature = signature })
