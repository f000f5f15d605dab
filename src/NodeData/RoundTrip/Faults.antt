-- ===== src/NodeData/RoundTrip/Faults.antt =====
-- Faults are read back from what was written, and the size that the code counts is that of the
-- encoding less the tag.
use rusk.Prelude.{◌+◌, ◌≡◌, refl, Bool, ◌++◌, ◌∷◌, [], length, length-append, arith}
use rusk.Vm.{Bytes}
use rusk.Bytes.{to_le_bytes, length-to_le_bytes}
use rusk.Reader.{Reader}
use rusk.Reader.RoundTrip.{
  ReadsBack, ReadsBack-bind, ReadsBack-last, ReadsBack-tag, ReadsBack-bytes,
}
use rusk.NodeData.Votes.{
  ConsensusHeader, IsConsensusHeader, write_consensus_header, Vote, IsVote, vote_size, write_vote,
}
use rusk.NodeData.Steps.{SignInfo, IsSignInfo, write_sign_info}
use rusk.NodeData.Faults.{
  FaultData, IsFaultData, write_fault_data, read_fault_data, Fault, IsFault, write_hash,
  write_fault, read_fault, fault_size, read_pair,
}
use rusk.NodeData.RoundTrip.Votes.{ReadsBack-consensus_header, ReadsBack-vote}
use rusk.NodeData.RoundTrip.Steps.{ReadsBack-sign_info}

module _ {V : Type 0} (is_key : Bytes → Bool) {P : V → Type 0} (read : Reader V)
    (write : V → Bytes) where
  ReadsBack-fault_data :
      ((v : V) → P v → ReadsBack read (write v) v)
      → (d : FaultData V) → IsFaultData is_key P d
      → ReadsBack (read_fault_data is_key read) (write_fault_data write d) d
  unfolding read_fault_data write_fault_data
  ReadsBack-fault_data content d v =
      ReadsBack-bind _ (ReadsBack-consensus_header d.header v.header_valid) (
        ReadsBack-bind _ (ReadsBack-sign_info is_key d.sig v.sig_valid)
          (ReadsBack-last _ (content d.content v.content_valid)))

  ReadsBack-fault_pair :
      ((v : V) → P v → ReadsBack read (write v) v)
      → (fault : FaultData V → FaultData V → Fault) (a b : FaultData V)
      → IsFaultData is_key P a × IsFaultData is_key P b
      → ReadsBack
          (read_pair (read_fault_data is_key read) fault)
          (write_fault_data write a ++ write_fault_data write b)
          (fault a b)
  unfolding read_pair
  ReadsBack-fault_pair content fault a b (va, vb) =
      ReadsBack-bind _ (ReadsBack-fault_data content a va)
        (ReadsBack-last _ (ReadsBack-fault_data content b vb))

pub ReadsBack-fault :
    (is_key : Bytes → Bool) (f : Fault)
    → IsFault is_key f
    → ReadsBack (read_fault is_key) (write_fault f) f
unfolding read_fault write_fault
ReadsBack-fault is_key (Fault.double_candidate a b) v =
    ReadsBack-tag _ 0 (ReadsBack-fault_pair is_key _ _ (ReadsBack-bytes 32) _ a b v)
ReadsBack-fault is_key (Fault.double_ratification_vote a b) v =
    ReadsBack-tag _ 1 (ReadsBack-fault_pair is_key _ _ ReadsBack-vote _ a b v)
ReadsBack-fault is_key (Fault.double_validation_vote a b) v =
    ReadsBack-tag _ 2 (ReadsBack-fault_pair is_key _ _ ReadsBack-vote _ a b v)

length-write_consensus_header :
    (h : ConsensusHeader) → IsConsensusHeader h → length (write_consensus_header h) ≡ 41
unfolding write_consensus_header
length-write_consensus_header h v = rw length-append (
    omega (
      arith,
      v.prev_block_hash_size,
      length-append (to_le_bytes 8 h.round) (h.iteration ∷ []),
      length-to_le_bytes 8 h.round,
    ))

length-write_vote : (v : Vote) → IsVote v → length (write_vote v) ≡ vote_size v
unfolding write_vote vote_size
length-write_vote Vote.no_candidate h = refl
length-write_vote (Vote.valid x) h = omega arith
length-write_vote (Vote.invalid x) h = omega arith
length-write_vote Vote.no_quorum h = refl

length-write_sign_info :
    (is_key : Bytes → Bool) (info : SignInfo)
    → IsSignInfo is_key info
    → length (write_sign_info info) ≡ 144
unfolding write_sign_info
length-write_sign_info is_key info v =
    omega (arith, length-append info.signer info.signature, v.signer_size, v.signature_size)

length-write_fault_data :
    {V : Type 0} (is_key : Bytes → Bool) {P : V → Type 0} (write : V → Bytes) (d : FaultData V)
    → IsFaultData is_key P d
    → length (write_fault_data write d) ≡ 185 + length (write d.content)
unfolding write_fault_data
length-write_fault_data is_key write d v = omega (
  arith,
  length-append (write_consensus_header d.header) (write_sign_info d.sig ++ write d.content),
  length-append (write_sign_info d.sig) (write d.content),
  length-write_consensus_header d.header v.header_valid,
  length-write_sign_info is_key d.sig v.sig_valid,
)

length-fault_pair :
    {V : Type 0} (is_key : Bytes → Bool) {P : V → Type 0} (write : V → Bytes) (a b : FaultData V)
    → IsFaultData is_key P a
    → IsFaultData is_key P b
    → length (write_fault_data write a ++ write_fault_data write b)
      ≡ 370 + (length (write a.content) + length (write b.content))
length-fault_pair is_key write a b va vb = omega (
  arith,
  length-append (write_fault_data write a) (write_fault_data write b),
  length-write_fault_data is_key write a va,
  length-write_fault_data is_key write b vb,
)

-- The encoding of a well-formed fault is one byte, its tag, longer than the size of the fault.
pub length-write_fault :
    (is_key : Bytes → Bool) (f : Fault)
    → IsFault is_key f
    → length (write_fault f) ≡ 1 + fault_size f
unfolding write_fault fault_size
length-write_fault is_key (Fault.double_candidate a b) (va, vb) =
    omega (arith, length-fault_pair is_key write_hash a b va vb, va.content_valid, vb.content_valid)
length-write_fault is_key (Fault.double_ratification_vote a b) (va, vb) = omega (
  arith,
  length-fault_pair is_key write_vote a b va vb,
  length-write_vote a.content va.content_valid,
  length-write_vote b.content vb.content_valid,
)
length-write_fault is_key (Fault.double_validation_vote a b) (va, vb) = omega (
  arith,
  length-fault_pair is_key write_vote a b va vb,
  length-write_vote a.content va.content_valid,
  length-write_vote b.content vb.content_valid,
)
