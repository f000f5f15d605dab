-- ===== src/NodeData/Truncation.antt =====
-- No reader of a message looks past what it takes, so that a message that was cut off is refused.
use rusk.Prelude.{ℕ, zero, suc, refl, ◌≡◌, ◌++◌, ◌∷◌, Bool}
use rusk.Vm.{Bytes}
use rusk.Reader.{Result, Error, ok, err}
use rusk.Reader.Extension.{
  IsLocal, IsLocal-pure, IsLocal-fail, IsLocal-bind, IsLocal-if, IsLocal-many, IsLocal-bytes,
  IsLocal-u8, IsLocal-u16, IsLocal-u32, IsLocal-u64, IsLocal-var,
}
use rusk.Reader.Extension.{truncated_refused}
use rusk.TxBytes.Slices.{Crates, CratesLaws, keep}
use rusk.NodeData.Votes.{
  read_consensus_header, read_vote, read_ratification_result, read_quorum_type,
}
use rusk.NodeData.Attestations.{read_step_votes, read_attestation, read_iterations_info}
use rusk.NodeData.Headers.{read_header}
use rusk.NodeData.Steps.{
  read_sign_info, read_validation, read_ratification, read_validation_result, read_quorum,
  read_validation_quorum,
}
use rusk.NodeData.Faults.{read_fault, read_fault_data}
use rusk.NodeData.Ledger.{read_transaction, read_block}
use rusk.NodeData.Inventory.{
  Inv, read_item, read_items, read_inv, read_get_blocks, read_socket_addr, read_get_resource,
}
use rusk.NodeData.Messages.{
  Version, IsVersion, Topic, Payload, IsPayload, with_version, from_wire, write_message,
  read_by_topic, read_message, read_version,
}
use rusk.NodeData.RoundTrip.Messages.{ReadsBack-message}

ruleset parts = (
  IsLocal-pure, IsLocal-fail, IsLocal-bind, IsLocal-if, IsLocal-many, IsLocal-bytes, IsLocal-u8,
  IsLocal-u16, IsLocal-u32, IsLocal-u64, IsLocal-var,
)

consensus_header-IsLocal : IsLocal read_consensus_header
unfolding read_consensus_header
consensus_header-IsLocal = search parts depth 60

vote-IsLocal : IsLocal read_vote
unfolding read_vote
vote-IsLocal = search parts depth 60

result-IsLocal : IsLocal read_ratification_result
unfolding read_ratification_result
result-IsLocal = search (parts, vote-IsLocal) depth 60

step_votes-IsLocal : IsLocal read_step_votes
unfolding read_step_votes
step_votes-IsLocal = search parts depth 60

attestation-IsLocal : IsLocal read_attestation
unfolding read_attestation
attestation-IsLocal = search (parts, result-IsLocal, step_votes-IsLocal) depth 60

iterations_info-IsLocal : IsLocal read_iterations_info
unfolding read_iterations_info
iterations_info-IsLocal = search (parts, attestation-IsLocal) depth 60

header-IsLocal : IsLocal read_header
unfolding read_header
header-IsLocal = search (parts, attestation-IsLocal, iterations_info-IsLocal) depth 60

keep-IsLocal : {A : Type 0} (m : Result A) → IsLocal (keep m)
unfolding keep
keep-IsLocal (ok a) = record { with_more = λ bs more b rest h. cc }
keep-IsLocal (err e) = record { with_more = λ bs more b rest h. cc }

validation_result-IsLocal : IsLocal read_validation_result
unfolding read_validation_result read_quorum_type
validation_result-IsLocal = search (parts, vote-IsLocal, step_votes-IsLocal) depth 60

quorum-IsLocal : IsLocal read_quorum
unfolding read_quorum
quorum-IsLocal = search (parts, consensus_header-IsLocal, attestation-IsLocal) depth 60

validation_quorum-IsLocal : IsLocal read_validation_quorum
unfolding read_validation_quorum
validation_quorum-IsLocal =
    search (parts, consensus_header-IsLocal, validation_result-IsLocal) depth 60

module _ (is_key : Bytes → Bool) where
  sign_info-IsLocal : IsLocal (read_sign_info is_key)
  unfolding read_sign_info
  sign_info-IsLocal = search parts depth 60

  validation-IsLocal : IsLocal (read_validation is_key)
  unfolding read_validation
  validation-IsLocal =
      search (parts, consensus_header-IsLocal, vote-IsLocal, sign_info-IsLocal) depth 60

  ratification-IsLocal : IsLocal (read_ratification is_key)
  unfolding read_ratification
  ratification-IsLocal =
      search
        (
          parts, consensus_header-IsLocal, vote-IsLocal, validation_result-IsLocal,
          sign_info-IsLocal,
        )
        depth 60

  fault-IsLocal : IsLocal (read_fault is_key)
  unfolding read_fault read_fault_data
  fault-IsLocal = search (parts, consensus_header-IsLocal, vote-IsLocal, sign_info-IsLocal) depth 60

item-IsLocal : (inv : Inv) → IsLocal (read_item inv)
unfolding read_item
item-IsLocal inv = search (parts, consensus_header-IsLocal) depth 60

items-IsLocal : (n : ℕ) (inv : Inv) → IsLocal (read_items n inv)
unfolding read_items
items-IsLocal zero inv = IsLocal-pure inv
items-IsLocal (suc n) inv = IsLocal-bind _ _ (item-IsLocal inv) (items-IsLocal n)

inv-IsLocal : IsLocal read_inv
unfolding read_inv
inv-IsLocal = search (parts, items-IsLocal) depth 60

get_blocks-IsLocal : IsLocal read_get_blocks
unfolding read_get_blocks
get_blocks-IsLocal = search parts depth 60

get_resource-IsLocal : IsLocal read_get_resource
unfolding read_get_resource read_socket_addr
get_resource-IsLocal = search (parts, inv-IsLocal) depth 60

version-IsLocal : IsLocal read_version
unfolding read_version
version-IsLocal = search parts depth 60

module _ {Skeleton : Type 0} (c : Crates Skeleton) (sha3 : Bytes → Bytes) where
  transaction-IsLocal : IsLocal (read_transaction c)
  unfolding read_transaction
  transaction-IsLocal = search (parts, keep-IsLocal) depth 60

  block-IsLocal : IsLocal (read_block c sha3)
  unfolding read_block
  block-IsLocal = search (parts, header-IsLocal, transaction-IsLocal, fault-IsLocal) depth 60

  topic-IsLocal : (t : Topic) → IsLocal (read_by_topic c sha3 t)
  unfolding read_by_topic
  topic-IsLocal Topic.candidate = search (parts, block-IsLocal) depth 60
  topic-IsLocal Topic.validation = search (parts, validation-IsLocal) depth 60
  topic-IsLocal Topic.ratification = search (parts, ratification-IsLocal) depth 60
  topic-IsLocal Topic.quorum = search (parts, quorum-IsLocal) depth 60
  topic-IsLocal Topic.validation_quorum = search (parts, validation_quorum-IsLocal) depth 60
  topic-IsLocal Topic.block = search (parts, block-IsLocal) depth 60
  topic-IsLocal Topic.tx = search (parts, transaction-IsLocal) depth 60
  topic-IsLocal Topic.get_resource = search (parts, get_resource-IsLocal) depth 60
  topic-IsLocal Topic.get_blocks = search (parts, get_blocks-IsLocal) depth 60
  topic-IsLocal Topic.get_mempool = search parts depth 60
  topic-IsLocal Topic.inv = search (parts, inv-IsLocal) depth 60
  topic-IsLocal Topic.unknown = search parts depth 60

  message-IsLocal : IsLocal (read_message c sha3)
  unfolding read_message
  message-IsLocal = search (parts, version-IsLocal, topic-IsLocal) depth 60

  -- Where skeletons are read back, what was written for a message, cut off anywhere before its end, is
  -- not read as a message.
  pub truncated_message_refused :
      (laws : CratesLaws c) (version : Version) (p : Payload Skeleton) (front back : Bytes) (x : ℕ)
      → IsVersion version
      → IsPayload c p
      → write_message c (with_version version (from_wire p)) ≡ ok (front ++ (x ∷ back))
      → (e : Error) × (read_message c sha3 front ≡ err e)
  truncated_message_refused laws version p front back x hv hp e =
      truncated_refused front x back (ReadsBack-message c laws sha3 version p _ hv hp e)
        message-IsLocal refl
