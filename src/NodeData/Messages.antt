-- ===== src/NodeData/Messages.antt =====
-- node-data/src/message.rs: messages, by topic. Where a message came from (`metadata`) is set by the
-- network layer and not sent, and is left out.
use rusk.Prelude.{
  ℕ, ◌≡◌, Bool, true, false, [], ◌∷◌, ◌++◌, ◌==◌, if◌then◌else◌, compare, Ordering, length,
}
use rusk.Vm.{Bytes}
use rusk.Bytes.{to_le_bytes}
use rusk.Reader.{
  Reader, Error, Result, ok, err, pure, fail, ◌>>=◌, read_bytes, read_u8, read_u16_le, IsU8, IsU16,
}
use rusk.TxBytes.Slices.{Crates}
use rusk.NodeData.Votes.{ConsensusHeader, StepName, to_step, Status, from_ordering}
use rusk.NodeData.Headers.{to_consensus_header, default_hash}
use rusk.NodeData.Steps.{
  Validation, write_validation, read_validation, IsValidation, Ratification, write_ratification,
  read_ratification, IsRatification, Quorum, write_quorum, read_quorum, IsQuorum, ValidationQuorum,
  write_validation_quorum, read_validation_quorum, IsValidationQuorum, ValidationResult,
}
use rusk.NodeData.Ledger.{
  Transaction, write_transaction, read_transaction, with_size, IsLedgerTransaction, Block,
  write_block, read_block, with_sizes, IsBlock,
}
use rusk.NodeData.Inventory.{
  Inv, write_inv, read_inv, IsInv, GetBlocks, write_get_blocks, read_get_blocks, IsGetBlocks,
  GetResource, write_get_resource, read_get_resource, IsGetResource,
}

-- `Version`: major, minor and patch.
pub record Version : Type 0 where
  pub major : ℕ
  pub minor : ℕ
  pub patch : ℕ

pub record IsVersion (v : Version) : Type 0 where
  pub major_fits : IsU8 v.major
  pub minor_fits : IsU16 v.minor
  pub patch_fits : IsU16 v.patch

abbrev pub protocol_version : Version
protocol_version = record { major = 1; minor = 0; patch = 0 }

unfoldable pub write_version : Version → Bytes
write_version v = v.major ∷ (to_le_bytes 2 v.minor ++ to_le_bytes 2 v.patch)

unfoldable pub read_version : Reader Version
read_version = do
  major ← read_u8
  minor ← read_u16_le
  patch ← read_u16_le
  pure (record { major = major; minor = minor; patch = patch })

pub data Topic : Type 0 where
  get_resource get_blocks get_mempool inv tx block : Topic
  candidate validation ratification quorum validation_quorum unknown : Topic

abbrev pub topic_byte : Topic → ℕ
topic_byte get_resource = 8
topic_byte get_blocks = 9
topic_byte tx = 10
topic_byte block = 11
topic_byte get_mempool = 13
topic_byte inv = 14
topic_byte candidate = 16
topic_byte validation = 17
topic_byte ratification = 18
topic_byte quorum = 19
topic_byte validation_quorum = 20
topic_byte unknown = 255

-- `impl From<u8> for Topics`
unfoldable pub topic_from : ℕ → Topic
topic_from v =
    if v == 8
    then get_resource
    else if v == 9
    then get_blocks
    else if v == 10
    then tx
    else if v == 11
    then block
    else if v == 13
    then get_mempool
    else if v == 14
    then inv
    else if v == 16
    then candidate
    else if v == 17
    then validation
    else if v == 18
    then ratification
    else if v == 19
    then quorum
    else if v == 20
    then validation_quorum
    else unknown

unfoldable pub is_consensus_msg : Topic → Bool
is_consensus_msg candidate = true
is_consensus_msg validation = true
is_consensus_msg ratification = true
is_consensus_msg quorum = true
is_consensus_msg validation_quorum = true
is_consensus_msg _ = false

-- A candidate is its block, and a request for the mempool its nonce.
pub data Payload (Skeleton : Type 0) : Type 0 where
  ratification : Ratification → Payload Skeleton
  validation : Validation → Payload Skeleton
  candidate : Block Skeleton → Payload Skeleton
  quorum : Quorum → Payload Skeleton
  validation_quorum : ValidationQuorum → Payload Skeleton
  block : Block Skeleton → Payload Skeleton
  transaction : Transaction Skeleton → Payload Skeleton
  get_mempool : Bytes → Payload Skeleton
  inv : Inv → Payload Skeleton
  get_blocks : GetBlocks → Payload Skeleton
  get_resource : GetResource → Payload Skeleton
  validation_result : ValidationResult → Payload Skeleton
  empty : Payload Skeleton

pub record Message (Skeleton : Type 0) : Type 0 where
  pub version : Version
  pub topic : Topic
  pub header : ConsensusHeader
  pub payload : Payload Skeleton

abbrev pub default_header : ConsensusHeader
default_header = record { prev_block_hash = default_hash; round = 0; iteration = 0 }

module _ {Skeleton : Type 0} where
  -- `WireMessage::TOPIC`
  unfoldable pub topic_of : Payload Skeleton → Topic
  topic_of (Payload.ratification _) = Topic.ratification
  topic_of (Payload.validation _) = Topic.validation
  topic_of (Payload.candidate _) = Topic.candidate
  topic_of (Payload.quorum _) = Topic.quorum
  topic_of (Payload.validation_quorum _) = Topic.validation_quorum
  topic_of (Payload.block _) = Topic.block
  topic_of (Payload.transaction _) = Topic.tx
  topic_of (Payload.get_mempool _) = Topic.get_mempool
  topic_of (Payload.inv _) = Topic.inv
  topic_of (Payload.get_blocks _) = Topic.get_blocks
  topic_of (Payload.get_resource _) = Topic.get_resource
  topic_of (Payload.validation_result _) = Topic.unknown
  topic_of Payload.empty = Topic.unknown

  -- `WireMessage::consensus_header`
  unfoldable pub consensus_header_of : Payload Skeleton → ConsensusHeader
  unfolding to_consensus_header
  consensus_header_of (Payload.ratification r) = r.header
  consensus_header_of (Payload.validation v) = v.header
  consensus_header_of (Payload.candidate b) = to_consensus_header b.header
  consensus_header_of (Payload.quorum q) = q.header
  consensus_header_of (Payload.validation_quorum q) = q.header
  consensus_header_of (Payload.block _) = default_header
  consensus_header_of (Payload.transaction _) = default_header
  consensus_header_of (Payload.get_mempool _) = default_header
  consensus_header_of (Payload.inv _) = default_header
  consensus_header_of (Payload.get_blocks _) = default_header
  consensus_header_of (Payload.get_resource _) = default_header
  consensus_header_of (Payload.validation_result _) = default_header
  consensus_header_of Payload.empty = default_header

  -- `impl From<W> for Message`
  unfoldable pub from_wire : Payload Skeleton → Message Skeleton
  unfolding topic_of consensus_header_of
  from_wire p = record {
    version = protocol_version;
    topic = topic_of p;
    header = consensus_header_of p;
    payload = p;
  }

  unfoldable pub with_version : Version → Message Skeleton → Message Skeleton
  with_version v m = record m { version = v }

  -- `StepMessage::get_step` of the messages that have one.
  unfoldable pub get_step : Message Skeleton → ℕ
  unfolding to_step
  get_step m = elim m.payload [
    | Payload.candidate b ↦ to_step StepName.proposal b.header.iteration
    | Payload.validation v ↦ to_step StepName.validation v.header.iteration
    | Payload.ratification r ↦ to_step StepName.ratification r.header.iteration
    | Payload.quorum _ ↦ to_step StepName.ratification m.header.iteration
    | _ ↦ to_step StepName.proposal m.header.iteration
  ]

  unfoldable pub get_iteration : Message Skeleton → ℕ
  get_iteration m = elim m.payload [ Payload.block b ↦ b.header.iteration | _ ↦ m.header.iteration ]

  unfoldable pub get_height : Message Skeleton → ℕ
  get_height m = elim m.payload [ Payload.block b ↦ b.header.height | _ ↦ m.header.round ]

  -- `Message::compare`: by the round, then by the step.
  unfoldable pub compare_message : Message Skeleton → ℕ → ℕ → StepName → Status
  unfolding from_ordering
  compare_message m round iteration step = from_ordering (elim (compare m.header.round round) [
    | Ordering.eq ↦ compare (get_step m) (to_step step iteration)
    | Ordering.lt ↦ Ordering.lt
    | Ordering.gt ↦ Ordering.gt
  ])

module _ {Skeleton : Type 0} (c : Crates Skeleton) where
  -- Internal messages have no bytes.
  unfoldable pub write_payload : Payload Skeleton → Result Bytes
  write_payload (Payload.candidate p) = ok (write_block c p)
  write_payload (Payload.validation p) = ok (write_validation p)
  write_payload (Payload.ratification p) = ok (write_ratification p)
  write_payload (Payload.quorum p) = ok (write_quorum p)
  write_payload (Payload.validation_quorum p) = ok (write_validation_quorum p)
  write_payload (Payload.block p) = ok (write_block c p)
  write_payload (Payload.transaction p) = ok (write_transaction c p)
  write_payload (Payload.get_mempool nonce) = ok nonce
  write_payload (Payload.inv p) = ok (write_inv p)
  write_payload (Payload.get_blocks p) = ok (write_get_blocks p)
  write_payload (Payload.get_resource p) = write_get_resource p
  write_payload Payload.empty = ok []
  write_payload (Payload.validation_result _) = ok []

  unfoldable pub write_message : Message Skeleton → Result Bytes
  write_message m = elim (write_payload m.payload) [
    | ok bs ↦ ok (write_version m.version ++ (topic_byte m.topic ∷ bs))
    | err e ↦ err e
  ]

  -- What comes back of a payload: transactions with the size of their bytes.
  unfoldable pub as_read : Payload Skeleton → Payload Skeleton
  unfolding with_size with_sizes
  as_read (Payload.candidate b) = Payload.candidate (with_sizes c b)
  as_read (Payload.block b) = Payload.block (with_sizes c b)
  as_read (Payload.transaction t) = Payload.transaction (with_size c t)
  as_read p = p

  -- A payload that is sent, with values as their types have them.
  abbrev pub IsPayload : Payload Skeleton → Type 0
  IsPayload (Payload.candidate b) = IsBlock c b
  IsPayload (Payload.validation v) = IsValidation c.is_key v
  IsPayload (Payload.ratification r) = IsRatification c.is_key r
  IsPayload (Payload.quorum q) = IsQuorum q
  IsPayload (Payload.validation_quorum q) = IsValidationQuorum q
  IsPayload (Payload.block b) = IsBlock c b
  IsPayload (Payload.transaction t) = IsLedgerTransaction c t
  IsPayload (Payload.get_mempool nonce) = length nonce ≡ 8
  IsPayload (Payload.inv i) = IsInv i
  IsPayload (Payload.get_blocks g) = IsGetBlocks g
  IsPayload (Payload.get_resource r) = IsGetResource r
  IsPayload (Payload.validation_result _) = ⊥
  IsPayload Payload.empty = ⊥

module _ {Skeleton : Type 0} (c : Crates Skeleton) (sha3 : Bytes → Bytes) where
  unfoldable pub read_wire :
      {A : Type 0} → Reader A → (A → Payload Skeleton) → Reader (Message Skeleton)
  unfolding from_wire
  read_wire read payload = do p ← read; pure (from_wire (payload p))

  -- The `match` on the topic.
  unfoldable pub read_by_topic : Topic → Reader (Message Skeleton)
  unfolding read_wire
  read_by_topic Topic.candidate = read_wire (read_block c sha3) Payload.candidate
  read_by_topic Topic.validation = read_wire (read_validation c.is_key) Payload.validation
  read_by_topic Topic.ratification = read_wire (read_ratification c.is_key) Payload.ratification
  read_by_topic Topic.quorum = read_wire read_quorum Payload.quorum
  read_by_topic Topic.validation_quorum = read_wire read_validation_quorum Payload.validation_quorum
  read_by_topic Topic.block = read_wire (read_block c sha3) Payload.block
  read_by_topic Topic.tx = read_wire (read_transaction c) Payload.transaction
  read_by_topic Topic.get_resource = read_wire read_get_resource Payload.get_resource
  read_by_topic Topic.get_blocks = read_wire read_get_blocks Payload.get_blocks
  read_by_topic Topic.get_mempool = read_wire (read_bytes 8) Payload.get_mempool
  read_by_topic Topic.inv = read_wire read_inv Payload.inv
  read_by_topic Topic.unknown = fail Error.invalid_data

  unfoldable pub read_message : Reader (Message Skeleton)
  unfolding read_by_topic topic_from with_version
  read_message = do
    version ← read_version
    topic ← read_u8
    message ← read_by_topic (topic_from topic)
    pure (with_version version message)
