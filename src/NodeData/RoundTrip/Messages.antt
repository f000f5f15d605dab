-- ===== src/NodeData/RoundTrip/Messages.antt =====
-- A message is read back from what was written, whatever its topic.
use rusk.Prelude.{◌≡◌, refl, ◌∷◌, ◌++◌}
use rusk.Vm.{Bytes}
use rusk.Reader.{Result, ok, err}
use rusk.Reader.RoundTrip.{
  ReadsBack, ReadsBack-bind, ReadsBack-last, ReadsBack-tag, ReadsBack-bytes, ReadsBack-u16,
}
use rusk.TxBytes.Slices.{Crates, CratesLaws}
use rusk.NodeData.Messages.{
  Version, IsVersion, write_version, read_version, Topic, topic_byte, topic_from, Payload,
  IsPayload, as_read, Message, topic_of, from_wire, with_version, write_payload, write_message,
  read_by_topic, read_message,
}
use rusk.NodeData.RoundTrip.Steps.{
  ReadsBack-validation, ReadsBack-ratification, ReadsBack-quorum, ReadsBack-validation_quorum,
}
use rusk.NodeData.RoundTrip.Ledger.{ReadsBack-transaction, ReadsBack-block}
use rusk.NodeData.RoundTrip.Inventory.{ReadsBack-inv, ReadsBack-get_blocks, ReadsBack-get_resource}

ReadsBack-version : (v : Version) → IsVersion v → ReadsBack read_version (write_version v) v
unfolding read_version write_version
ReadsBack-version v h = ReadsBack-tag _ v.major (
    ReadsBack-bind _ (ReadsBack-u16 v.minor h.minor_fits)
      (ReadsBack-last _ (ReadsBack-u16 v.patch h.patch_fits)))

pub topic_from-topic_byte : (t : Topic) → topic_from (topic_byte t) ≡ t
unfolding topic_from
topic_from-topic_byte Topic.get_resource = refl
topic_from-topic_byte Topic.get_blocks = refl
topic_from-topic_byte Topic.get_mempool = refl
topic_from-topic_byte Topic.inv = refl
topic_from-topic_byte Topic.tx = refl
topic_from-topic_byte Topic.block = refl
topic_from-topic_byte Topic.candidate = refl
topic_from-topic_byte Topic.validation = refl
topic_from-topic_byte Topic.ratification = refl
topic_from-topic_byte Topic.quorum = refl
topic_from-topic_byte Topic.validation_quorum = refl
topic_from-topic_byte Topic.unknown = refl

module _ {Skeleton : Type 0} (c : Crates Skeleton) (laws : CratesLaws c)
    (sha3 : Bytes → Bytes) where
  -- Writing a payload that has bytes, and reading by its topic.
  back :
      {bs cs : Bytes} {m : Message Skeleton} (t : Topic)
      → ReadsBack (read_by_topic c sha3 t) bs m
      → ok bs ≡ ok cs
      → ReadsBack (read_by_topic c sha3 t) cs m
  back {bs} {cs} t h e = let same : bs ≡ cs = cc in rw (← same) h

  ReadsBack-payload :
      (p : Payload Skeleton) (bs : Bytes)
      → IsPayload c p
      → write_payload c p ≡ ok bs
      → ReadsBack (read_by_topic c sha3 (topic_of p)) bs (from_wire (as_read c p))
  unfolding read_by_topic topic_of write_payload as_read
  ReadsBack-payload (Payload.candidate b) bs v e =
      back Topic.candidate (ReadsBack-last _ (ReadsBack-block c laws sha3 b v)) e
  ReadsBack-payload (Payload.block b) bs v e =
      back Topic.block (ReadsBack-last _ (ReadsBack-block c laws sha3 b v)) e
  ReadsBack-payload (Payload.transaction t) bs v e =
      back Topic.tx (ReadsBack-last _ (ReadsBack-transaction c laws t v)) e
  ReadsBack-payload (Payload.validation m) bs v e =
      back Topic.validation (ReadsBack-last _ (ReadsBack-validation c.is_key m v)) e
  ReadsBack-payload (Payload.ratification m) bs v e =
      back Topic.ratification (ReadsBack-last _ (ReadsBack-ratification c.is_key m v)) e
  ReadsBack-payload (Payload.quorum q) bs v e =
      back Topic.quorum (ReadsBack-last _ (ReadsBack-quorum q v)) e
  ReadsBack-payload (Payload.validation_quorum q) bs v e =
      back Topic.validation_quorum (ReadsBack-last _ (ReadsBack-validation_quorum q v)) e
  ReadsBack-payload (Payload.get_mempool nonce) bs v e =
      back Topic.get_mempool (ReadsBack-last _ (ReadsBack-bytes 8 nonce v)) e
  ReadsBack-payload (Payload.inv i) bs v e = back Topic.inv (ReadsBack-last _ (ReadsBack-inv i v)) e
  ReadsBack-payload (Payload.get_blocks g) bs v e =
      back Topic.get_blocks (ReadsBack-last _ (ReadsBack-get_blocks g v)) e
  ReadsBack-payload (Payload.get_resource r) bs v e =
      ReadsBack-last _ (ReadsBack-get_resource r bs v e)
  ReadsBack-payload (Payload.validation_result _) bs v e = absurd v
  ReadsBack-payload Payload.empty bs v e = absurd v

  message_back :
      (version : Version) (p : Payload Skeleton) (bs : Bytes)
      → IsVersion version
      → IsPayload c p
      → write_payload c p ≡ ok bs
      → ReadsBack
          (read_message c sha3)
          (write_version version ++ (topic_byte (topic_of p) ∷ bs))
          (with_version version (from_wire (as_read c p)))
  unfolding read_message
  message_back version p bs hv hp e = ReadsBack-bind _ (ReadsBack-version version hv) (
      ReadsBack-tag _ (topic_byte (topic_of p))
        (rw (topic_from-topic_byte (topic_of p)) (ReadsBack-last _ (ReadsBack-payload p bs hp e))))

  pub ReadsBack-message :
      (version : Version) (p : Payload Skeleton) (bs : Bytes)
      → IsVersion version
      → IsPayload c p
      → write_message c (with_version version (from_wire p)) ≡ ok bs
      → ReadsBack (read_message c sha3) bs (with_version version (from_wire (as_read c p)))
  unfolding write_message from_wire with_version
  ReadsBack-message version p bs hv hp e = written (write_payload c p) refl
    where
      written :
          (o : Result Bytes)
          → write_payload c p ≡ o
          → ReadsBack (read_message c sha3) bs (with_version version (from_wire (as_read c p)))
      written (err x) h = absurd (cc (rw (h, write_message) at e))
      written (ok ps) h =
          let whole : ok (write_version version ++ (topic_byte (topic_of p) ∷ ps)) ≡ ok bs =
            rw (h, write_message) at e in
          let same : write_version version ++ (topic_byte (topic_of p) ∷ ps) ≡ bs = cc in
          rw (← same) (message_back version p ps hv hp h)
