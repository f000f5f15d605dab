-- ===== src/NodeData/Faults.antt =====
-- node-data/src/ledger/faults.rs: two conflicting messages of one provisioner, and what makes a fault
-- valid. Signatures and hashes are those of crates, so their operations are parameters.
use rusk.Prelude.{ℕ, ◌+◌, ◌-◌, ◌*◌, Bool, not, ◌&&◌, ◌||◌, [], ◌∷◌, ◌++◌, ◌==◌, ltb, if◌then◌else◌}
use rusk.Vm.{Bytes}
use rusk.Bytes.{bytes_eq}
use rusk.Reader.{Reader, Error, pure, fail, ◌>>=◌, read_bytes, read_u8}
use rusk.Stake.Types.{epoch}
use rusk.NodeData.Votes.{
  Hash, IsHash, ConsensusHeader, IsConsensusHeader, write_consensus_header, read_consensus_header,
  Vote, IsVote, vote_size, write_vote, read_vote,
}
use rusk.NodeData.Steps.{SignInfo, IsSignInfo, write_sign_info, read_sign_info}

-- `BlsPublicKey::from_slice`, SHA3-256, and whether the signature bytes, the first argument, are a
-- signature of the message, the last, by the key.
pub record Crypto : Type 0 where
  pub is_key : Bytes → Bool
  pub sha3 : Bytes → Bytes
  pub verify_multisig : Bytes → Bytes → Bytes → Bool

pub record FaultData (V : Type 0) : Type 0 where
  pub header : ConsensusHeader
  pub sig : SignInfo
  pub content : V

pub data Fault : Type 0 where
  double_candidate : FaultData Hash → FaultData Hash → Fault
  double_ratification_vote double_validation_vote : FaultData Vote → FaultData Vote → Fault

-- `Fault::size`
unfoldable pub fault_size : Fault → ℕ
unfolding vote_size
fault_size (double_candidate a b) = (32 + 8 + 1) * 2 + (96 + 48) * 2 + 32 * 2
fault_size (double_ratification_vote a b) =
    (32 + 8 + 1) * 2 + (96 + 48) * 2 + (vote_size a.content + vote_size b.content)
fault_size (double_validation_vote a b) =
    (32 + 8 + 1) * 2 + (96 + 48) * 2 + (vote_size a.content + vote_size b.content)

-- `SIGN_SEED` of the three messages.
abbrev pub candidate_seed : Bytes
candidate_seed = []

abbrev pub validation_seed : Bytes
validation_seed = 1 ∷ []

abbrev pub ratification_seed : Bytes
ratification_seed = 2 ∷ []

unfoldable pub hash_signed_data : FaultData Hash → Bytes → Bytes
hash_signed_data d seed = write_consensus_header d.header ++ (seed ++ d.content)

unfoldable pub vote_signed_data : FaultData Vote → Bytes → Bytes
vote_signed_data d seed = write_consensus_header d.header ++ (seed ++ write_vote d.content)

-- The two messages that were signed.
unfoldable pub signed_data : Fault → Bytes × Bytes
unfolding hash_signed_data vote_signed_data
signed_data (double_candidate a b) =
    (hash_signed_data a candidate_seed, hash_signed_data b candidate_seed)
signed_data (double_ratification_vote a b) =
    (vote_signed_data a ratification_seed, vote_signed_data b ratification_seed)
signed_data (double_validation_vote a b) =
    (vote_signed_data a validation_seed, vote_signed_data b validation_seed)

unfoldable pub sign_infos : Fault → SignInfo × SignInfo
sign_infos (double_candidate a b) = (a.sig, b.sig)
sign_infos (double_ratification_vote a b) = (a.sig, b.sig)
sign_infos (double_validation_vote a b) = (a.sig, b.sig)

unfoldable pub to_culprit : Fault → Bytes
to_culprit (double_candidate a b) = a.sig.signer
to_culprit (double_ratification_vote a b) = a.sig.signer
to_culprit (double_validation_vote a b) = a.sig.signer

-- `Fault::consensus_header`
unfoldable pub fault_headers : Fault → ConsensusHeader × ConsensusHeader
fault_headers (double_candidate a b) = (a.header, b.header)
fault_headers (double_ratification_vote a b) = (a.header, b.header)
fault_headers (double_validation_vote a b) = (a.header, b.header)

pub data InvalidFault : Type 0 where
  duplicated expired future genesis : InvalidFault
  prev_hash_mismatch iteration_mismatch round_mismatch invalid_signature : InvalidFault

pub data Validated : Type 0 where
  accepted : ConsensusHeader → Validated
  rejected : InvalidFault → Validated

module _ (c : Crypto) where
  unfoldable pub faults_id : Fault → Hash × Hash
  unfolding signed_data
  faults_id f = (c.sha3 (signed_data f).0, c.sha3 (signed_data f).1)

  unfoldable pub has_id : Fault → Hash → Bool
  unfolding faults_id
  has_id f id = bytes_eq (faults_id f).0 id || bytes_eq (faults_id f).1 id

  unfoldable pub same : Fault → Fault → Bool
  unfolding has_id
  same f other = has_id other (faults_id f).0 && has_id other (faults_id f).1

  unfoldable pub verify_signature : SignInfo → Bytes → Bool
  verify_signature info msg = c.verify_multisig info.signature info.signer msg

  unfoldable pub verify_sigs : Fault → Bool
  unfolding verify_signature signed_data sign_infos
  verify_sigs f =
      verify_signature (sign_infos f).0 (signed_data f).0
      && verify_signature (sign_infos f).1 (signed_data f).1

  unfoldable pub validate : Fault → ℕ → Validated
  validate f current_height =
      let (h1, h2) = fault_headers f in
      if not (h1.iteration == h2.iteration)
      then rejected iteration_mismatch
      else if not (h1.round == h2.round)
      then rejected round_mismatch
      else if not (bytes_eq h1.prev_block_hash h2.prev_block_hash)
      then rejected prev_hash_mismatch
      else if bytes_eq (faults_id f).0 (faults_id f).1
      then rejected duplicated
      else if h1.round == 0
      then rejected genesis
      else if ltb h1.round (current_height - epoch)
      then rejected expired
      else if ltb current_height h1.round
      then rejected future
      else if verify_sigs f
      then accepted h1
      else rejected invalid_signature

module _ {V : Type 0} where
  unfoldable pub write_fault_data : (V → Bytes) → FaultData V → Bytes
  write_fault_data write d =
      write_consensus_header d.header ++ (write_sign_info d.sig ++ write d.content)

  unfoldable pub read_fault_data : (Bytes → Bool) → Reader V → Reader (FaultData V)
  read_fault_data is_key read = do
    header ← read_consensus_header
    sig ← read_sign_info is_key
    content ← read
    pure (record { header = header; sig = sig; content = content })

  pub record IsFaultData (is_key : Bytes → Bool) (P : V → Type 0) (d : FaultData V) : Type 0 where
    pub header_valid : IsConsensusHeader d.header
    pub sig_valid : IsSignInfo is_key d.sig
    pub content_valid : P d.content

abbrev pub IsFault : (Bytes → Bool) → Fault → Type 0
IsFault is_key (double_candidate a b) = IsFaultData is_key IsHash a × IsFaultData is_key IsHash b
IsFault is_key (double_ratification_vote a b) =
    IsFaultData is_key IsVote a × IsFaultData is_key IsVote b
IsFault is_key (double_validation_vote a b) =
    IsFaultData is_key IsVote a × IsFaultData is_key IsVote b

abbrev pub write_hash : Hash → Bytes
write_hash h = h

unfoldable pub write_fault : Fault → Bytes
unfolding write_fault_data
write_fault (double_candidate a b) =
    0 ∷ (write_fault_data write_hash a ++ write_fault_data write_hash b)
write_fault (double_ratification_vote a b) =
    1 ∷ (write_fault_data write_vote a ++ write_fault_data write_vote b)
write_fault (double_validation_vote a b) =
    2 ∷ (write_fault_data write_vote a ++ write_fault_data write_vote b)

unfoldable pub read_pair :
    {V : Type 0} → Reader (FaultData V) → (FaultData V → FaultData V → Fault) → Reader Fault
read_pair read fault = do a ← read; b ← read; pure (fault a b)

unfoldable pub read_fault : (Bytes → Bool) → Reader Fault
unfolding read_pair
read_fault is_key = do
  tag ← read_u8
  if tag == 0
      then read_pair (read_fault_data is_key (read_bytes 32)) double_candidate
      else if tag == 1
      then read_pair (read_fault_data is_key read_vote) double_ratification_vote
      else if tag == 2
      then read_pair (read_fault_data is_key read_vote) double_validation_vote
      else fail Error.invalid_data
