-- ===== src/NodeData/Votes.antt =====
-- node-data/src/message.rs: votes, the header of a consensus message and the results of its steps,
-- with their encodings in node-data/src/encoding.rs. A fixed array of bytes is a list of bytes, and
-- a predicate says that it has the length of its type.
use rusk.Prelude.{
  ℕ, ◌+◌, ◌*◌, ◌%◌, ◌≡◌, Bool, true, false, [], ◌∷◌, ◌++◌, ◌==◌, if◌then◌else◌, length, compare,
  Ordering,
}
use rusk.Vm.{Bytes}
use rusk.Bytes.{to_le_bytes}
use rusk.Reader.{Reader, Error, pure, fail, ◌>>=◌, read_bytes, read_u8, read_u64_le, IsU8, IsU64}

abbrev pub Hash : Type 0
Hash = Bytes

abbrev pub IsHash : Hash → Type 0
IsHash h = length h ≡ 32

pub data StepName : Type 0 where
  proposal validation ratification : StepName

abbrev pub step_index : StepName → ℕ
step_index proposal = 0
step_index validation = 1
step_index ratification = 2

-- `StepName::to_step`, on a byte.
unfoldable pub to_step : StepName → ℕ → ℕ
to_step name iteration = (iteration * 3 + step_index name) % 256

pub data Status : Type 0 where
  past present future : Status

unfoldable pub from_ordering : Ordering → Status
from_ordering Ordering.lt = past
from_ordering Ordering.eq = present
from_ordering Ordering.gt = future

pub record ConsensusHeader : Type 0 where
  pub prev_block_hash : Hash
  pub round : ℕ
  pub iteration : ℕ

pub record IsConsensusHeader (h : ConsensusHeader) : Type 0 where
  pub prev_block_hash_size : IsHash h.prev_block_hash
  pub round_fits : IsU64 h.round
  pub iteration_fits : IsU8 h.iteration

unfoldable pub write_consensus_header : ConsensusHeader → Bytes
write_consensus_header h = h.prev_block_hash ++ (to_le_bytes 8 h.round ++ (h.iteration ∷ []))

unfoldable pub read_consensus_header : Reader ConsensusHeader
read_consensus_header = do
  prev_block_hash ← read_bytes 32
  round ← read_u64_le
  iteration ← read_u8
  pure (record { prev_block_hash = prev_block_hash; round = round; iteration = iteration })

-- `ConsensusHeader::compare_round`
unfoldable pub compare_round : ConsensusHeader → ℕ → Status
unfolding from_ordering
compare_round h round = from_ordering (compare h.round round)

pub data Vote : Type 0 where
  no_candidate : Vote
  valid invalid : Hash → Vote
  no_quorum : Vote

abbrev pub IsVote : Vote → Type 0
IsVote no_candidate = Unit
IsVote (valid h) = IsHash h
IsVote (invalid h) = IsHash h
IsVote no_quorum = Unit

-- `Vote::size`
unfoldable pub vote_size : Vote → ℕ
vote_size no_candidate = 1 + 0
vote_size (valid h) = 1 + 32
vote_size (invalid h) = 1 + 32
vote_size no_quorum = 1 + 0

unfoldable pub write_vote : Vote → Bytes
write_vote no_candidate = 0 ∷ []
write_vote (valid h) = 1 ∷ h
write_vote (invalid h) = 2 ∷ h
write_vote no_quorum = 3 ∷ []

read_hash_vote : (Hash → Vote) → Reader Vote
read_hash_vote vote = do h ← read_bytes 32; pure (vote h)

unfoldable pub read_vote : Reader Vote
unfolding read_hash_vote
read_vote = do
  tag ← read_u8
  if tag == 0
      then pure no_candidate
      else if tag == 1
      then read_hash_vote valid
      else if tag == 2
      then read_hash_vote invalid
      else if tag == 3
      then pure no_quorum
      else fail Error.invalid_data

pub data RatificationResult : Type 0 where
  failure success : Vote → RatificationResult

abbrev pub result_vote : RatificationResult → Vote
result_vote (failure v) = v
result_vote (success v) = v

unfoldable pub failed : RatificationResult → Bool
failed (success _) = false
failed (failure _) = true

-- `impl From<Vote> for RatificationResult`
unfoldable pub from_vote : Vote → RatificationResult
from_vote (valid h) = success (valid h)
from_vote no_candidate = failure no_candidate
from_vote (invalid h) = failure (invalid h)
from_vote no_quorum = failure no_quorum

unfoldable pub write_ratification_result : RatificationResult → Bytes
write_ratification_result (failure v) = 0 ∷ write_vote v
write_ratification_result (success v) = 1 ∷ write_vote v

read_result_vote : (Vote → RatificationResult) → Reader RatificationResult
read_result_vote result = do v ← read_vote; pure (result v)

unfoldable pub read_ratification_result : Reader RatificationResult
unfolding read_result_vote
read_ratification_result = do
  tag ← read_u8
  if tag == 0
      then read_result_vote failure
      else if tag == 1
      then read_result_vote success
      else fail Error.invalid_data

pub data QuorumType : Type 0 where
  valid_quorum invalid_quorum no_candidate_quorum without_quorum : QuorumType

unfoldable pub write_quorum_type : QuorumType → Bytes
write_quorum_type valid_quorum = 0 ∷ []
write_quorum_type invalid_quorum = 1 ∷ []
write_quorum_type no_candidate_quorum = 2 ∷ []
write_quorum_type without_quorum = 255 ∷ []

-- `impl From<u8> for QuorumType`
unfoldable pub quorum_type_from : ℕ → QuorumType
quorum_type_from v =
    if v == 0
    then valid_quorum
    else if v == 1
    then invalid_quorum
    else if v == 2
    then no_candidate_quorum
    else without_quorum

unfoldable pub read_quorum_type : Reader QuorumType
unfolding quorum_type_from
read_quorum_type = do v ← read_u8; pure (quorum_type_from v)
