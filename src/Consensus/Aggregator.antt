-- ===== src/Consensus/Aggregator.antt =====
-- consensus/src/aggregator.rs: the votes of a committee, collected by step and vote.
use rusk.Prelude.{
  ℕ, Bool, true, false, not, ◌&&◌, Option, none, some, List, [], ◌∷◌, ◌==◌, leb, if◌then◌else◌,
  replicate,
}
use rusk.Vm.{PublicKey, Bytes}
use rusk.Bytes.{bytes_eq}
use rusk.Map.{Map, get, insert, contains_key}
use rusk.NodeData.Votes.{Vote, no_candidate, valid, invalid, no_quorum}
use rusk.NodeData.Attestations.{StepVotes}
use rusk.Consensus.Committee.{Cluster, add, total_weight, Committee, votes_for, bits}

abbrev pub emergency_mode_iteration_threshold : ℕ
emergency_mode_iteration_threshold = 16

unfoldable pub is_emergency_iter : ℕ → Bool
is_emergency_iter iter = leb emergency_mode_iteration_threshold iter

-- What the aggregator reads of a Validation or a Ratification message.
pub record StepVote : Type 0 where
  pub iteration : ℕ
  pub step : ℕ
  pub vote : Vote
  pub signer : PublicKey
  pub signature : Bytes

-- `Vote::is_valid`
unfoldable pub is_valid_vote : Vote → Bool
is_valid_vote (valid h) = true
is_valid_vote no_candidate = false
is_valid_vote (invalid h) = false
is_valid_vote no_quorum = false

-- `==` on votes.
unfoldable pub vote_eq : Vote → Vote → Bool
vote_eq no_candidate no_candidate = true
vote_eq no_candidate (valid h) = false
vote_eq no_candidate (invalid h) = false
vote_eq no_candidate no_quorum = false
vote_eq (valid h) (valid h') = bytes_eq h h'
vote_eq (valid h) no_candidate = false
vote_eq (valid h) (invalid h') = false
vote_eq (valid h) no_quorum = false
vote_eq (invalid h) (invalid h') = bytes_eq h h'
vote_eq (invalid h) no_candidate = false
vote_eq (invalid h) (valid h') = false
vote_eq (invalid h) no_quorum = false
vote_eq no_quorum no_quorum = true
vote_eq no_quorum no_candidate = false
vote_eq no_quorum (valid h) = false
vote_eq no_quorum (invalid h) = false

-- `AggrSignature` with the cluster of its voters.
pub record Entry : Type 0 where
  pub signature : Option Bytes
  pub cluster : Cluster

-- The two maps are only read through `or_default` and `map_or(false, ..)`, so a missing entry is the
-- default one.
pub record Aggregator : Type 0 where
  pub votes : ℕ → Vote → Entry
  pub uniqueness : ℕ → Map StepVote

unfoldable pub new_aggregator : Aggregator
new_aggregator = record {
  votes = λ _ _. record { signature = none; cluster = [] };
  uniqueness = λ _. [];
}

unfoldable pub is_vote_collected : StepVote → Aggregator → Bool
is_vote_collected v a = contains_key v.signer (a.votes v.step v.vote).cluster

pub data AggregatorError : Type 0 where
  duplicated_vote : AggregatorError
  conflicting_vote : StepVote → AggregatorError
  not_committee_member invalid_signature : AggregatorError
  -- A panic of an `expect`.
  panicked : AggregatorError

pub data Collected : Type 0 where
  collected : StepVotes → Bool → Collected
  rejected : AggregatorError → Collected

unfoldable pub set_entry : ℕ → Vote → Entry → (ℕ → Vote → Entry) → ℕ → Vote → Entry
set_entry step vote e votes s w = if s == step && vote_eq w vote then e else votes s w

unfoldable pub set_voters : ℕ → Map StepVote → (ℕ → Map StepVote) → ℕ → Map StepVote
set_voters step voters uniqueness s = if s == step then voters else uniqueness s

abbrev pub default_step_votes : StepVotes
default_step_votes = record { bitset = 0; aggregate_signature = replicate 48 0 }

abbrev pub quorum_target : Committee → Vote → ℕ
quorum_target c (valid h) = c.super_majority
quorum_target c no_candidate = c.majority
quorum_target c (invalid h) = c.majority
quorum_target c no_quorum = c.majority

-- `aggregate` adds a signature to those before it; none if the bytes are no signature.
module _ (aggregate : Option Bytes → Bytes → Option Bytes) where
  -- Once the voter was added to the cluster.
  unfoldable pub count_vote :
      Committee → StepVote → Aggregator → Bytes → Option ℕ × Cluster → Aggregator × Collected
  unfolding set_entry
  count_vote c v a signature (none, cluster) = (a, rejected panicked)
  count_vote c v a signature (some added, cluster) = (
    record a {
      votes =
          set_entry v.step v.vote (record { signature = some signature; cluster = cluster })
            a.votes;
    },
    collected (record { bitset = bits c cluster; aggregate_signature = signature })
        (leb (quorum_target c v.vote) (total_weight cluster)),
  )

  -- From the aggregation of the signature on.
  unfoldable pub add_vote : Committee → StepVote → ℕ → Aggregator → Aggregator × Collected
  unfolding count_vote
  add_vote c v weight a =
      let entry = a.votes v.step v.vote in
      elim (aggregate entry.signature v.signature) [
        | none ↦ (a, rejected invalid_signature)
        | some signature ↦ count_vote c v a signature (add v.signer weight entry.cluster)
      ]

  -- Outside of emergency mode the voter is put down, unless it is already.
  unfoldable pub register_vote : Committee → StepVote → ℕ → Aggregator → Aggregator × Collected
  unfolding set_voters
  register_vote c v weight a = elim (get v.signer (a.uniqueness v.step)) [
    | some prev_vote ↦ (a, rejected (conflicting_vote prev_vote))
    | none ↦ add_vote c v weight (record a {
      uniqueness = set_voters v.step (insert v.signer v (a.uniqueness v.step)) a.uniqueness;
    })
  ]

  unfoldable pub collect_vote : Committee → StepVote → Aggregator → Aggregator × Collected
  unfolding is_emergency_iter is_valid_vote
  collect_vote c v a =
      if is_emergency_iter v.iteration && not (is_valid_vote v.vote)
      then (a, collected default_step_votes false)
      else elim (votes_for v.signer c) [
        | none ↦ (a, rejected not_committee_member)
        | some weight ↦
            if contains_key v.signer (a.votes v.step v.vote).cluster
            then (a, rejected duplicated_vote)
            else if is_emergency_iter v.iteration
            then add_vote c v weight a
            else register_vote c v weight a
      ]

  -- The votes of some messages, each with the committee of its step.
  unfoldable pub collect_all : List (Committee × StepVote) → Aggregator → Aggregator
  unfolding collect_vote
  collect_all [] a = a
  collect_all ((c, v) ∷ more) a = collect_all more (collect_vote c v a).0
