-- ===== src/Consensus/Examples.antt =====
-- Runs on a committee of three members and on a single provisioner.
use rusk.Prelude.{
  ◌<◌, ◌≤◌, ◌&&◌, not, ◌≡◌, ◌≢◌, ◌^◌, Option, some, [], ◌∷◌, arith, List, length, All, refl, true,
  false,
}
use rusk.Vm.{PublicKey, Bytes}
use rusk.Map.{Map, get, insert, contains_key}
use rusk.Map.Weight.{total}
use rusk.NodeData.Votes.{StepName, Vote, no_candidate, no_quorum}
use rusk.Consensus.Sortition.{
  Stake, stake_value, eligibles, is_eligible, from_provisioners, without, is_excluded, new_config,
  done, create_committee, new_committee,
}
use rusk.Consensus.Committees.{IsVoter, IsCommitteeOf, create_committee_full, new_committee_quorums}
use rusk.Consensus.Aggregator.{
  StepVote, is_emergency_iter, quorum_target, is_valid_vote, new_aggregator, collect_all,
  collect_vote, register_vote, add_vote, count_vote, set_entry, set_voters, vote_eq, Aggregator,
  collected, rejected, duplicated_vote,
}
use rusk.Consensus.OneVote.{one_vote}
use rusk.Consensus.Counted.{counted_once}
use rusk.Consensus.OneQuorum.{one_quorum}
use rusk.Consensus.Committee.{
  Committee, Cluster, bits, intersect, votes_for, add, total_weight, bits_from,
}
use rusk.Consensus.VoterBits.{intersect-bits}

abbrev committee : Committee
committee = record {
  members = (3, 10) ∷ (5, 1) ∷ (9, 53) ∷ [];
  super_majority = 43;
  majority = 33;
  excluded = [];
}

abbrev voters : Cluster
voters = (4, 1) ∷ (5, 1) ∷ (9, 53) ∷ []

intersect-bits_example : get 9 (intersect committee (bits committee voters)) ≡ some 53
unfolding contains_key get
intersect-bits_example =
    intersect-bits committee voters 9 (omega arith, (omega arith, (omega arith, tt)))
      (omega arith, (omega arith, (omega arith, tt)))

abbrev provisioners : Map Stake
provisioners = (7, record { value = 2000000000000; eligible_since = 0 }) ∷ []

one_eligible : eligibles 5 provisioners ≢ []
unfolding eligibles is_eligible
one_eligible = λ e. cc

little_weight : total stake_value (from_provisioners provisioners 5 (3 ∷ [])) < 2 ^ 64
unfolding from_provisioners without is_excluded eligibles is_eligible total
little_weight = omega arith

create_committee_full_example :
    (pks : List PublicKey) × (create_committee 1
        (λ _. 5)
        provisioners
        (new_config [] 5 0 StepName.validation (3 ∷ []))
      ≡ done pks)
    × (length pks ≡ 64)
    × All (IsVoter provisioners 5) pks
create_committee_full_example =
    create_committee_full 0 (λ _. 5) provisioners [] 5 0 StepName.validation (3 ∷ []) one_eligible
      little_weight

new_committee_quorums_example :
    (c : Committee) × (new_committee 1
        (λ _. 5)
        provisioners
        (new_config [] 5 0 StepName.ratification (3 ∷ []))
      ≡ done c)
    × IsCommitteeOf StepName.ratification c
    × ((voters : Cluster) → bits c voters < 2 ^ 64)
new_committee_quorums_example =
    new_committee_quorums 0 (λ _. 5) provisioners [] 5 0 StepName.ratification (3 ∷ []) one_eligible
      little_weight

abbrev vote_of : PublicKey → Vote → Committee × StepVote
vote_of signer vote =
    (committee, record { iteration = 0; step = 1; vote = vote; signer = signer; signature = [] })

abbrev aggregate : Option Bytes → Bytes → Option Bytes
aggregate before signature = some signature

-- The second vote of 9 is refused, that of 5 is counted.
abbrev messages : List (Committee × StepVote)
messages = vote_of 9 no_candidate ∷ vote_of 9 no_quorum ∷ vote_of 5 no_quorum ∷ []

calm : is_emergency_iter 0 ≡ false
unfolding is_emergency_iter
calm = refl

counted :
    contains_key 9 ((collect_all aggregate messages new_aggregator).votes 1 no_candidate).cluster
    ≡ true
unfolding collect_all contains_key get new_aggregator collect_vote register_vote add_vote count_vote
    set_entry set_voters vote_eq is_emergency_iter is_valid_vote votes_for add insert
counted = refl

one_vote_example : no_candidate ≡ no_candidate
one_vote_example =
    one_vote aggregate messages (calm, (calm, (calm, tt))) 1 no_candidate no_candidate 9 counted
      counted

-- As a validation committee.
committee-IsCommitteeOf : IsCommitteeOf StepName.validation committee
unfolding total
committee-IsCommitteeOf = record {
  all_credits = omega arith;
  few_members = omega arith;
  majority_below = omega arith;
  over_half = omega arith;
  reachable = omega arith;
  overlap = omega arith;
}

enough :
    quorum_target committee no_candidate
    ≤ total_weight ((collect_all aggregate messages new_aggregator).votes 1 no_candidate).cluster
unfolding collect_all contains_key get new_aggregator collect_vote register_vote add_vote count_vote
    set_entry set_voters vote_eq is_emergency_iter is_valid_vote votes_for add insert total_weight
    total
enough = omega arith

one_quorum_example : no_candidate ≡ no_candidate
one_quorum_example =
    one_quorum aggregate committee 1 StepName.validation committee-IsCommitteeOf messages
      ((calm, λ _. refl), ((calm, λ _. refl), ((calm, λ _. refl), tt))) no_candidate no_candidate
      enough enough

abbrev nine : StepVote
nine = (vote_of 9 no_candidate).1

abbrev with_nine : Aggregator
with_nine = (collect_vote aggregate committee nine new_aggregator).0

nine_counts :
    collect_vote aggregate committee nine new_aggregator
    ≡ (with_nine, collected (record { bitset = 4; aggregate_signature = [] }) true)
unfolding contains_key get new_aggregator collect_vote register_vote add_vote count_vote set_entry
    set_voters vote_eq is_emergency_iter is_valid_vote votes_for add insert total_weight total bits
    bits_from
nine_counts = refl

nine_kept : is_emergency_iter 0 && not (is_valid_vote no_candidate) ≡ false
unfolding is_emergency_iter
nine_kept = refl

counted_once_example :
    collect_vote aggregate committee nine with_nine ≡ (with_nine, rejected duplicated_vote)
counted_once_example =
    counted_once aggregate committee nine new_aggregator with_nine
      (record { bitset = 4; aggregate_signature = [] }) true nine_kept nine_counts
