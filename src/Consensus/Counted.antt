-- ===== src/Consensus/Counted.antt =====
-- A vote that was counted is not counted again.
use rusk.Prelude.{
  ℕ, ◌≡◌, refl, Bool, true, false, Option, none, some, arith, Bool-cases, Option-cases, inl, inr,
  ◌==◌, ◌&&◌, not, subst,
}
use rusk.Vm.{Bytes}
use rusk.Map.{get, insert, contains_key, get-insert}
use rusk.NodeData.Attestations.{StepVotes}
use rusk.Consensus.Committee.{Cluster, add, Committee, votes_for}
use rusk.Consensus.OneQuorum.{vote_eq_refl}
use rusk.Consensus.Aggregator.{
  StepVote, Aggregator, set_entry, set_voters, count_vote, add_vote, register_vote,
  is_vote_collected, vote_eq, collect_vote, is_emergency_iter, is_valid_vote, Collected, collected,
  rejected, duplicated_vote, not_committee_member,
}

-- The outcome counts the vote, or it is no success.
abbrev IsCounted : StepVote → Aggregator × Collected → Type 0
IsCounted v (a, collected sv q) = is_vote_collected v a ≡ true
IsCounted v (a, rejected e) = Unit

contains-add-some :
    (k w : ℕ) (cluster : Cluster) (added : ℕ)
    → (add k w cluster).0 ≡ some added
    → contains_key k (add k w cluster).1 ≡ true
unfolding add contains_key
contains-add-some k w cluster added h = ground (arith, get-insert k k w cluster)

module _ (aggregate : Option Bytes → Bytes → Option Bytes) (c : Committee) (v : StepVote) where
  count_vote-IsCounted :
      (a : Aggregator) (signature : Bytes) (r : Option ℕ × Cluster)
      → ((added : ℕ) → r.0 ≡ some added → contains_key v.signer r.1 ≡ true)
      → IsCounted v (count_vote aggregate c v a signature r)
  unfolding count_vote is_vote_collected set_entry
  count_vote-IsCounted a signature (none, cluster) h = tt
  count_vote-IsCounted a signature (some added, cluster) h =
      let here : (v.step == v.step && vote_eq v.vote v.vote) ≡ true =
        ground (arith, vote_eq_refl v.vote) in
      rw here (h added refl)

  add_vote-IsCounted : (weight : ℕ) (a : Aggregator) → IsCounted v (add_vote aggregate c v weight a)
  unfolding add_vote
  add_vote-IsCounted weight a =
      elim (Option-cases (aggregate (a.votes v.step v.vote).signature v.signature)) [
        | inl none_e ↦ rw (none_e, add_vote) tt
        | inr (sig, e) ↦
            rw (e, add_vote)
              (count_vote-IsCounted a sig (add v.signer weight (a.votes v.step v.vote).cluster)
                (contains-add-some v.signer weight (a.votes v.step v.vote).cluster))
      ]

  register_vote-IsCounted :
      (weight : ℕ) (a : Aggregator) → IsCounted v (register_vote aggregate c v weight a)
  unfolding register_vote
  register_vote-IsCounted weight a = elim (Option-cases (get v.signer (a.uniqueness v.step))) [
    | inl new ↦
        rw (new, register_vote)
          (add_vote-IsCounted weight (record a {
            uniqueness = set_voters v.step (insert v.signer v (a.uniqueness v.step)) a.uniqueness;
          }))
    | inr (prev, e) ↦ rw (e, register_vote) tt
  ]

  module _ (kept : is_emergency_iter v.iteration && not (is_valid_vote v.vote) ≡ false) (weight : ℕ)
      (member : votes_for v.signer c ≡ some weight) where
    collect_vote-IsCounted : (a : Aggregator) → IsCounted v (collect_vote aggregate c v a)
    unfolding collect_vote
    collect_vote-IsCounted a =
        elim (Bool-cases (contains_key v.signer (a.votes v.step v.vote).cluster)) [
          | inl again ↦ rw (kept, member, again, collect_vote) tt
          | inr new ↦ elim (Bool-cases (is_emergency_iter v.iteration)) [
            | inl emergency ↦
                rw (kept, member, new, emergency, collect_vote) (add_vote-IsCounted weight a)
            | inr calm ↦
                rw (kept, member, new, calm, collect_vote) (register_vote-IsCounted weight a)
          ]
        ]

    again_refused :
        (a : Aggregator)
        → is_vote_collected v a ≡ true
        → collect_vote aggregate c v a ≡ (a, rejected duplicated_vote)
    unfolding collect_vote is_vote_collected
    again_refused a there = rw (kept, member, there, collect_vote) refl

  only_members :
      (a a' : Aggregator) (votes : StepVotes) (reached : Bool)
      → is_emergency_iter v.iteration && not (is_valid_vote v.vote) ≡ false
      → votes_for v.signer c ≡ none
      → collect_vote aggregate c v a ≡ (a', collected votes reached)
      → ⊥
  unfolding collect_vote
  only_members a a' votes reached kept outside h =
      let e : Path (Aggregator × Collected) (a, rejected not_committee_member)
          (a', collected votes reached) =
        rw (kept, outside, collect_vote) at h in
      cc

  -- Once the aggregator has answered a message with votes, and does not skip the message as one of
  -- emergency mode, it refuses the same message as a duplicate and keeps its state.
  pub counted_once :
      (a a' : Aggregator) (votes : StepVotes) (reached : Bool)
      → is_emergency_iter v.iteration && not (is_valid_vote v.vote) ≡ false
      → collect_vote aggregate c v a ≡ (a', collected votes reached)
      → collect_vote aggregate c v a' ≡ (a', rejected duplicated_vote)
  counted_once a a' votes reached kept h = elim (Option-cases (votes_for v.signer c)) [
    | inl outside ↦ absurd (only_members a a' votes reached kept outside h)
    | inr (weight, member) ↦
        again_refused kept weight member a'
          (subst (IsCounted v) h (collect_vote-IsCounted kept weight member a))
  ]
