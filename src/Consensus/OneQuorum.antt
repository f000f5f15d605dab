-- ===== src/Consensus/OneQuorum.antt =====
-- Outside of emergency mode at most one vote of a step reaches its quorum.
use rusk.Prelude.{
  ℕ, ◌+◌, ◌≡◌, ◌≤◌, ◌<◌, refl, sym, true, false, Option, none, some, List, [], ◌∷◌, All, arith,
  Bool-cases, Option-cases, inl, inr, ◌==◌, if◌then◌else◌, ◌&&◌,
}
use rusk.Vm.{PublicKey, Bytes}
use rusk.Bytes.{bytes_eq_refl}
use rusk.Map.{Map, get, insert, contains_key, get-insert}
use rusk.Map.Weight.{total, total-insert}
use rusk.NodeData.Votes.{Vote, no_candidate, valid, invalid, no_quorum, StepName}
use rusk.Consensus.Committee.{Cluster, add, Committee, votes_for, total_weight}
use rusk.Consensus.Sortition.{credits_of}
use rusk.Consensus.Committees.{IsCommitteeOf}
use rusk.Consensus.OneVote.{vote_eq→eq, one_vote}
use rusk.Consensus.Aggregator.{
  StepVote, Entry, Aggregator, new_aggregator, vote_eq, set_entry, set_voters, count_vote, add_vote,
  register_vote, collect_vote, collect_all, is_emergency_iter, quorum_target,
}

-- The credits of the members that are in a cluster.
covered : Cluster → Map ℕ → ℕ
covered a [] = 0
covered a ((k, w) ∷ members) =
    let rest = covered a members in if contains_key k a then w + rest else rest

covered-le-insert :
    (k x : ℕ) (a : Cluster) (members : Map ℕ) → covered a members ≤ covered (insert k x a) members
unfolding covered contains_key
covered-le-insert k x a [] = omega arith
covered-le-insert k x a ((j, w) ∷ members) =
    ground (arith, covered-le-insert k x a members, get-insert k j x a)

covered-insert :
    (k x w : ℕ) (a : Cluster) (members : Map ℕ)
    → get k members ≡ some w
    → contains_key k a ≡ false
    → covered a members + w ≤ covered (insert k x a) members
unfolding covered contains_key get
covered-insert k x w a [] h new = cc
covered-insert k x w a ((j, v) ∷ members) h new = ground (
  arith,
  λ (h' : get k members ≡ some w). covered-insert k x w a members h' new,
  covered-le-insert k x a members,
  get-insert k j x a,
)

covered-disjoint :
    (a b : Cluster) (members : Map ℕ)
    → ((k : PublicKey) → contains_key k a ≡ true → contains_key k b ≡ true → ⊥)
    → covered a members + covered b members ≤ total (λ w. w) members
unfolding covered total
covered-disjoint a b [] apart = omega arith
covered-disjoint a b ((k, w) ∷ members) apart =
    let rest = covered-disjoint a b members apart in
    elim (Bool-cases (contains_key k a)) [
      | inl in_a ↦ elim (Bool-cases (contains_key k b)) [
        | inl in_b ↦ absurd (apart k in_a in_b)
        | inr out ↦ rw (in_a, out) (omega (arith, rest))
      ]
      | inr out ↦ rw out (ground (arith, rest))
    ]

covered-add :
    (k w : ℕ) (a : Cluster) (members : Map ℕ)
    → get k members ≡ some w
    → total_weight a ≤ covered a members
    → total_weight (add k w a).1 ≤ covered (add k w a).1 members
unfolding add total_weight contains_key
covered-add k w a members h below = ground (
  arith,
  total-insert (λ v. v) k w a,
  λ (new : contains_key k a ≡ false). covered-insert k w w a members h new,
)

pub vote_eq_refl : (v : Vote) → vote_eq v v ≡ true
unfolding vote_eq
vote_eq_refl no_candidate = refl
vote_eq_refl (valid h) = bytes_eq_refl h
vote_eq_refl (invalid h) = bytes_eq_refl h
vote_eq_refl no_quorum = refl

abbrev IsWithin : Committee → Cluster → Type 0
IsWithin c cluster = total_weight cluster ≤ covered cluster c.members

-- Each cluster of the step weighs no more than its members do in the committee.
abbrev IsCovered : Committee → ℕ → Aggregator → Type 0
IsCovered c step a = (vote : Vote) → IsWithin c (a.votes step vote).cluster

module _ (c : Committee) (step : ℕ) where
  set_entry-IsCovered :
      (v : StepVote) (a : Aggregator) (e : Entry)
      → (step ≡ v.step → IsWithin c e.cluster)
      → IsCovered c step a
      → IsCovered c step (record a { votes = set_entry v.step v.vote e a.votes })
  unfolding set_entry
  set_entry-IsCovered v a e h inv vote = elim (Bool-cases (step == v.step && vote_eq vote v.vote)) [
    | inl here ↦ rw here (h (ground arith))
    | inr other ↦ rw other (inv vote)
  ]

  module _ (aggregate : Option Bytes → Bytes → Option Bytes) (d : Committee) (v : StepVote) where
    count_vote-IsCovered :
        (a : Aggregator) (signature : Bytes) (r : Option ℕ × Cluster)
        → (step ≡ v.step → IsWithin c r.1)
        → IsCovered c step a
        → IsCovered c step (count_vote aggregate d v a signature r).0
    unfolding count_vote
    count_vote-IsCovered a signature (none, cluster) h inv = inv
    count_vote-IsCovered a signature (some added, cluster) h inv =
        set_entry-IsCovered v a (record { signature = some signature; cluster = cluster }) h inv

    module _ (weight : ℕ) (a : Aggregator)
        (credited : step ≡ v.step → get v.signer c.members ≡ some weight) where
      add_vote-IsCovered : IsCovered c step a → IsCovered c step (add_vote aggregate d v weight a).0
      unfolding add_vote
      add_vote-IsCovered inv =
          elim (Option-cases (aggregate (a.votes v.step v.vote).signature v.signature)) [
            | inl none_e ↦ rw (none_e, add_vote) inv
            | inr (sig, e) ↦
                rw (e, add_vote)
                  (count_vote-IsCovered a sig (add v.signer weight (a.votes v.step v.vote).cluster)
                    (λ here.
                      covered-add v.signer weight (a.votes v.step v.vote).cluster c.members
                        (credited here) (rw (sym here) (inv v.vote)))
                    inv)
          ]

    register_vote-IsCovered :
        (weight : ℕ) (a : Aggregator)
        → (step ≡ v.step → get v.signer c.members ≡ some weight)
        → IsCovered c step a
        → IsCovered c step (register_vote aggregate d v weight a).0
    unfolding register_vote
    register_vote-IsCovered weight a credited inv =
        elim (Option-cases (get v.signer (a.uniqueness v.step))) [
          | inl new ↦
              rw (new, register_vote)
                (add_vote-IsCovered weight
                  (record a {
                    uniqueness =
                        set_voters v.step (insert v.signer v (a.uniqueness v.step)) a.uniqueness;
                  })
                  credited inv)
          | inr (prev, e) ↦ rw (e, register_vote) inv
        ]

    collect_vote-IsCovered :
        (a : Aggregator)
        → is_emergency_iter v.iteration ≡ false
        → (step ≡ v.step → d ≡ c)
        → IsCovered c step a
        → IsCovered c step (collect_vote aggregate d v a).0
    unfolding collect_vote votes_for
    collect_vote-IsCovered a calm same inv = elim (Option-cases (get v.signer d.members)) [
      | inl outside ↦ rw (calm, outside, collect_vote) inv
      | inr (weight, e) ↦
          elim (Bool-cases (contains_key v.signer (a.votes v.step v.vote).cluster)) [
            | inl again ↦ rw (calm, e, again, collect_vote) inv
            | inr new ↦
                rw (calm, e, new, calm, collect_vote)
                  (register_vote-IsCovered weight a (λ here. rw (sym (same here)) e) inv)
          ]
    ]

-- A message outside of emergency mode that is checked against the committee, if it is of the step.
abbrev pub IsOf : Committee → ℕ → Committee × StepVote → Type 0
IsOf c step m = (is_emergency_iter m.1.iteration ≡ false) × (step ≡ m.1.step → m.0 ≡ c)

module _ (aggregate : Option Bytes → Bytes → Option Bytes) (c : Committee) (step : ℕ) where
  collect_all-IsCovered :
      (msgs : List (Committee × StepVote)) (a : Aggregator)
      → All (IsOf c step) msgs
      → IsCovered c step a
      → IsCovered c step (collect_all aggregate msgs a)
  unfolding collect_all
  collect_all-IsCovered [] a of inv = inv
  collect_all-IsCovered ((d, v) ∷ msgs) a ((calm, same), later) inv =
      collect_all-IsCovered msgs (collect_vote aggregate d v a).0 later
        (collect_vote-IsCovered c step aggregate d v a calm same inv)

  new_aggregator-IsCovered : IsCovered c step new_aggregator
  unfolding new_aggregator total_weight covered total
  new_aggregator-IsCovered vote = omega arith

  none_in_emergency :
      (msgs : List (Committee × StepVote))
      → All (IsOf c step) msgs
      → All (λ m. is_emergency_iter m.1.iteration ≡ false) msgs
  none_in_emergency [] h = tt
  none_in_emergency (m ∷ msgs) (hm, h) = (hm.0, none_in_emergency msgs h)

  half_le-target :
      (name : StepName)
      → IsCommitteeOf name c
      → (vote : Vote) → credits_of name < quorum_target c vote + quorum_target c vote
  half_le-target name h (valid x) = omega (arith, h.over_half, h.majority_below)
  half_le-target name h no_candidate = h.over_half
  half_le-target name h (invalid x) = h.over_half
  half_le-target name h no_quorum = h.over_half

  -- Whatever messages are collected, none of them in emergency mode and those of the step checked against
  -- the same committee: if this has the credits and quorums of a step, two votes of which the voters that
  -- are counted reach the quorum are one vote.
  pub one_quorum :
      (name : StepName)
      → IsCommitteeOf name c
      → (msgs : List (Committee × StepVote)) → All (IsOf c step) msgs
      → (vote vote' : Vote)
      → quorum_target c vote
        ≤ total_weight ((collect_all aggregate msgs new_aggregator).votes step vote).cluster
      → quorum_target c vote'
        ≤ total_weight ((collect_all aggregate msgs new_aggregator).votes step vote').cluster
      → vote ≡ vote'
  one_quorum name committee msgs of vote vote' h h' = elim (Bool-cases (vote_eq vote vote')) [
    | inl same ↦ vote_eq→eq vote vote' same
    | inr differ ↦
        let a = collect_all aggregate msgs new_aggregator in
        let inv = collect_all-IsCovered msgs new_aggregator of new_aggregator-IsCovered in
        let apart =
          covered-disjoint (a.votes step vote).cluster (a.votes step vote').cluster c.members
            (λ k x y.
              let same =
                one_vote aggregate msgs (none_in_emergency msgs of) step vote vote' k x y in
              let e : vote_eq vote vote' ≡ true = rw same (vote_eq_refl vote') in cc) in
        absurd (
          omega (
            arith,
            inv vote,
            inv vote',
            apart,
            h,
            h',
            committee.all_credits,
            half_le-target name committee vote,
            half_le-target name committee vote',
          ))
  ]
