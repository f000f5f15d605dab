-- ===== src/Consensus/Committees.antt =====
-- The committee that the sortition gives, whatever the hashes.
use rusk.Prelude.{
  ℕ, suc, ◌+◌, ◌^◌, ◌≤◌, ◌<◌, ◌≡◌, ◌≢◌, refl, ap, ◌∙◌, true, List, [], ◌∷◌, length, All, arith,
  Bool-cases, ◌⊎◌, inl, inr, leb, ◌&&◌, unwrap_or, Option-cases, ◌/◌,
}
use rusk.Vm.{PublicKey, Bytes}
use rusk.Map.{Map, get, insert}
use rusk.Map.Weight.{total, total-insert}
use rusk.Stake.Types.{default_minimum_stake}
use rusk.NodeData.Votes.{StepName}
use rusk.Consensus.Committee.{Committee, Cluster, bits}
use rusk.Consensus.VoterBits.{bits-lt}
use rusk.Consensus.Sortition.{
  Stake, stake_value, is_eligible, eligibles, without, is_excluded, or_all, from_provisioners,
  new_config, credits_of, done, draw, create_committee, create_sortition_hash, generator_weight,
  majority_of, supermajority_of, tally, committee_of, new_committee,
}
use native.Mathlib.Nat.{mod-eq_of_lt}
use rusk.Consensus.Extraction.{Keys, draw-IsDrawn}

abbrev pub Holds : PublicKey → Stake → Map Stake → Type 0
Holds pk s [] = ⊥
Holds pk s ((k, t) ∷ members) = ((k ≡ pk) × (t ≡ s)) ⊎ Holds pk s members

-- A provisioner that may vote in the round: its stake is old enough and large enough.
pub record IsVoter (provisioners : Map Stake) (round : ℕ) (pk : PublicKey) : Type 0 where
  pub stake : Stake
  pub staked : Holds pk stake provisioners
  pub old_enough : stake.eligible_since ≤ round
  pub large_enough : default_minimum_stake ≤ stake.value

module _ (provisioners : Map Stake) (round : ℕ) where
  -- An entry that stays in the extraction.
  abbrev IsEntry : PublicKey × Stake → Type 0
  IsEntry m = IsVoter provisioners round m.0 × (default_minimum_stake ≤ m.1.value)

  eligible-IsEntry :
      (pk : PublicKey) (s : Stake)
      → Holds pk s provisioners
      → is_eligible round s && leb default_minimum_stake s.value ≡ true
      → IsEntry (pk, s)
  unfolding is_eligible
  eligible-IsEntry pk s h e = (
    record { stake = s; staked = h; old_enough = ground arith; large_enough = ground arith },
    ground arith,
  )

  eligible_entries :
      (members : Map Stake)
      → ((pk : PublicKey) (s : Stake) → Holds pk s members → Holds pk s provisioners)
      → All IsEntry (eligibles round members)
  unfolding eligibles
  eligible_entries [] inside = tt
  eligible_entries ((pk, s) ∷ members) inside =
      let later = eligible_entries members (λ k t h. inside k t (inr h)) in
      elim (Bool-cases (is_eligible round s && leb default_minimum_stake s.value)) [
        | inl e ↦ rw e (eligible-IsEntry pk s (inside pk s (inl (refl, refl))) e, later)
        | inr e ↦ rw e later
      ]

  kept_entries :
      (exclusion : List PublicKey) (members : Map Stake)
      → All IsEntry members
      → All IsEntry (without exclusion members)
  unfolding without
  kept_entries exclusion [] h = tt
  kept_entries exclusion ((pk, s) ∷ members) (hm, h) =
      elim (Bool-cases (is_excluded exclusion pk)) [
        | inl e ↦ rw e (kept_entries exclusion members h)
        | inr e ↦ rw e (hm, kept_entries exclusion members h)
      ]

  some_entries :
      (members all : Map Stake)
      → All IsEntry members
      → All IsEntry all
      → All IsEntry (or_all members all)
  some_entries [] all h k = k
  some_entries (m ∷ members) all h k = h

  entries-Keys :
      (members : Map Stake) → All IsEntry members → Keys (IsVoter provisioners round) members
  entries-Keys [] h = tt
  entries-Keys (m ∷ members) (hm, h) = (hm.0, entries-Keys members h)

  large_total :
      (members : Map Stake)
      → members ≢ []
      → All IsEntry members
      → default_minimum_stake ≤ total stake_value members
  unfolding total
  large_total [] some_member h = absurd (some_member refl)
  large_total (m ∷ members) some_member (hm, h) = omega (arith, hm.1)

or_all-ne-nil : (members all : Map Stake) → all ≢ [] → or_all members all ≢ []
or_all-ne-nil [] all h e = h e
or_all-ne-nil (m ∷ members) all h e = cc

credits_few : (step : StepName) → credits_of step ≤ 64
credits_few StepName.proposal = omega arith
credits_few StepName.validation = omega arith
credits_few StepName.ratification = omega arith

-- Where a provisioner is eligible in the round and the weights that are drawn from fit in 64 bits, the
-- extraction of a committee returns after one round of the inner loop for each credit, whatever the
-- hashes: one key for each credit of the step, each of a provisioner that is eligible.
pub create_committee_full :
    (fuel : ℕ) (sha3 : Bytes → ℕ) (provisioners : Map Stake) (seed : Bytes) (round iteration : ℕ)
    (step : StepName) (exclusion : List PublicKey)
    → eligibles round provisioners ≢ []
    → total stake_value (from_provisioners provisioners round exclusion) < 2 ^ 64
    → (pks : List PublicKey) × (create_committee
          (suc fuel)
          sha3
          provisioners
          (new_config seed round iteration step exclusion)
        ≡ done pks)
      × (length pks ≡ credits_of step)
      × All (IsVoter provisioners round) pks
unfolding create_committee new_config generator_weight
create_committee_full fuel sha3 provisioners seed round iteration step exclusion some_voter fits =
    let all = eligibles round provisioners in
    let entries = eligible_entries provisioners round provisioners (λ pk s h. h) in
    let members = from_provisioners provisioners round exclusion in
    let kept : All (IsEntry provisioners round) members =
      some_entries provisioners round (without exclusion all) all
        (kept_entries provisioners round exclusion all entries) entries in
    let large : default_minimum_stake ≤ total stake_value members =
      large_total provisioners round members (or_all-ne-nil (without exclusion all) all some_voter)
        kept in
    let (pks, e, d) =
      draw-IsDrawn (IsVoter provisioners round) fuel
        (create_sortition_hash sha3 (new_config seed round iteration step exclusion))
        (credits_of step) 0 members (entries-Keys provisioners round members kept) (omega arith) in
    (
      pks,
      ap
            (λ (w : ℕ).
              draw (suc fuel)
                (create_sortition_hash sha3 (new_config seed round iteration step exclusion))
                (credits_of step) 0 members w)
            (mod-eq_of_lt fits)
          ∙ e,
      d.enough (omega (arith, credits_few step, large)),
      d.drawn_members,
    )

total-tally :
    (pks : List PublicKey) (m : Map ℕ)
    → total (λ w. w) (tally pks m) ≡ total (λ w. w) m + length pks
unfolding tally
total-tally [] m = omega arith
total-tally (pk ∷ pks) m = ground (
  arith,
  total-tally pks (insert pk (unwrap_or (get pk m) 0 + 1) m),
  total-insert (λ w. w) pk (unwrap_or (get pk m) 0 + 1) m,
  Option-cases (get pk m),
)

length-insert-le : (k v : ℕ) (m : Map ℕ) → length (insert k v m) ≤ suc (length m)
unfolding insert
length-insert-le k v [] = omega arith
length-insert-le k v ((j, w) ∷ m) = ground (arith, length-insert-le k v m)

length-tally-le : (pks : List PublicKey) (m : Map ℕ) → length (tally pks m) ≤ length m + length pks
unfolding tally
length-tally-le [] m = omega arith
length-tally-le (pk ∷ pks) m = omega (
  arith,
  length-tally-le pks (insert pk (unwrap_or (get pk m) 0 + 1) m),
  length-insert-le pk (unwrap_or (get pk m) 0 + 1) m,
)

-- What a committee of a step is.
pub record IsCommitteeOf (step : StepName) (c : Committee) : Type 0 where
  pub all_credits : total (λ w. w) c.members ≡ credits_of step
  pub few_members : length c.members ≤ credits_of step
  pub majority_below : c.majority ≤ c.super_majority
  pub over_half : credits_of step < c.majority + c.majority
  pub reachable : c.super_majority ≤ total (λ w. w) c.members
  -- Two sets of credits that reach the supermajority overlap in more than a quarter of the credits.
  pub overlap : credits_of step + credits_of step / 4 < c.super_majority + c.super_majority

quorums :
    (step : StepName)
    → (majority_of (credits_of step) ≤ supermajority_of (credits_of step))
      × (credits_of step < majority_of (credits_of step) + majority_of (credits_of step))
      × (supermajority_of (credits_of step) ≤ credits_of step)
      × (credits_of step + credits_of step / 4
          < supermajority_of (credits_of step) + supermajority_of (credits_of step))
unfolding majority_of supermajority_of
quorums StepName.proposal = omega arith
quorums StepName.validation = omega arith
quorums StepName.ratification = omega arith

-- Where a provisioner is eligible in the round and the weights that are drawn from fit in 64 bits, the
-- committee of a step is created, whatever the hashes. It has exactly the credits of the step and at most
-- so many members. Its majority is more than half of the credits and at most its supermajority, which its
-- members reach. Two sets of credits that reach the supermajority overlap in more than a quarter of the
-- credits, and the bit set of any voters fits in 64 bits.
pub new_committee_quorums :
    (fuel : ℕ) (sha3 : Bytes → ℕ) (provisioners : Map Stake) (seed : Bytes) (round iteration : ℕ)
    (step : StepName) (exclusion : List PublicKey)
    → eligibles round provisioners ≢ []
    → total stake_value (from_provisioners provisioners round exclusion) < 2 ^ 64
    → (c : Committee) × (new_committee
          (suc fuel)
          sha3
          provisioners
          (new_config seed round iteration step exclusion)
        ≡ done c)
      × IsCommitteeOf step c
      × ((voters : Cluster) → bits c voters < 2 ^ 64)
unfolding new_committee new_config total
new_committee_quorums fuel sha3 provisioners seed round iteration step exclusion some_voter fits =
    let (pks, e, full, voters) =
      create_committee_full fuel sha3 provisioners seed round iteration step exclusion some_voter
        fits in
    let cfg = new_config seed round iteration step exclusion in
    let c : Committee = record {
      members = tally pks [];
      super_majority = supermajority_of (credits_of step);
      majority = majority_of (credits_of step);
      excluded = exclusion;
    } in
    let (below, half, reach, two) = quorums step in
    let few : length (tally pks []) ≤ credits_of step =
      omega (arith, length-tally-le pks [], full) in
    let credits : total (λ w. w) (tally pks []) ≡ credits_of step =
      omega (arith, total-tally pks [], full) in
    (
      c,
      ap (committee_of cfg) e,
      record {
        all_credits = credits;
        few_members = few;
        majority_below = below;
        over_half = half;
        reachable = omega (arith, reach, credits);
        overlap = two;
      },
      λ v. bits-lt c v (omega (arith, few, credits_few step)),
    )
