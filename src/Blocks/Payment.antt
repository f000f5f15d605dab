-- ===== src/Blocks/Payment.antt =====
-- The rewards of a block add up to what it brings in.
use rusk.Prelude.{ℕ, ◌+◌, ◌-◌, ◌*◌, ◌/◌, ◌%◌, ◌^◌, ◌≡◌, ◌≤◌, ◌<◌, ap, List, [], ◌∷◌, ◌++◌, arith}
use native.Mathlib.Nat.{mod-eq_of_lt, mul-le-mul, add-mul}
use rusk.Vm.{PublicKey}
use rusk.Stake.Types.{Reward}
use rusk.Blocks.Emission.{emission_amount}
use rusk.Blocks.Rewards.{
  Voter, coinbase_value, calc_generator_extra_reward, sum_credits, credits_in, voter_rewards,
  extra_reward, block_rewards, all_credits, validation_quorum, validation_extra,
}
use rusk.Consensus.Sortition.{supermajority_of}

abbrev pub paid : List Reward → ℕ
paid [] = 0
paid (r ∷ rs) = r.value + paid rs

paid-append : (rs ts : List Reward) → paid (rs ++ ts) ≡ paid rs + paid ts
paid-append [] ts = omega arith
paid-append (r ∷ rs) ts = omega (arith, paid-append rs ts)

paid-extra_reward :
    (generator : PublicKey) (value : ℕ) → paid (extra_reward generator value) ≡ value
unfolding extra_reward
paid-extra_reward generator value = ground arith

paid-voter_rewards :
    (each : ℕ) (voters : List Voter)
    → sum_credits voters * each < 2 ^ 64
    → paid (voter_rewards each voters) ≡ sum_credits voters * each
unfolding voter_rewards
paid-voter_rewards each [] h = omega arith
paid-voter_rewards each ((k, credits) ∷ voters) h =
    let split : (credits + sum_credits voters) * each ≡ credits * each + sum_credits voters * each =
      add-mul credits (sum_credits voters) each in
    omega (arith, split, paid-voter_rewards each voters (omega (arith, split)))

extra-le :
    (extra credits : ℕ) → credits ≤ all_credits → calc_generator_extra_reward extra credits ≤ extra
unfolding calc_generator_extra_reward validation_extra validation_quorum supermajority_of
extra-le extra credits h =
    let few_seats : credits - 86 ≤ 42 = omega arith in
    let same_share : extra / 42 ≤ extra / 42 = omega arith in
    let share : (credits - 86) * (extra / 42) ≤ 42 * (extra / 42) =
      mul-le-mul few_seats same_share in
    ground (arith, share)

extra-all :
    (extra credits : ℕ) → credits ≡ all_credits → calc_generator_extra_reward extra credits ≡ extra
unfolding calc_generator_extra_reward
extra-all extra credits h = ground arith

-- The rewards of a block, where the voters have at most the credits of both committees and the sum of what
-- the block mints and its transactions spent fits in 64 bits: they pay out no more than that sum, and
-- if the voters have all the credits, less than one Lux for each credit stays behind.
pub paid-block_rewards :
    (dusk_key : PublicKey) (block_height dusk_spent : ℕ) (generator : PublicKey)
    (voters : List Voter)
    → sum_credits voters ≤ all_credits
    → emission_amount block_height + dusk_spent < 2 ^ 64
    → (paid (block_rewards dusk_key block_height dusk_spent generator voters)
        ≤ emission_amount block_height + dusk_spent)
      × (sum_credits voters ≡ all_credits
          → emission_amount block_height + dusk_spent
            < paid (block_rewards dusk_key block_height dusk_spent generator voters) + all_credits)
unfolding block_rewards coinbase_value credits_in
paid-block_rewards dusk_key block_height dusk_spent generator voters few fits =
    let value = emission_amount block_height + dusk_spent in
    let whole : value % 2 ^ 64 ≡ value = mod-eq_of_lt fits in
    let tenth = value / 10 in
    let credits : sum_credits voters % 2 ^ 64 ≡ sum_credits voters =
      mod-eq_of_lt (omega (arith, few)) in
    let each_le : sum_credits voters * (tenth / 128) ≤ 128 * (tenth / 128) =
      mul-le-mul few (omega arith) in
    let voters_paid : paid (voter_rewards (tenth / 128) voters)
        ≡ sum_credits voters * (tenth / 128) =
      paid-voter_rewards (tenth / 128) voters (omega (arith, each_le, fits)) in
    let extra = calc_generator_extra_reward tenth (sum_credits voters) in
    let sum : paid (extra_reward generator extra ++ voter_rewards (tenth / 128) voters)
        ≡ extra + sum_credits voters * (tenth / 128) =
      omega (
        arith,
        paid-append (extra_reward generator extra) (voter_rewards (tenth / 128) voters),
        paid-extra_reward generator extra,
        voters_paid,
      ) in
    rw (whole, credits)
      (
        omega (arith, sum, extra-le tenth (sum_credits voters) few, each_le),
        λ full. omega (
          arith,
          sum,
          extra-all tenth (sum_credits voters) full,
          ap (λ (c : ℕ). c * (tenth / 128)) full,
        ),
      )
