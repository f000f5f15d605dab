-- ===== src/Blocks/Rewards.antt =====
-- rusk/src/lib/node.rs and rusk/src/lib/node/rusk.rs: who is paid for a block.
use rusk.Prelude.{
  ℕ, ◌+◌, ◌-◌, ◌*◌, ◌/◌, ◌%◌, ◌^◌, Bool, not, ◌&&◌, List, [], ◌∷◌, ◌++◌, ltb, ◌==◌, if◌then◌else◌,
}
use rusk.Vm.{PublicKey}
use rusk.Stake.Types.{Reward, RewardReason}
use rusk.NodeData.Votes.{StepName}
use rusk.Consensus.Sortition.{credits_of, supermajority_of}
use rusk.Blocks.Emission.{emission_amount}

pub record Coinbase : Type 0 where
  pub dusk_value : ℕ
  pub generator_fixed_value : ℕ
  pub generator_extra_value : ℕ
  pub voters_value : ℕ

-- The sum is on 64 bits. Three tenths are taken from it, so the differences do not wrap.
unfoldable pub coinbase_value : ℕ → ℕ → Coinbase
coinbase_value block_height dusk_spent =
    let reward_value = (emission_amount block_height + dusk_spent) % 2 ^ 64 in
    let one_tenth_reward = reward_value / 10 in
    record {
      dusk_value = one_tenth_reward;
      generator_fixed_value = reward_value - one_tenth_reward - one_tenth_reward - one_tenth_reward;
      generator_extra_value = one_tenth_reward;
      voters_value = one_tenth_reward;
    }

abbrev pub all_credits : ℕ
all_credits = credits_of StepName.validation + credits_of StepName.ratification

unfoldable pub validation_quorum : ℕ
unfolding supermajority_of
validation_quorum = supermajority_of (credits_of StepName.validation)

unfoldable pub ratification_quorum : ℕ
unfolding supermajority_of
ratification_quorum = supermajority_of (credits_of StepName.ratification)

unfoldable pub validation_extra : ℕ
unfolding validation_quorum
validation_extra = credits_of StepName.validation - validation_quorum

unfoldable pub ratification_extra : ℕ
unfolding ratification_quorum
ratification_extra = credits_of StepName.ratification - ratification_quorum

unfoldable pub calc_generator_extra_reward : ℕ → ℕ → ℕ
unfolding validation_extra ratification_extra
calc_generator_extra_reward generator_extra_reward credits =
    if credits == all_credits
    then generator_extra_reward
    else (credits - (ratification_quorum + validation_quorum))
      * (generator_extra_reward / (validation_extra + ratification_extra))
      % 2 ^ 64

-- A key with its credits.
abbrev pub Voter : Type 0
Voter = PublicKey × ℕ

abbrev pub sum_credits : List Voter → ℕ
sum_credits [] = 0
sum_credits ((_, credits) ∷ voters) = credits + sum_credits voters

-- On 64 bits.
unfoldable pub credits_in : List Voter → ℕ
credits_in voters = sum_credits voters % 2 ^ 64

abbrev no_voters : List Voter → Bool
no_voters [] = Bool.true
no_voters (v ∷ voters) = Bool.false

-- `InvalidCreditsCount`
unfoldable pub has_no_credits : ℕ → List Voter → Bool
unfolding credits_in
has_no_credits block_height voters =
    not (no_voters voters) && (credits_in voters == 0 && ltb 1 block_height)

unfoldable pub voter_rewards : ℕ → List Voter → List Reward
voter_rewards credit_reward [] = []
voter_rewards credit_reward ((voter, credits) ∷ voters) =
    record {
      account = voter;
      value = credits * credit_reward % 2 ^ 64;
      reason = RewardReason.voter;
    }
    ∷ voter_rewards credit_reward voters

unfoldable pub extra_reward : PublicKey → ℕ → List Reward
extra_reward generator value =
    if value == 0
    then []
    else record { account = generator; value = value; reason = RewardReason.generator_extra } ∷ []

-- The list that is handed to the stake contract; `dusk_key` is `DUSK_CONSENSUS_KEY`.
unfoldable pub block_rewards : PublicKey → ℕ → ℕ → PublicKey → List Voter → List Reward
unfolding coinbase_value calc_generator_extra_reward credits_in voter_rewards extra_reward
block_rewards dusk_key block_height dusk_spent generator voters =
    let coinbase = coinbase_value block_height dusk_spent in
    record {
      account = generator;
      value = coinbase.generator_fixed_value;
      reason = RewardReason.generator_fixed;
    }
    ∷ (record { account = dusk_key; value = coinbase.dusk_value; reason = RewardReason.other }
        ∷ (extra_reward generator
              (calc_generator_extra_reward coinbase.generator_extra_value (credits_in voters))
            ++ voter_rewards (coinbase.voters_value / all_credits) voters))
