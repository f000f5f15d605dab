-- ===== src/Stake/Accounting.antt =====
-- How each write changes what the stakes and the rewards are worth, exactly.
use rusk.Prelude.{
  ℕ, ◌+◌, ◌<◌, ◌≡◌, refl, ap, inl, inr, Option, none, some, List, [], ◌∷◌, arith, Option-cases,
}
use rusk.Vm.{Host, PublicKey, ok, u64_mod, ◌>>=◌}
use rusk.Vm.Ensures.{Ensures, Ensures-bind, Ensures-done, Ensures-mono, sub_u64-eq-ok}
use rusk.Map.{get}
use rusk.Map.Weight.{share, total, total-insert}
use rusk.Stake.Types.{StakeKeys, StakeData, Reward}
use rusk.Stake.State.{StakeState, get_stake, load_or_create_stake_mut, put}
use rusk.Stake.Penalty.{reward_all}
use rusk.Stake.Effects.{
  Adds, Takes, TakesReward, Slashes, Rewards, amount_of, reward_of, reward_one-Rewards,
}
use rusk.Stake.Payout.{settle}
use rusk.Stake.Funds.{
  amount_funds, entry_funds, entry_reward, funds, rewards, put-funds, put-rewards, remember-funds,
  remember-rewards, settle-funds, settle-rewards, take_reward-funds, take_reward-rewards,
  amount_funds-le-funds, share_funds, share_reward, take_from_amount-eq-ok, add_to_amount-eq-ok,
}

share_funds_of :
    (o : Option (StakeData × StakeKeys)) → share entry_funds o ≡ amount_funds (amount_of o)
share_funds_of none = refl
share_funds_of (some (d, k)) = refl

share-reward_of : (o : Option (StakeData × StakeKeys)) → share entry_reward o ≡ reward_of o
share-reward_of none = refl
share-reward_of (some (d, k)) = refl

load-eq-ok :
    (keys : StakeKeys) (s : StakeState) {d : StakeData} {k : StakeKeys}
    → load_or_create_stake_mut keys s ≡ ok (d, k)
    → (share entry_funds (get keys.account s.stakes) ≡ amount_funds d.amount)
      × (share entry_reward (get keys.account s.stakes) ≡ d.reward)
unfolding load_or_create_stake_mut ◌>>=◌
load-eq-ok keys s e = elim (Option-cases (get keys.account s.stakes)) [
  | inl new ↦ ground arith
  | inr ((d, k), old) ↦ ground arith
]

module _ (h : Host) (keys : StakeKeys) (value : ℕ) (s : StakeState) {s' : StakeState} where
  pub Adds-funds : Adds h keys value s s' → funds s' ≡ funds s + value
  Adds-funds e =
      let entry : StakeData × StakeKeys =
        (record e.data_before { amount = some e.amount }, e.keys_on_record) in
      let prev : Option StakeData = get_stake keys.account s in
      omega (
        arith,
        ap funds e.state,
        remember-funds keys.account prev (put keys.account entry s),
        put-funds keys.account entry s,
        load-eq-ok keys s e.loaded,
        add_to_amount-eq-ok h e.keys_on_record value e.data_before.amount e.added,
      )

  pub Adds-rewards : Adds h keys value s s' → rewards s' ≡ rewards s
  Adds-rewards e =
      let entry : StakeData × StakeKeys =
        (record e.data_before { amount = some e.amount }, e.keys_on_record) in
      let prev : Option StakeData = get_stake keys.account s in
      omega (
        arith,
        ap rewards e.state,
        remember-rewards keys.account prev (put keys.account entry s),
        put-rewards keys.account entry s,
        load-eq-ok keys s e.loaded,
      )

module _ (account : PublicKey) (value : ℕ) (s : StakeState) {s' : StakeState} where
  pub Takes-funds : funds s < u64_mod → Takes account value s s' → funds s' + value ≡ funds s
  Takes-funds bound e =
      let was : amount_funds e.data_before.amount ≡ e.amount.value + e.amount.locked =
        ap amount_funds e.staked in
      let kept = take_from_amount-eq-ok e.keys value e.amount e.taken in
      let most = amount_funds-le-funds account e.data_before e.keys s e.found in
      omega (
        arith,
        ap funds e.state,
        remember-funds account (some e.data_before) (settle account e.data_before e.keys e.left s),
        settle-funds account e.data_before e.keys s e.found e.left (omega (arith, was, kept, most)),
        was,
        kept,
      )

  pub Takes-rewards : Takes account value s s' → rewards s' ≡ rewards s
  Takes-rewards e = omega (
    arith,
    ap rewards e.state,
    remember-rewards account (some e.data_before) (settle account e.data_before e.keys e.left s),
    settle-rewards account e.data_before e.keys s e.found e.left,
  )

  pub TakesReward-funds : TakesReward account value s s' → funds s' ≡ funds s
  TakesReward-funds e =
      omega
        (arith, ap funds e.state, take_reward-funds account e.data_before e.keys s e.found e.reward)

  pub TakesReward-rewards : TakesReward account value s s' → rewards s' + value ≡ rewards s
  TakesReward-rewards e = omega (
    arith,
    ap rewards e.state,
    take_reward-rewards account e.data_before e.keys s e.found e.reward,
    sub_u64-eq-ok e.data_before.reward value e.lowered,
  )

  pub Slashes-funds : funds s < u64_mod → Slashes account value s s' → funds s' + value ≡ funds s
  unfolding funds
  Slashes-funds bound e =
      let was : amount_funds e.data_before.amount ≡ e.before.value + e.before.locked =
        ap amount_funds e.staked in
      let most = amount_funds-le-funds account e.data_before e.keys s e.found in
      omega (
        arith,
        ap (total entry_funds) e.stakes,
        total-insert entry_funds account (e.data_after, e.keys) s.stakes,
        share_funds account e.data_before e.keys s e.found,
        ap amount_funds e.still_staked,
        was,
        e.conserved (omega (arith, was, most)),
      )

  pub Slashes-rewards : Slashes account value s s' → rewards s' ≡ rewards s
  unfolding rewards
  Slashes-rewards e = omega (
    arith,
    ap (total entry_reward) e.stakes,
    total-insert entry_reward account (e.data_after, e.keys) s.stakes,
    share_reward account e.data_before e.keys s e.found,
    e.same_reward,
  )

  pub Rewards-funds : Rewards account value s s' → funds s' ≡ funds s
  Rewards-funds e = omega (
    arith,
    ap funds e.state,
    put-funds account (e.data_after, e.keys) s,
    share_funds_of (get account s.stakes),
    ap amount_funds e.same_amount,
  )

  pub Rewards-rewards : Rewards account value s s' → rewards s' ≡ rewards s + value
  Rewards-rewards e = omega (
    arith,
    ap rewards e.state,
    put-rewards account (e.data_after, e.keys) s,
    share-reward_of (get account s.stakes),
    e.raised,
  )

-- The sum that a list of rewards adds.
abbrev pub reward_sum : List Reward → ℕ
reward_sum [] = 0
reward_sum (r ∷ rs) = r.value + reward_sum rs

pub reward_all-rewards :
    (rs : List Reward) (s : StakeState)
    → Ensures
        (λ s'. (rewards s' ≡ rewards s + reward_sum rs) × (funds s' ≡ funds s))
        (reward_all rs s)
unfolding reward_all
reward_all-rewards [] s = Ensures-done _ (omega arith, refl)
reward_all-rewards (r ∷ rs) s = Ensures-bind _ _ λ s₁ first.
    Ensures-mono
      (λ s' (more, same). (
        omega
            (arith, Rewards-rewards r.account r.value s ((reward_one-Rewards r s).holds s₁ first)),
        omega (arith, Rewards-funds r.account r.value s ((reward_one-Rewards r s).holds s₁ first)),
      ))
      (reward_all-rewards rs s₁)
