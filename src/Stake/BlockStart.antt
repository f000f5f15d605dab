-- ===== src/Stake/BlockStart.antt =====
-- The stakes as they stood when the block began. `previous_block_state` keeps, for each account,
-- what it had before the first change in the block, so a reader can undo the block's changes.
use rusk.Prelude.{
  ℕ, ◌≡◌, refl, ap, inl, inr, Option, none, some, List, [], ◌∷◌, arith, ◌==◌, ◌∙◌, false,
}
use rusk.Vm.{Host, PublicKey}
use rusk.Vm.Ensures.{Ensures, Ensures-bind, Ensures-done, Ensures-mono}
use rusk.Map.{get, insert, or_insert, get-insert, get-or_insert}
use rusk.Map.Sorted.{IsSorted, get-remove}
use rusk.Stake.Types.{StakeKeys, StakeData, StakeAmount, Reward}
use rusk.Stake.State.{StakeState, get_stake, remember, put}
use rusk.Stake.Payout.{settle, take_reward}
use rusk.Stake.Penalty.{reward_all}
use rusk.Stake.Effects.{Adds, Takes, TakesReward, Slashes, Rewards, amount_of, reward_one-Rewards}
use rusk.Stake.Invariant.{IsWellFormed, Rewrites, settle-Rewrites}

abbrev pub data_amount : Option StakeData → Option StakeAmount
data_amount none = none
data_amount (some d) = d.amount

-- The amount that an account had staked when the block began, read back from the current state.
unfoldable pub block_start : StakeState → PublicKey → Option StakeAmount
block_start s k = elim (get k s.previous_block_state) [
  | none ↦ amount_of (get k s.stakes)
  | some (before, _) ↦ data_amount before
]

abbrev pub SameStart : StakeState → StakeState → Type 0
SameStart s s' = (k : PublicKey) → block_start s' k ≡ block_start s k

remember_start :
    (a : PublicKey) (p : Option StakeData) (s s' : StakeState)
    → s'.previous_block_state ≡ or_insert a (p, a) s.previous_block_state
    → data_amount p ≡ amount_of (get a s.stakes)
    → ((k : PublicKey) → (k == a) ≡ false → get k s'.stakes ≡ get k s.stakes)
    → SameStart s s'
unfolding block_start
remember_start a p s s' same before others k =
    rw same (ground (arith, get-or_insert a k (p, a) s.previous_block_state, others k, before))

quiet_start :
    (s s' : StakeState)
    → s'.previous_block_state ≡ s.previous_block_state
    → ((k : PublicKey) → amount_of (get k s'.stakes) ≡ amount_of (get k s.stakes))
    → SameStart s s'
unfolding block_start
quiet_start s s' same others k = rw same (ground (arith, others k))

module _ (a : PublicKey) (d : StakeData) (k : StakeKeys) (s s' : StakeState)
    (v : IsWellFormed s) where
  Rewrites-others :
      Rewrites a d k s s' → (j : PublicKey) → (j == a) ≡ false → get j s'.stakes ≡ get j s.stakes
  Rewrites-others (inl gone) j h = rw gone (rw (get-remove a j s.stakes v.sorted) (rw h))
  Rewrites-others (inr (d', kept)) j h = rw kept (rw (get-insert a j (d', k) s.stakes) (rw h))

insert_others :
    (a : PublicKey) (e : StakeData × StakeKeys) (s s' : StakeState)
    → s'.stakes ≡ insert a e s.stakes
    → (j : PublicKey) → (j == a) ≡ false
    → get j s'.stakes ≡ get j s.stakes
insert_others a e s s' same j h = rw same (rw (get-insert a j e s.stakes) (rw h))

get_stake_amount :
    (a : PublicKey) (s : StakeState) → data_amount (get_stake a s) ≡ amount_of (get a s.stakes)
unfolding get_stake
get_stake_amount a s = ground arith

pub Adds-SameStart :
    (h : Host) (keys : StakeKeys) (value : ℕ) (s : StakeState) {s' : StakeState}
    → Adds h keys value s s'
    → SameStart s s'
unfolding remember put
Adds-SameStart h keys value s {s'} e =
    remember_start keys.account (get_stake keys.account s) s s'
      (ap (λ t. t.previous_block_state) e.state) (get_stake_amount keys.account s)
      (insert_others keys.account
        (record e.data_before { amount = some e.amount }, e.keys_on_record) s s'
        (ap (λ t. t.stakes) e.state))

settle_previous :
    (a : PublicKey) (d : StakeData) (k : StakeKeys) (s : StakeState) (left : StakeAmount)
    → (settle a d k left s).previous_block_state ≡ s.previous_block_state
unfolding settle put
settle_previous a d k s left = ground arith

module _ (a : PublicKey) (d : StakeData) (k : StakeKeys) (s : StakeState) (r : ℕ) where
  take_reward_previous : (take_reward a r d k s).previous_block_state ≡ s.previous_block_state
  unfolding take_reward put
  take_reward_previous = ground arith

  take_reward_amounts :
      IsSorted s.stakes
      → get a s.stakes ≡ some (d, k)
      → (j : PublicKey)
      → amount_of (get j (take_reward a r d k s).stakes) ≡ amount_of (get j s.stakes)
  unfolding take_reward put
  take_reward_amounts v found j =
      ground
        (arith, get-remove a j s.stakes v, get-insert a j (record d { reward = r }, k) s.stakes)

module _ (account : PublicKey) (value : ℕ) (s : StakeState) {s' : StakeState} where
  pub Takes-SameStart : IsWellFormed s → Takes account value s s' → SameStart s s'
  unfolding remember
  Takes-SameStart v e =
      remember_start account (some e.data_before) s s'
        (ap (λ t. t.previous_block_state) e.state
          ∙ ap (λ t. or_insert account (some e.data_before, account) t)
              (settle_previous account e.data_before e.keys s e.left))
        (rw e.found)
        (Rewrites-others account e.data_before e.keys s s' v
          (rw e.state (settle-Rewrites account e.data_before e.keys s e.left)))

  pub Slashes-SameStart : Slashes account value s s' → SameStart s s'
  Slashes-SameStart e =
      remember_start account (some e.data_before) s s' e.previous (rw e.found)
        (insert_others account (e.data_after, e.keys) s s' e.stakes)

  -- A reward leaves the amounts alone, so it is not remembered.
  pub Rewards-SameStart : Rewards account value s s' → SameStart s s'
  unfolding put
  Rewards-SameStart e = quiet_start s s' (ap (λ t. t.previous_block_state) e.state) λ k.
      rw e.state
        (rw (get-insert account k (e.data_after, e.keys) s.stakes) (grind (arith, e.same_amount)))

  -- Nor is a withdrawal, which removes an entry only if nothing is staked.
  pub TakesReward-SameStart : IsWellFormed s → TakesReward account value s s' → SameStart s s'
  TakesReward-SameStart v e =
      quiet_start s s' (rw e.state (take_reward_previous account e.data_before e.keys s e.reward))
        (rw e.state (take_reward_amounts account e.data_before e.keys s e.reward v.sorted e.found))

pub reward_all-SameStart :
    (rs : List Reward) (s : StakeState) → Ensures (SameStart s) (reward_all rs s)
unfolding reward_all
reward_all-SameStart [] s = Ensures-done _ (λ k. refl)
reward_all-SameStart (r ∷ rs) s = Ensures-bind _ _ λ s₁ first.
    Ensures-mono
      (λ s' rest k.
        rest k ∙ Rewards-SameStart r.account r.value s ((reward_one-Rewards r s).holds s₁ first) k)
      (reward_all-SameStart rs s₁)
