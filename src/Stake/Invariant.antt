-- ===== src/Stake/Invariant.antt =====
-- The order of the map of stakes, and the keys in it (contracts/stake/src/state.rs).
use rusk.Prelude.{
  ℕ, ◌≡◌, refl, ap, inl, inr, none, some, List, [], ◌∷◌, arith, ◌==◌, Option-cases, Bool-cases, ◌∙◌,
  ◌&&◌, not, is_some, ◌⊎◌,
}
use rusk.Vm.{Host, PublicKey, ok, ◌>>=◌}
use rusk.Vm.Ensures.{Ensures, Ensures-bind, Ensures-done}
use rusk.Map.{Map, get, insert, remove, get-insert}
use rusk.Map.Sorted.{IsSorted, insert-IsSorted, remove-IsSorted, get-remove}
use rusk.Stake.Types.{StakeKeys, StakeData, StakeAmount, Reward, total_funds}
use rusk.Stake.State.{StakeState, load_or_create_stake_mut, remember, put}
use rusk.Stake.Payout.{settle, take_reward}
use rusk.Stake.Penalty.{reward_all}
use rusk.Stake.Effects.{Adds, Takes, TakesReward, Slashes, Rewards, reward_one-Rewards}

-- Every entry of the map stands under the account of its keys.
abbrev pub IsKeyed : Map (StakeData × StakeKeys) → Type 0
IsKeyed m =
    (k : PublicKey) (d : StakeData) (keys : StakeKeys) → get k m ≡ some (d, keys) → keys.account ≡ k

pub record IsWellFormed (s : StakeState) : Type 0 where
  pub sorted : IsSorted s.stakes
  pub keyed : IsKeyed s.stakes

insert-IsKeyed :
    (a : PublicKey) (d : StakeData) (keys : StakeKeys) (m : Map (StakeData × StakeKeys))
    → keys.account ≡ a
    → IsKeyed m
    → IsKeyed (insert a (d, keys) m)
insert-IsKeyed a d keys m h v k d' keys' e =
    ground (arith, get-insert a k (d, keys) m, v k d' keys')

remove-IsKeyed :
    (a : PublicKey) (m : Map (StakeData × StakeKeys))
    → IsSorted m
    → IsKeyed m
    → IsKeyed (remove a m)
remove-IsKeyed a m s v k d' keys' e = ground (arith, get-remove a k m s, v k d' keys')

pub insert-IsWellFormed :
    (a : PublicKey) (d : StakeData) (keys : StakeKeys) (s : StakeState) {s' : StakeState}
    → keys.account ≡ a
    → s'.stakes ≡ insert a (d, keys) s.stakes
    → IsWellFormed s
    → IsWellFormed s'
insert-IsWellFormed a d keys s h e v = record {
  sorted = rw e (insert-IsSorted a (d, keys) s.stakes v.sorted);
  keyed = rw e (insert-IsKeyed a d keys s.stakes h v.keyed);
}

remove-IsWellFormed :
    (a : PublicKey) (s : StakeState) {s' : StakeState}
    → s'.stakes ≡ remove a s.stakes
    → IsWellFormed s
    → IsWellFormed s'
remove-IsWellFormed a s e v = record {
  sorted = rw e (remove-IsSorted a s.stakes v.sorted);
  keyed = rw e (remove-IsKeyed a s.stakes v.sorted v.keyed);
}

load_keyed :
    (keys : StakeKeys) (s : StakeState) {d : StakeData} {k : StakeKeys}
    → IsWellFormed s
    → load_or_create_stake_mut keys s ≡ ok (d, k)
    → k.account ≡ keys.account
unfolding load_or_create_stake_mut ◌>>=◌
load_keyed keys s v e = elim (Option-cases (get keys.account s.stakes)) [
  | inl new ↦ ground arith
  | inr ((d, k), old) ↦ ground (arith, v.keyed keys.account d k old)
]

pub Adds-IsWellFormed :
    (h : Host) (keys : StakeKeys) (value : ℕ) (s : StakeState) {s' : StakeState}
    → Adds h keys value s s'
    → IsWellFormed s
    → IsWellFormed s'
unfolding remember put
Adds-IsWellFormed h keys value s e v =
    insert-IsWellFormed keys.account (record e.data_before { amount = some e.amount })
      e.keys_on_record s (load_keyed keys s v e.loaded) (ap (λ t. t.stakes) e.state) v

module _ (a : PublicKey) (d : StakeData) (k : StakeKeys) (s : StakeState) where
  -- `settle` and `take_reward` remove the entry or put it back under its keys.
  abbrev pub Rewrites : StakeState → Type 0
  Rewrites s' =
      (s'.stakes ≡ remove a s.stakes) ⊎ ((d' : StakeData) × (s'.stakes ≡ insert a (d', k) s.stakes))

  pub settle-Rewrites : (left : StakeAmount) → Rewrites (settle a d k left s)
  unfolding settle put
  settle-Rewrites left = elim (Bool-cases (total_funds left == 0)) [
    | inr rest ↦ rw rest (inr (record d { amount = some left }, refl))
    | inl empty ↦ elim (Bool-cases (d.reward == 0)) [
      | inl gone ↦ rw (empty, gone) (inl refl)
      | inr kept ↦ rw (empty, kept) (inr (record d { amount = none }, refl))
    ]
  ]

  pub take_reward-Rewrites : (r : ℕ) → Rewrites (take_reward a r d k s)
  unfolding take_reward put
  take_reward-Rewrites r = elim (Bool-cases ((r == 0) && not (is_some d.amount))) [
    | inl gone ↦ rw gone (inl refl)
    | inr kept ↦ rw kept (inr (record d { reward = r }, refl))
  ]

  Rewrites-IsWellFormed :
      {s' : StakeState}
      → get a s.stakes ≡ some (d, k)
      → Rewrites s'
      → IsWellFormed s
      → IsWellFormed s'
  Rewrites-IsWellFormed found (inl gone) v = remove-IsWellFormed a s gone v
  Rewrites-IsWellFormed found (inr (d', kept)) v =
      insert-IsWellFormed a d' k s (v.keyed a d k found) kept v

module _ (account : PublicKey) (value : ℕ) (s : StakeState) {s' : StakeState} where
  pub Takes-IsWellFormed : Takes account value s s' → IsWellFormed s → IsWellFormed s'
  unfolding remember
  Takes-IsWellFormed e v =
      Rewrites-IsWellFormed account e.data_before e.keys s e.found
        (rw e.state (settle-Rewrites account e.data_before e.keys s e.left)) v

  pub TakesReward-IsWellFormed : TakesReward account value s s' → IsWellFormed s → IsWellFormed s'
  TakesReward-IsWellFormed e v =
      Rewrites-IsWellFormed account e.data_before e.keys s e.found
        (rw e.state (take_reward-Rewrites account e.data_before e.keys s e.reward)) v

  pub Slashes-IsWellFormed : Slashes account value s s' → IsWellFormed s → IsWellFormed s'
  Slashes-IsWellFormed e v =
      insert-IsWellFormed account e.data_after e.keys s
        (v.keyed account e.data_before e.keys e.found) e.stakes v

  pub Rewards-IsWellFormed : Rewards account value s s' → IsWellFormed s → IsWellFormed s'
  unfolding put
  Rewards-IsWellFormed e v =
      insert-IsWellFormed account e.data_after e.keys s owned (ap (λ t. t.stakes) e.state) v
    where
      owned : e.keys.account ≡ account
      owned = elim (Option-cases (get account s.stakes)) [
        | inl new ↦ e.keyed_if_new new
        | inr ((d, k), old) ↦ e.same_keys d k old ∙ v.keyed account d k old
      ]

pub reward_all-IsWellFormed :
    (rs : List Reward) (s : StakeState) → IsWellFormed s → Ensures IsWellFormed (reward_all rs s)
unfolding reward_all
reward_all-IsWellFormed [] s v = Ensures-done _ v
reward_all-IsWellFormed (r ∷ rs) s v = Ensures-bind _ _ λ s₁ first.
    reward_all-IsWellFormed rs s₁
      (Rewards-IsWellFormed r.account r.value s ((reward_one-Rewards r s).holds s₁ first) v)
