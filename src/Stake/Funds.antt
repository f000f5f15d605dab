-- ===== src/Stake/Funds.antt =====
-- What the stakes are worth, and how each write to the map changes it.
use rusk.Prelude.{ℕ, ◌+◌, ◌≤◌, ◌<◌, ◌≡◌, refl, Option, none, some, arith}
use rusk.Vm.{Host, PublicKey, ok, u64_mod, sub_u64, add_u64, ◌>>=◌}
use rusk.Map.{get}
use rusk.Map.Weight.{total, share, total-insert, total-remove, share-le-total}
use rusk.Stake.Types.{StakeKeys, StakeData, StakeAmount, StakeEvent, total_funds, new_amount}
use rusk.Stake.State.{StakeState, remember, put}
use rusk.Stake.Funding.{add_to_amount}
use rusk.Stake.Payout.{take_from_amount, settle, take_reward}

abbrev pub amount_funds : Option StakeAmount → ℕ
amount_funds none = 0
amount_funds (some a) = a.value + a.locked

abbrev pub entry_funds : StakeData × StakeKeys → ℕ
entry_funds e = amount_funds e.0.amount

abbrev pub entry_reward : StakeData × StakeKeys → ℕ
entry_reward e = e.0.reward

-- The value and the locked part of every stake, as an unbounded sum.
unfoldable pub funds : StakeState → ℕ
funds s = total entry_funds s.stakes

-- The rewards that can still be withdrawn.
unfoldable pub rewards : StakeState → ℕ
rewards s = total entry_reward s.stakes

pub put-funds :
    (a : PublicKey) (e : StakeData × StakeKeys) (s : StakeState)
    → funds (put a e s) + share entry_funds (get a s.stakes) ≡ funds s + entry_funds e
unfolding funds put
put-funds a e s = total-insert entry_funds a e s.stakes

pub put-rewards :
    (a : PublicKey) (e : StakeData × StakeKeys) (s : StakeState)
    → rewards (put a e s) + share entry_reward (get a s.stakes) ≡ rewards s + entry_reward e
unfolding rewards put
put-rewards a e s = total-insert entry_reward a e s.stakes

pub remember-funds :
    (a : PublicKey) (p : Option StakeData) (s : StakeState) → funds (remember a p s) ≡ funds s
unfolding funds remember
remember-funds a p s = refl

pub remember-rewards :
    (a : PublicKey) (p : Option StakeData) (s : StakeState) → rewards (remember a p s) ≡ rewards s
unfolding rewards remember
remember-rewards a p s = refl

pub total_funds-eq :
    (a : StakeAmount) → a.value + a.locked < u64_mod → total_funds a ≡ a.value + a.locked
unfolding total_funds
total_funds-eq a h = omega arith

module _ (a : PublicKey) (d : StakeData) (k : StakeKeys) (s : StakeState)
    (found : get a s.stakes ≡ some (d, k)) where
  pub share_funds : share entry_funds (get a s.stakes) ≡ amount_funds d.amount
  share_funds = rw found

  pub share_reward : share entry_reward (get a s.stakes) ≡ d.reward
  share_reward = rw found

  -- The entry's funds are replaced by what is left.
  pub settle-funds :
      (left : StakeAmount)
      → left.value + left.locked < u64_mod
      → funds (settle a d k left s) + amount_funds d.amount ≡ funds s + (left.value + left.locked)
  unfolding settle funds put
  settle-funds left h = ground (
    arith,
    total_funds-eq left h,
    share_funds,
    total-remove entry_funds a s.stakes,
    total-insert entry_funds a (record d { amount = none }, k) s.stakes,
    total-insert entry_funds a (record d { amount = some left }, k) s.stakes,
  )

  pub settle-rewards : (left : StakeAmount) → rewards (settle a d k left s) ≡ rewards s
  unfolding settle rewards put
  settle-rewards left = ground (
    arith,
    share_reward,
    total-remove entry_reward a s.stakes,
    total-insert entry_reward a (record d { amount = none }, k) s.stakes,
    total-insert entry_reward a (record d { amount = some left }, k) s.stakes,
  )

  pub take_reward-funds : (r : ℕ) → funds (take_reward a r d k s) ≡ funds s
  unfolding take_reward funds put
  take_reward-funds r = ground (
    arith,
    share_funds,
    total-remove entry_funds a s.stakes,
    total-insert entry_funds a (record d { reward = r }, k) s.stakes,
  )

  pub take_reward-rewards : (r : ℕ) → rewards (take_reward a r d k s) + d.reward ≡ rewards s + r
  unfolding take_reward rewards put
  take_reward-rewards r = ground (
    arith,
    share_reward,
    total-remove entry_reward a s.stakes,
    total-insert entry_reward a (record d { reward = r }, k) s.stakes,
  )

  -- One stake is worth no more than all of them.
  pub amount_funds-le-funds : amount_funds d.amount ≤ funds s
  unfolding funds
  amount_funds-le-funds = omega (arith, share_funds, share-le-total entry_funds a s.stakes)

-- What is taken, from the value first and then from the locked part, leaves the rest.
pub take_from_amount-eq-ok :
    (keys : StakeKeys) (value : ℕ) (a : StakeAmount) {left : StakeAmount} {event : StakeEvent}
    → take_from_amount keys value a ≡ ok (left, event)
    → (left.value + left.locked + value ≡ a.value + a.locked)
      × (event.value + event.locked ≡ value)
      × (left.eligibility ≡ a.eligibility)
unfolding take_from_amount sub_u64 ◌>>=◌
take_from_amount-eq-ok keys value a h = ground arith

-- Adding splits the value into a free and a locked part, and loses nothing.
pub add_to_amount-eq-ok :
    (h : Host) (keys : StakeKeys) (value : ℕ) (o : Option StakeAmount) {amount : StakeAmount}
    {event : StakeEvent}
    → add_to_amount h keys value o ≡ ok (amount, event)
    → (amount.value + amount.locked ≡ amount_funds o + value) × (event.value + event.locked ≡ value)
unfolding add_to_amount add_u64 sub_u64 new_amount ◌>>=◌
add_to_amount-eq-ok h keys value none e = ground arith
add_to_amount-eq-ok h keys value (some a) e = ground arith
