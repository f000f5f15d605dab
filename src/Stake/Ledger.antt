-- ===== src/Stake/Ledger.antt =====
-- What each call adds to and takes from the stakes and the rewards (contracts/stake/src/lib.rs).
use rusk.Prelude.{ℕ, ◌+◌, ◌<◌, ◌≡◌, refl, ap, ◌∙◌, inl, inr, Option, List, [], ◌∷◌, arith}
use rusk.Vm.{Host, PublicKey, Bytes, u64_mod}
use rusk.Vm.Ensures.{Ensures, Ensures-bind, Ensures-guard, Ensures-done, Ensures-mono}
use rusk.Stake.Types.{Stake, StakeKeys, Reward}
use rusk.Stake.State.{StakeState, World, TransferCalls, on_new_block, configure, remember, put}
use rusk.Stake.Payout.{settle, take_reward}
use rusk.Stake.Penalty
use rusk.Stake.Penalty.{reward_all, reward_one}
use rusk.Stake.Interface.{CallsNotBack}
use rusk.Stake.Calls.{Call, call}
use rusk.Stake.Funds.{funds, rewards}
use rusk.Stake.Effects.{
  Adds, Takes, TakesReward, Slashes, Rewards, stake-Adds, stake_from_contract-Adds, unstake-Takes,
  unstake_from_contract-Takes, withdraw-TakesReward, withdraw_from_contract-TakesReward,
  slash-Slashes, hard_slash-Slashes, reward_one-Rewards,
}
use rusk.Stake.Accounting.{
  Adds-funds, Adds-rewards, Takes-funds, Takes-rewards, TakesReward-funds, TakesReward-rewards,
  Slashes-funds, Slashes-rewards, reward_sum, reward_all-rewards,
}

-- What a call puts into the stakes, takes out of them, adds to the rewards and pays out of them.
abbrev pub added : Call → ℕ
added (Call.stake st) = st.value
added (Call.stake_from_contract recv) = recv.value
added _ = 0

abbrev pub taken : Call → ℕ
taken (Call.unstake un) = un.withdraw.value
taken (Call.unstake_from_contract un) = un.value
taken _ = 0

abbrev pub rewarded : Call → ℕ
rewarded (Call.reward rs) = reward_sum rs
rewarded _ = 0

abbrev pub paid : Call → ℕ
paid (Call.withdraw wd) = wd.withdraw.value
paid (Call.withdraw_from_contract wd) = wd.value
paid _ = 0

-- The calls of a running chain, in contrast to those that set up a state.
abbrev pub IsRunning : Call → Type 0
IsRunning (Call.insert_stake keys d) = ⊥
IsRunning (Call.set_burnt_amount n) = ⊥
IsRunning _ = Unit

-- The stakes and what was burnt of them move by what the call adds and takes, the rewards too.
pub record Balances (c : Call) (s s' : StakeState) : Type 0 where
  pub staked : funds s' + s'.burnt_amount + taken c ≡ funds s + s.burnt_amount + added c
  pub earned : rewards s' + paid c ≡ rewards s + rewarded c

Adds-burnt :
    (h : Host) (keys : StakeKeys) (value : ℕ) (s s' : StakeState)
    → Adds h keys value s s'
    → s'.burnt_amount ≡ s.burnt_amount
unfolding remember put
Adds-burnt h keys value s s' e = ap (λ x. x.burnt_amount) e.state

Takes-burnt :
    (account : PublicKey) (value : ℕ) (s s' : StakeState)
    → Takes account value s s'
    → s'.burnt_amount ≡ s.burnt_amount
unfolding remember settle put
Takes-burnt account value s s' e = ap (λ x. x.burnt_amount) e.state ∙ ground arith

TakesReward-burnt :
    (account : PublicKey) (value : ℕ) (s s' : StakeState)
    → TakesReward account value s s'
    → s'.burnt_amount ≡ s.burnt_amount
unfolding take_reward put
TakesReward-burnt account value s s' e = ap (λ x. x.burnt_amount) e.state ∙ ground arith

Rewards-burnt :
    (account : PublicKey) (value : ℕ) (s s' : StakeState)
    → Rewards account value s s'
    → s'.burnt_amount ≡ s.burnt_amount
unfolding put
Rewards-burnt account value s s' e = ap (λ x. x.burnt_amount) e.state

reward_all-burnt :
    (rs : List Reward) (s : StakeState)
    → Ensures (λ s'. s'.burnt_amount ≡ s.burnt_amount) (reward_all rs s)
unfolding reward_all
reward_all-burnt [] s = Ensures-done _ refl
reward_all-burnt (r ∷ rs) s = Ensures-bind _ _ λ s₁ one.
    let first = Rewards-burnt r.account r.value s s₁ ((reward_one-Rewards r s).holds s₁ one) in
    Ensures-mono (λ s' e. e ∙ first) (reward_all-burnt rs s₁)

Slashes-staked :
    (account : PublicKey) (burnt : ℕ) (s s' : StakeState)
    → funds s < u64_mod
    → Slashes account burnt s s'
    → (funds s' + s'.burnt_amount ≡ funds s + s.burnt_amount) × (rewards s' ≡ rewards s)
Slashes-staked account burnt s s' fits e = (
  omega (arith, Slashes-funds account burnt s fits e, e.burnt_more),
  Slashes-rewards account burnt s e,
)

module _ {S : Type 0} (h : Host) (t : TransferCalls S) (decode : Bytes → Option Stake) where
  pub call-Balances :
      CallsNotBack t
      → (c : Call) (w : World S) → IsRunning c
      → funds w.state < u64_mod
      → Ensures (λ w'. Balances c w.state w'.state) (call h t decode c w)
  unfolding call Penalty.reward
  call-Balances quiet (Call.stake st) w i fits = Ensures-bind _ _ λ _ _.
      Ensures-mono
        (λ w' (e, _, _).
          let f = Adds-funds h st.keys st.value w.state e in
          let b = Adds-burnt h st.keys st.value w.state w'.state e in
          let r = Adds-rewards h st.keys st.value w.state e in
          record { staked = omega (arith, f, b); earned = omega (arith, r) })
        (stake-Adds h t st w)
  call-Balances quiet (Call.unstake un) w i fits = Ensures-bind _ _ λ _ _.
      Ensures-mono
        (λ w' (e, _, _).
          let f = Takes-funds un.account un.withdraw.value w.state fits e in
          let b = Takes-burnt un.account un.withdraw.value w.state w'.state e in
          let r = Takes-rewards un.account un.withdraw.value w.state e in
          record { staked = omega (arith, f, b); earned = omega (arith, r) })
        (unstake-Takes h t un w)
  call-Balances quiet (Call.withdraw wd) w i fits = Ensures-bind _ _ λ _ _.
      Ensures-mono
        (λ w' (e, _, _).
          let f = TakesReward-funds wd.account wd.withdraw.value w.state e in
          let b = TakesReward-burnt wd.account wd.withdraw.value w.state w'.state e in
          let r = TakesReward-rewards wd.account wd.withdraw.value w.state e in
          record { staked = omega (arith, f, b); earned = omega (arith, r) })
        (withdraw-TakesReward h t wd w)
  call-Balances quiet (Call.stake_from_contract recv) w i fits = Ensures-bind _ _ λ _ _.
      Ensures-guard _ _ _ λ _.
        Ensures-mono
          (λ w' (st, _, _, e, _, _).
            let f = Adds-funds h st.keys recv.value w.state e in
            let b = Adds-burnt h st.keys recv.value w.state w'.state e in
            let r = Adds-rewards h st.keys recv.value w.state e in
            record { staked = omega (arith, f, b); earned = omega (arith, r) })
          (stake_from_contract-Adds h t decode recv w)
  call-Balances quiet (Call.unstake_from_contract un) w i fits =
      Ensures-mono
        (λ w' (e, _, _, _, _, _).
          let f = Takes-funds un.account un.value w.state fits e in
          let b = Takes-burnt un.account un.value w.state w'.state e in
          let r = Takes-rewards un.account un.value w.state e in
          record { staked = omega (arith, f, b); earned = omega (arith, r) })
        (unstake_from_contract-Takes h t quiet un w)
  call-Balances quiet (Call.withdraw_from_contract wd) w i fits =
      Ensures-mono
        (λ w' (e, _, _, _, _, _).
          let f = TakesReward-funds wd.account wd.value w.state e in
          let b = TakesReward-burnt wd.account wd.value w.state w'.state e in
          let r = TakesReward-rewards wd.account wd.value w.state e in
          record { staked = omega (arith, f, b); earned = omega (arith, r) })
        (withdraw_from_contract-TakesReward h t quiet wd w)
  call-Balances quiet Call.before_state_transition w i fits = Ensures-bind _ _ λ _ _.
      Ensures-done _
        (unfold on_new_block funds rewards in record { staked = omega arith; earned = omega arith })
  call-Balances quiet (Call.set_config config) w i fits = Ensures-bind _ _ λ _ _.
      Ensures-done _
        (unfold configure funds rewards in record { staked = omega arith; earned = omega arith })
  call-Balances quiet (Call.insert_stake keys d) w i fits = absurd i
  call-Balances quiet (Call.set_burnt_amount n) w i fits = absurd i
  call-Balances quiet (Call.reward rs) w i fits = Ensures-bind _ _ λ _ _.
      Ensures-bind _ _ λ s' done.
        let (r, f) = (reward_all-rewards rs w.state).holds s' done in
        let b = (reward_all-burnt rs w.state).holds s' done in
        Ensures-done _ (record { staked = omega (arith, f, b); earned = omega (arith, r) })
  call-Balances quiet (Call.slash account to_slash) w i fits = Ensures-bind _ _ λ _ _.
      Ensures-mono
        (λ w' r. elim r [
          | inl same ↦ rw same (record { staked = omega arith; earned = omega arith })
          | inr (e, _) ↦
              (let (f, g) = Slashes-staked account 0 w.state w'.state fits e in
                record { staked = omega (arith, f); earned = omega (arith, g) })
        ])
        (slash-Slashes h account to_slash w)
  call-Balances quiet (Call.hard_slash account to_slash severity) w i fits = Ensures-bind _ _ λ _ _.
      Ensures-mono
        (λ w' r. elim r [
          | inl same ↦ rw same (record { staked = omega arith; earned = omega arith })
          | inr (burnt, e, _) ↦
              (let (f, g) = Slashes-staked account burnt w.state w'.state fits e in
                record { staked = omega (arith, f); earned = omega (arith, g) })
        ])
        (hard_slash-Slashes h t account to_slash severity w)
