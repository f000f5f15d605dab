-- ===== src/Stake/History.antt =====
-- Sequences of calls. A call that panics is rolled back by the virtual machine, and each call has a
-- host of its own.
use rusk.Prelude.{ℕ, ◌≤◌, ◌<◌, ◌≡◌, refl, ◌∙◌, inl, inr, Option, List, [], ◌∷◌, arith}
use rusk.Vm.{Host, Bytes, Outcome, ok, panic, u64_mod}
use rusk.Vm.Ensures.{Ensures, Ensures-bind, Ensures-guard, Ensures-done, Ensures-mono}
use rusk.Stake.Types.{Stake}
use rusk.Stake.State.{StakeState, World, TransferCalls, configure, set_burnt_amount}
use rusk.Stake.Calls.{Call, call}
use rusk.Stake.Penalty
use rusk.Stake.Interface.{TransferLaws, CallsNotBack}
use rusk.Stake.Solvency.{IsSolvent, IsFunded, call-IsSolvent}
use rusk.Stake.Effects.{
  stake-Adds, stake_from_contract-Adds, unstake-Takes, unstake_from_contract-Takes,
  withdraw-TakesReward, withdraw_from_contract-TakesReward, slash-Slashes, hard_slash-Slashes,
}
use rusk.Stake.Invariant.{IsWellFormed}
use rusk.Stake.BlockStart.{
  SameStart, block_start, Adds-SameStart, Takes-SameStart, TakesReward-SameStart, Slashes-SameStart,
  reward_all-SameStart,
}

-- The calls that a block makes between two `before_state_transition`s.
abbrev pub IsWithinBlock : Call → Type 0
IsWithinBlock Call.before_state_transition = ⊥
IsWithinBlock (Call.insert_stake keys d) = ⊥
IsWithinBlock _ = Unit

same_maps :
    (s s' : StakeState)
    → s'.stakes ≡ s.stakes
    → s'.previous_block_state ≡ s.previous_block_state
    → SameStart s s'
unfolding block_start
same_maps s s' e f k = rw (e, f)

module _ {S : Type 0} (h : Host) (t : TransferCalls S) (decode : Bytes → Option Stake) where
  -- Within a block every call that returns leaves the stakes of the block's start readable.
  pub call-SameStart :
      CallsNotBack t
      → (c : Call) (w : World S) → IsWithinBlock c
      → IsWellFormed w.state
      → Ensures (λ w'. SameStart w.state w'.state) (call h t decode c w)
  unfolding call Penalty.reward
  call-SameStart quiet (Call.stake st) w i v = Ensures-bind _ _ λ _ _.
      Ensures-mono (λ w' (e, _, _). Adds-SameStart h st.keys st.value w.state e)
        (stake-Adds h t st w)
  call-SameStart quiet (Call.unstake un) w i v = Ensures-bind _ _ λ _ _.
      Ensures-mono (λ w' (e, _, _). Takes-SameStart un.account un.withdraw.value w.state v e)
        (unstake-Takes h t un w)
  call-SameStart quiet (Call.withdraw wd) w i v = Ensures-bind _ _ λ _ _.
      Ensures-mono (λ w' (e, _, _). TakesReward-SameStart wd.account wd.withdraw.value w.state v e)
        (withdraw-TakesReward h t wd w)
  call-SameStart quiet (Call.stake_from_contract recv) w i v = Ensures-bind _ _ λ _ _.
      Ensures-guard _ _ _ λ _.
        Ensures-mono (λ w' (st, _, _, e, _, _). Adds-SameStart h st.keys recv.value w.state e)
          (stake_from_contract-Adds h t decode recv w)
  call-SameStart quiet (Call.unstake_from_contract un) w i v =
      Ensures-mono (λ w' (e, _, _, _, _, _). Takes-SameStart un.account un.value w.state v e)
        (unstake_from_contract-Takes h t quiet un w)
  call-SameStart quiet (Call.withdraw_from_contract wd) w i v =
      Ensures-mono (λ w' (e, _, _, _, _, _). TakesReward-SameStart wd.account wd.value w.state v e)
        (withdraw_from_contract-TakesReward h t quiet wd w)
  call-SameStart quiet Call.before_state_transition w i v = absurd i
  call-SameStart quiet (Call.set_config config) w i v = Ensures-bind _ _ λ _ _. Ensures-done _ (
      same_maps w.state (configure config w.state) (unfold configure in refl)
        (unfold configure in refl))
  call-SameStart quiet (Call.insert_stake keys d) w i v = absurd i
  call-SameStart quiet (Call.reward rs) w i v = Ensures-bind _ _ λ _ _.
      Ensures-bind _ _ λ s' done. Ensures-done _ ((reward_all-SameStart rs w.state).holds s' done)
  call-SameStart quiet (Call.slash account to_slash) w i v = Ensures-bind _ _ λ _ _.
      Ensures-mono
        (λ w' r. elim r [
          | inl same ↦ rw same (λ k. refl)
          | inr (e, _) ↦ Slashes-SameStart account 0 w.state e
        ])
        (slash-Slashes h account to_slash w)
  call-SameStart quiet (Call.hard_slash account to_slash severity) w i v = Ensures-bind _ _ λ _ _.
      Ensures-mono
        (λ w' r. elim r [
          | inl same ↦ rw same (λ k. refl)
          | inr (burnt, e, _) ↦ Slashes-SameStart account burnt w.state e
        ])
        (hard_slash-Slashes h t account to_slash severity w)
  call-SameStart quiet (Call.set_burnt_amount n) w i v = Ensures-bind _ _ λ _ _. Ensures-done _ (
      same_maps w.state (set_burnt_amount n w.state) (unfold set_burnt_amount in refl)
        (unfold set_burnt_amount in refl))

-- The state after a call: that of before, if the call panicked.
abbrev pub settled {ℓ} : {A : Type ℓ} → A → Outcome A → A
settled w (ok w') = w'
settled w (panic _) = w

settled-Ensures {ℓ κ} :
    {A : Type ℓ} (P : A → Type κ) (w : A) (m : Outcome A) → P w → Ensures P m → P (settled w m)
settled-Ensures P w (ok w') h e = e.holds w' refl
settled-Ensures P w (panic x) h e = h

-- What happens to the two contracts: a call of the stake contract, or calls of the transfer contract
-- from elsewhere, which lead to the state that is given.
pub data Step (S : Type 0) : Type 0 where
  calls : Host → Call → Step S
  elsewhere : S → Step S

module _ {S : Type 0} (t : Host → TransferCalls S) (decode : Bytes → Option Stake) where
  unfoldable pub step : Step S → World S → World S
  step (Step.calls h c) w = settled w (call h (t h) decode c w)
  step (Step.elsewhere s) w = record w { transfer = s }

  unfoldable pub run : List (Step S) → World S → World S
  run [] w = w
  run (x ∷ xs) w = run xs (step x w)

module _ {S : Type 0} (balance : S → ℕ) (t : Host → TransferCalls S)
    (decode : Bytes → Option Stake) where
  -- Each call is funded where it is made, and no one but the stake contract spends what it holds.
  abbrev pub IsFundedStep : Step S → World S → Type 0
  IsFundedStep (Step.calls h c) w = IsFunded balance c w
  IsFundedStep (Step.elsewhere s) w = (balance w.transfer ≤ balance s) × (balance s < u64_mod)

  unfoldable pub IsFundedRun : List (Step S) → World S → Type 0
  IsFundedRun [] w = Unit
  IsFundedRun (x ∷ xs) w = IsFundedStep x w × IsFundedRun xs (step t decode x w)

  abbrev pub Lawful : Type 0
  Lawful = (h : Host) → TransferLaws (t h) balance

  step-IsSolvent :
      Lawful
      → (x : Step S) (w : World S) → IsFundedStep x w
      → IsSolvent balance w
      → IsSolvent balance (step t decode x w)
  unfolding step
  step-IsSolvent laws (Step.calls h c) w f v =
      settled-Ensures (IsSolvent balance) w (call h (t h) decode c w) v
        (call-IsSolvent balance h (t h) (laws h) decode c w v f)
  step-IsSolvent laws (Step.elsewhere s) w f v = record {
    well_formed = v.well_formed;
    backed = omega (arith, v.backed, f.0);
    held = f.1;
  }

  -- No history of calls, whoever makes them, leaves the contract unable to pay its stakes.
  pub run-IsSolvent :
      Lawful
      → (xs : List (Step S)) (w : World S) → IsFundedRun xs w
      → IsSolvent balance w
      → IsSolvent balance (run t decode xs w)
  unfolding run IsFundedRun
  run-IsSolvent laws [] w f v = v
  run-IsSolvent laws (x ∷ xs) w f v =
      run-IsSolvent laws xs (step t decode x w) f.1 (step-IsSolvent laws x w f.0 v)

  abbrev pub IsBlockStep : Step S → Type 0
  IsBlockStep (Step.calls h c) = IsWithinBlock c
  IsBlockStep (Step.elsewhere s) = Unit

  unfoldable pub IsBlock : List (Step S) → Type 0
  IsBlock [] = Unit
  IsBlock (x ∷ xs) = IsBlockStep x × IsBlock xs

  step-SameStart :
      Lawful
      → (x : Step S) (w : World S) → IsBlockStep x
      → IsWellFormed w.state
      → SameStart w.state (step t decode x w).state
  unfolding step
  step-SameStart laws (Step.calls h c) w b v =
      settled-Ensures (λ w'. SameStart w.state w'.state) w (call h (t h) decode c w) (λ j. refl)
        (call-SameStart h (t h) decode (laws h).not_back c w b v)
  step-SameStart laws (Step.elsewhere s) w b v = λ k. refl

  -- The state of a block's start stays readable: over a transfer contract that obeys its laws, from a
  -- solvent state, after all the funded calls of a block, the panicking ones included, the amount that
  -- `prev_state_changes` and the stakes give for an account as that of the block's start is the same
  -- as before the calls. A block makes no call of `before_state_transition` and of `insert_stake`.
  pub run-SameStart :
      Lawful
      → (xs : List (Step S)) (w : World S) → IsBlock xs
      → IsFundedRun xs w
      → IsSolvent balance w
      → SameStart w.state (run t decode xs w).state
  unfolding run IsBlock IsFundedRun
  run-SameStart laws [] w b f v k = refl
  run-SameStart laws (x ∷ xs) w b f v k =
      run-SameStart laws xs (step t decode x w) b.1 f.1 (step-IsSolvent laws x w f.0 v) k
      ∙ step-SameStart laws x w b.0 v.well_formed k
