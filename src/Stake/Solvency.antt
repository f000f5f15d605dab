-- ===== src/Stake/Solvency.antt =====
-- Whether the contract holds what its stakes are worth, call by call (contracts/stake/src).
use rusk.Prelude.{ℕ, ◌+◌, ◌≤◌, ◌<◌, ◌≡◌, refl, ap, inl, inr, Option, arith}
use rusk.Vm.{Host, Bytes, u64_mod}
use rusk.Vm.Ensures.{Ensures, Ensures-bind, Ensures-guard, Ensures-done, Ensures-mono}
use rusk.Transfer.Withdrawal.{stake_contract}
use rusk.Stake.Types.{Stake}
use rusk.Stake.State.{
  StakeState, World, TransferCalls, on_new_block, configure, set_burnt_amount, insert_stake,
}
use rusk.Stake.Calls.{Call, call}
use rusk.Stake.Penalty
use rusk.Stake.Interface.{TransferLaws}
use rusk.Map.Weight.{total}
use rusk.Stake.Funds.{funds, entry_funds}
use rusk.Stake.Effects.{
  Debits, stake-Adds, stake_from_contract-Adds, unstake-Takes, unstake_from_contract-Takes,
  withdraw-TakesReward, withdraw_from_contract-TakesReward, slash-Slashes, hard_slash-Slashes,
  to_receiver,
}
use rusk.Stake.Accounting.{
  Adds-funds, Takes-funds, TakesReward-funds, Slashes-funds, reward_all-rewards,
}
use rusk.Stake.Invariant.{
  IsWellFormed, Adds-IsWellFormed, Takes-IsWellFormed, TakesReward-IsWellFormed,
  Slashes-IsWellFormed, reward_all-IsWellFormed, insert-IsWellFormed,
}

module _ {S : Type 0} (balance : S → ℕ) where
  -- The balance of the contract covers its stakes, and the map is in order.
  pub record IsSolvent (w : World S) : Type 0 where
    pub well_formed : IsWellFormed w.state
    pub backed : funds w.state ≤ balance w.transfer
    pub held : balance w.transfer < u64_mod

  -- What a caller must have done first: the transfer contract credits before it makes the
  -- receiving call, and a stake that is inserted from outside comes with its funds.
  abbrev pub IsFunded : Call → World S → Type 0
  IsFunded (Call.stake_from_contract recv) w = funds w.state + recv.value ≤ balance w.transfer
  IsFunded (Call.insert_stake keys d) w = funds (insert_stake keys d w.state) ≤ balance w.transfer
  IsFunded _ w = Unit

  pub funds_fit : (w : World S) → IsSolvent w → funds w.state < u64_mod
  funds_fit w v = omega arith

same_stakes :
    (s s' : StakeState)
    → s'.stakes ≡ s.stakes
    → (funds s' ≡ funds s) × (IsWellFormed s → IsWellFormed s')
unfolding funds
same_stakes s s' e =
    (ap (total entry_funds) e, λ v. record { sorted = rw e v.sorted; keyed = rw e v.keyed })

-- A call that leaves the stakes and the transfer contract alone.
quiet :
    {S : Type 0} {balance : S → ℕ} (w : World S) (s' : StakeState)
    → IsSolvent balance w
    → (funds s' ≡ funds w.state) × (IsWellFormed w.state → IsWellFormed s')
    → IsSolvent balance (record w { state = s' })
quiet w s' v same = record {
  well_formed = same.1 v.well_formed;
  backed = omega (arith, same.0, v.backed);
  held = v.held;
}

module _ {S : Type 0} (balance : S → ℕ) (h : Host) (t : TransferCalls S)
    (laws : TransferLaws t balance) (decode : Bytes → Option Stake) where
  debited :
      (burnt : ℕ) (s s' : S)
      → Debits (t.sub_contract_balance stake_contract) burnt s s'
      → balance s ≡ balance s' + burnt
  debited burnt s s' (inl (nothing, same)) = omega (arith, ap balance same)
  debited burnt s s' (inr paid) = laws.sub_contract_balance burnt s s' paid

  -- Whatever call is made, if it returns, the contract still holds what its stakes are worth.
  pub call-IsSolvent :
      (c : Call) (w : World S)
      → IsSolvent balance w
      → IsFunded balance c w
      → Ensures (IsSolvent balance) (call h t decode c w)
  unfolding call Penalty.reward
  call-IsSolvent (Call.stake st) w v f = Ensures-bind _ _ λ _ _.
      Ensures-mono
        (λ w' (e, deposited, _).
          let paid = laws.deposit st.value w.transfer w'.transfer deposited in
          record {
            well_formed = Adds-IsWellFormed h st.keys st.value w.state e v.well_formed;
            backed = omega (arith, Adds-funds h st.keys st.value w.state e);
            held = paid.1;
          })
        (stake-Adds h t st w)
  call-IsSolvent (Call.unstake un) w v f = Ensures-bind _ _ λ _ _.
      Ensures-mono
        (λ w' (e, paid, _).
          let moved = laws.withdraw un.withdraw w.transfer w'.transfer paid in
          let left = Takes-funds un.account un.withdraw.value w.state (funds_fit balance w v) e in
          record {
            well_formed = Takes-IsWellFormed un.account un.withdraw.value w.state e v.well_formed;
            backed = omega (arith, moved, left);
            held = omega (arith, moved);
          })
        (unstake-Takes h t un w)
  call-IsSolvent (Call.withdraw wd) w v f = Ensures-bind _ _ λ _ _.
      Ensures-mono
        (λ w' (e, minted, _).
          let moved = laws.mint wd.withdraw w.transfer w'.transfer minted in
          let same = TakesReward-funds wd.account wd.withdraw.value w.state e in
          record {
            well_formed =
                TakesReward-IsWellFormed wd.account wd.withdraw.value w.state e v.well_formed;
            backed = omega (arith, moved, same);
            held = omega (arith, moved);
          })
        (withdraw-TakesReward h t wd w)
  call-IsSolvent (Call.stake_from_contract recv) w v f = Ensures-bind _ _ λ _ _.
      Ensures-guard _ _ _ λ _.
        Ensures-mono
          (λ w' (st, _, _, e, _, same).
            let same_balance : balance w'.transfer ≡ balance w.transfer = ap balance same in
            record {
              well_formed = Adds-IsWellFormed h st.keys recv.value w.state e v.well_formed;
              backed = omega (arith, same_balance, Adds-funds h st.keys recv.value w.state e);
              held = omega (arith, same_balance);
            })
          (stake_from_contract-Adds h t decode recv w)
  call-IsSolvent (Call.unstake_from_contract un) w v f =
      Ensures-mono
        (λ w' (e, caller, mid, paid, moves, _).
          let moved = laws.contract_to_contract (to_receiver caller un) w mid v.held paid in
          let after : balance w'.transfer ≡ balance mid.transfer = ap balance moves in
          let left = Takes-funds un.account un.value w.state (funds_fit balance w v) e in
          record {
            well_formed = Takes-IsWellFormed un.account un.value w.state e v.well_formed;
            backed = omega (arith, moved, left, after);
            held = omega (arith, moved.1, after);
          })
        (unstake_from_contract-Takes h t laws.not_back un w)
  call-IsSolvent (Call.withdraw_from_contract wd) w v f =
      Ensures-mono
        (λ w' (e, caller, mid, minted, moves, _).
          let moved = laws.mint_to_contract (to_receiver caller wd) w mid v.held minted in
          let after : balance w'.transfer ≡ balance mid.transfer = ap balance moves in
          record {
            well_formed = TakesReward-IsWellFormed wd.account wd.value w.state e v.well_formed;
            backed = omega (arith, moved, after, TakesReward-funds wd.account wd.value w.state e);
            held = omega (arith, moved.1, after);
          })
        (withdraw_from_contract-TakesReward h t laws.not_back wd w)
  call-IsSolvent Call.before_state_transition w v f = Ensures-bind _ _ λ _ _.
      Ensures-done _
        (quiet w (on_new_block w.state) v (same_stakes _ _ (unfold on_new_block in refl)))
  call-IsSolvent (Call.set_config config) w v f = Ensures-bind _ _ λ _ _.
      Ensures-done _
        (quiet w (configure config w.state) v (same_stakes _ _ (unfold configure in refl)))
  call-IsSolvent (Call.insert_stake keys d) w v f = Ensures-bind _ _ λ _ _. Ensures-done _ (record {
    well_formed =
        insert-IsWellFormed keys.account d keys w.state refl (unfold insert_stake in refl)
          v.well_formed;
    backed = f;
    held = v.held;
  })
  call-IsSolvent (Call.reward rs) w v f = Ensures-bind _ _ λ _ _. Ensures-bind _ _ λ s' done.
      let same : funds s' ≡ funds w.state = ((reward_all-rewards rs w.state).holds s' done).1 in
      Ensures-done _ (record {
        well_formed = (reward_all-IsWellFormed rs w.state v.well_formed).holds s' done;
        backed = omega (arith, same, v.backed);
        held = v.held;
      })
  call-IsSolvent (Call.slash account to_slash) w v f = Ensures-bind _ _ λ _ _.
      Ensures-mono
        (λ w' r. elim r [
          | inl same ↦ rw same v
          | inr (e, same) ↦
              (let same_balance : balance w'.transfer ≡ balance w.transfer = ap balance same in
                let kept = Slashes-funds account 0 w.state (funds_fit balance w v) e in
                record {
                  well_formed = Slashes-IsWellFormed account 0 w.state e v.well_formed;
                  backed = omega (arith, same_balance, kept);
                  held = omega (arith, same_balance);
                })
        ])
        (slash-Slashes h account to_slash w)
  call-IsSolvent (Call.hard_slash account to_slash severity) w v f = Ensures-bind _ _ λ _ _.
      Ensures-mono
        (λ w' r. elim r [
          | inl same ↦ rw same v
          | inr (burnt, e, debits) ↦
              (let moved : balance w.transfer ≡ balance w'.transfer + burnt =
                  debited burnt w.transfer w'.transfer debits in
                let kept = Slashes-funds account burnt w.state (funds_fit balance w v) e in
                record {
                  well_formed = Slashes-IsWellFormed account burnt w.state e v.well_formed;
                  backed = omega (arith, moved, kept);
                  held = omega (arith, moved);
                })
        ])
        (hard_slash-Slashes h t account to_slash severity w)
  call-IsSolvent (Call.set_burnt_amount n) w v f = Ensures-bind _ _ λ _ _.
      Ensures-done _
        (quiet w (set_burnt_amount n w.state) v (same_stakes _ _ (unfold set_burnt_amount in refl)))
