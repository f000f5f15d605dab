-- ===== src/Stake/Effects/Inversion.antt =====
-- The effect of each call that stakes or pays out, whenever it returns.
use rusk.Prelude.{ℕ, ◌≡◌, ◌≢◌, refl, ap, true, not, Option, some, ◌==◌, arith, leb→le}
use rusk.Vm.{Host, PublicKey, ContractId, Bytes, ok}
use rusk.Vm.Ensures.{
  Ensures, Ensures-bind, Ensures-expect, Ensures-call, Ensures-guard, Ensures-done,
}
use rusk.Transfer.Withdrawal.{ReceiveFromContract, ContractToContract}
use rusk.Map.{get}
use rusk.Stake.Types.{
  Stake, StakeKeys, StakeData, StakeAmount, Withdraw, WithdrawToContract, stake_message,
  withdraw_message,
}
use rusk.Stake.State.{StakeState, World, TransferCalls, get_stake_mut, unwrap_contract_owner}
use rusk.Stake.Funding.{stake, stake_from_contract}
use rusk.Stake.Payout.{unstake, unstake_from_contract, withdraw, withdraw_from_contract}
use rusk.Stake.Interface.{CallsNotBack}
use rusk.Stake.Effects.Records.{Adds, Takes, TakesReward, IsSigned, IsCaller}

pub nonzero : (n : ℕ) → not (n == 0) ≡ true → n ≢ 0
nonzero n h = ground arith

abbrev pub to_receiver : ContractId → WithdrawToContract → ContractToContract
to_receiver caller un = record {
  contract = caller;
  value = un.value;
  fn_name = un.fn_name;
  payload = un.payload;
}

same : (a b : ℕ) → (a == b) ≡ true → a ≡ b
same a b h = ground arith

kept_entry :
    (account : PublicKey) (s' s : StakeState) {x' x : StakeData × StakeKeys}
    → s'.stakes ≡ s.stakes
    → get account s'.stakes ≡ some x'
    → get account s.stakes ≡ some x
    → x' ≡ x
kept_entry account s' s e p q = cc

same_amount :
    (d' d : StakeData) {a' a : StakeAmount}
    → d' ≡ d
    → d'.amount ≡ some a'
    → d.amount ≡ some a
    → a' ≡ a
same_amount d' d e p q = cc

module _ {S : Type 0} (h : Host) where
  -- Who may have a contract's stake or reward paid out, whatever the payment does.
  abbrev pub OwnerCalls : PublicKey → World S → Type 0
  OwnerCalls account w =
      (d : StakeData) × (k : StakeKeys) × (get account w.state.stakes ≡ some (d, k))
      × (caller : ContractId) × IsCaller h k caller

module _ {S : Type 0} (h : Host) (t : TransferCalls S) where
  pub stake-Adds :
      (st : Stake) (w : World S)
      → Ensures
          (λ w'.
            (e : Adds h st.keys st.value w.state w'.state) × (t.deposit st.value w.transfer
              ≡ ok w'.transfer)
            × IsSigned h e.keys_on_record (stake_message st) st.signature)
          (stake h t st w)
  unfolding stake
  stake-Adds st w = Ensures-guard _ _ _ λ _. Ensures-bind _ _ λ (d, k) loaded.
      Ensures-guard _ _ _ λ _. Ensures-bind _ _ λ owner owned. Ensures-guard _ _ _ λ by_owner.
        Ensures-guard _ _ _ λ by_account. Ensures-call _ _ _ λ transfer deposited.
          Ensures-bind _ _ λ (amount, event) added. Ensures-done _ (
            record {
              data_before = d;
              keys_on_record = k;
              amount = amount;
              event = event;
              loaded = loaded;
              added = added;
              state = refl;
            },
            deposited,
            record { owner = owner; owned = owned; by_owner = by_owner; by_account = by_account },
          )

  pub unstake-Takes :
      (un : Withdraw) (w : World S)
      → Ensures
          (λ w'.
            (e : Takes un.account un.withdraw.value w.state w'.state) × (t.withdraw un.withdraw
                w.transfer
              ≡ ok w'.transfer)
            × IsSigned h e.keys (withdraw_message un) un.signature)
          (unstake h t un w)
  unfolding unstake get_stake_mut
  unstake-Takes un w = Ensures-expect _ _ _ λ (d, k) found. Ensures-expect _ _ _ λ amount staked.
      Ensures-guard _ _ _ λ covered. Ensures-bind _ _ λ owner owned. Ensures-guard _ _ _ λ by_owner.
        Ensures-guard _ _ _ λ by_account. Ensures-call _ _ _ λ transfer paid.
          Ensures-bind _ _ λ (left, event) taken. Ensures-guard _ _ _ λ _. Ensures-done _ (
            record {
              data_before = d;
              keys = k;
              amount = amount;
              left = left;
              event = event;
              found = found;
              staked = staked;
              covered = leb→le _ _ covered;
              taken = taken;
              state = refl;
            },
            paid,
            record { owner = owner; owned = owned; by_owner = by_owner; by_account = by_account },
          )

  pub unstake_from_contract-Takes :
      CallsNotBack t
      → (un : WithdrawToContract) (w : World S)
      → Ensures
          (λ w'.
            (e : Takes un.account un.value w.state w'.state) × (caller : ContractId) × (mid : World
              S)
            × (t.contract_to_contract (to_receiver caller un) w ≡ ok mid)
            × (w'.transfer ≡ mid.transfer)
            × IsCaller h e.keys caller)
          (unstake_from_contract h t un w)
  unfolding unstake_from_contract get_stake_mut
  unstake_from_contract-Takes quiet un w = Ensures-expect _ _ _ λ (d, k) found.
      Ensures-expect _ _ _ λ amount staked. Ensures-guard _ _ _ λ covered.
        Ensures-bind _ _ λ owner owned. Ensures-expect _ _ _ λ caller called.
          Ensures-guard _ _ _ λ is_owner. Ensures-call _ _ _ λ mid paid.
            let (quiet_state, _) = quiet.contract_to_contract (to_receiver caller un) w mid paid in
            Ensures-expect _ _ _ λ (d', k') found'. Ensures-expect _ _ _ λ amount' staked'.
              let again : (d', k') ≡ (d, k) =
                kept_entry un.account mid.state w.state (ap (λ x. x.stakes) quiet_state) found'
                  found in
              let d_again : d' ≡ d = ap (λ x. x.0) again in
              let k_again : k' ≡ k = ap (λ x. x.1) again in
              let amount_again : amount' ≡ amount = same_amount d' d d_again staked' staked in
              Ensures-bind _ _ λ (left, event) taken. Ensures-done _ (
                record {
                  data_before = d;
                  keys = k;
                  amount = amount;
                  left = left;
                  event = event;
                  found = found;
                  staked = staked;
                  covered = leb→le _ _ covered;
                  taken = rw (← k_again, ← amount_again) taken;
                  state = rw (quiet_state, d_again, k_again) refl;
                },
                caller,
                mid,
                paid,
                refl,
                record { called = called; owned = rw (same caller owner is_owner) owned },
              )

  pub unstake_from_contract-OwnerCalls :
      (un : WithdrawToContract) (w : World S)
      → Ensures (λ _. OwnerCalls h un.account w) (unstake_from_contract h t un w)
  unfolding unstake_from_contract get_stake_mut
  unstake_from_contract-OwnerCalls un w = Ensures-expect _ _ _ λ (d, k) found.
      Ensures-expect _ _ _ λ _ _. Ensures-guard _ _ _ λ _. Ensures-bind _ _ λ owner owned.
        Ensures-expect _ _ _ λ caller called. Ensures-guard _ _ _ λ is_owner. record {
          holds = λ _ _. (
            d,
            k,
            found,
            caller,
            record { called = called; owned = rw (same caller owner is_owner) owned },
          );
        }

  pub withdraw_from_contract-OwnerCalls :
      (wd : WithdrawToContract) (w : World S)
      → Ensures (λ _. OwnerCalls h wd.account w) (withdraw_from_contract h t wd w)
  unfolding withdraw_from_contract get_stake_mut
  withdraw_from_contract-OwnerCalls wd w = Ensures-expect _ _ _ λ (d, k) found.
      Ensures-guard _ _ _ λ _. Ensures-guard _ _ _ λ _. Ensures-bind _ _ λ owner owned.
        Ensures-expect _ _ _ λ caller called. Ensures-guard _ _ _ λ is_owner. record {
          holds = λ _ _. (
            d,
            k,
            found,
            caller,
            record { called = called; owned = rw (same caller owner is_owner) owned },
          );
        }

  pub withdraw-TakesReward :
      (wd : Withdraw) (w : World S)
      → Ensures
          (λ w'.
            (e : TakesReward wd.account wd.withdraw.value w.state w'.state) × (t.mint wd.withdraw
                w.transfer
              ≡ ok w'.transfer)
            × IsSigned h e.keys (withdraw_message wd) wd.signature)
          (withdraw h t wd w)
  unfolding withdraw get_stake_mut
  withdraw-TakesReward wd w = Ensures-expect _ _ _ λ (d, k) found. Ensures-guard _ _ _ λ positive.
      Ensures-guard _ _ _ λ covered. Ensures-bind _ _ λ owner owned. Ensures-guard _ _ _ λ by_owner.
        Ensures-guard _ _ _ λ by_account. Ensures-call _ _ _ λ transfer minted.
          Ensures-bind _ _ λ reward lowered. Ensures-done _ (
            record {
              data_before = d;
              keys = k;
              reward = reward;
              found = found;
              positive = nonzero _ positive;
              covered = leb→le _ _ covered;
              lowered = lowered;
              state = refl;
            },
            minted,
            record { owner = owner; owned = owned; by_owner = by_owner; by_account = by_account },
          )

  pub withdraw_from_contract-TakesReward :
      CallsNotBack t
      → (wd : WithdrawToContract) (w : World S)
      → Ensures
          (λ w'.
            (e : TakesReward wd.account wd.value w.state w'.state) × (caller : ContractId)
            × (mid : World S) × (t.mint_to_contract (to_receiver caller wd) w ≡ ok mid)
            × (w'.transfer ≡ mid.transfer)
            × IsCaller h e.keys caller)
          (withdraw_from_contract h t wd w)
  unfolding withdraw_from_contract get_stake_mut
  withdraw_from_contract-TakesReward quiet wd w = Ensures-expect _ _ _ λ (d, k) found.
      Ensures-guard _ _ _ λ positive. Ensures-guard _ _ _ λ covered. Ensures-bind _ _ λ owner owned.
        Ensures-expect _ _ _ λ caller called. Ensures-guard _ _ _ λ is_owner.
          Ensures-call _ _ _ λ mid minted.
            let (quiet_state, _) = quiet.mint_to_contract (to_receiver caller wd) w mid minted in
            Ensures-expect _ _ _ λ (d', k') found'.
              let again : (d', k') ≡ (d, k) =
                kept_entry wd.account mid.state w.state (ap (λ x. x.stakes) quiet_state) found'
                  found in
              let d_again : d' ≡ d = ap (λ x. x.0) again in
              let k_again : k' ≡ k = ap (λ x. x.1) again in
              Ensures-bind _ _ λ reward lowered. Ensures-done _ (
                record {
                  data_before = d;
                  keys = k;
                  reward = reward;
                  found = found;
                  positive = nonzero _ positive;
                  covered = leb→le _ _ covered;
                  lowered = rw (← d_again) lowered;
                  state = rw (quiet_state, d_again, k_again) refl;
                },
                caller,
                mid,
                minted,
                refl,
                record { called = called; owned = rw (same caller owner is_owner) owned },
              )

  -- The transfer contract has credited the value before it makes this call.
  pub stake_from_contract-Adds :
      (decode : Bytes → Option Stake) (recv : ReceiveFromContract) (w : World S)
      → Ensures
          (λ w'.
            (st : Stake) × (decode recv.payload ≡ some st)
            × (st.value ≡ recv.value)
            × (e : Adds h st.keys recv.value w.state w'.state) × (unwrap_contract_owner
                  e.keys_on_record.owner
                ≡ ok recv.contract)
            × (w'.transfer ≡ w.transfer))
          (stake_from_contract h t decode recv w)
  unfolding stake_from_contract
  stake_from_contract-Adds decode recv w = Ensures-expect _ _ _ λ st decoded.
      Ensures-guard _ _ _ λ _. Ensures-bind _ _ λ (d, k) loaded. Ensures-bind _ _ λ contract owned.
        Ensures-guard _ _ _ λ is_owner. Ensures-guard _ _ _ λ same_value. Ensures-guard _ _ _ λ _.
          Ensures-guard _ _ _ λ _. Ensures-bind _ _ λ (amount, event) added. Ensures-done _ (
            st,
            decoded,
            same _ _ same_value,
            record {
              data_before = d;
              keys_on_record = k;
              amount = amount;
              event = event;
              loaded = loaded;
              added = rw (← same _ _ same_value) added;
              state = refl;
            },
            rw (← same _ _ is_owner) owned,
            refl,
          )
