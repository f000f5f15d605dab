-- ===== src/Stake/Permission.antt =====
-- Who may make each call of the stake contract.
use rusk.Prelude.{ℕ, ◌≡◌, ◌≤◌, ◌||◌, is_some, leb→le, true, Option, none, some, arith, ◌==◌}
use rusk.Vm.{Host, PublicKey, ContractId, Bytes, Outcome, ok, ◌>>◌, guard, bad_caller}
use rusk.Vm.Ensures.{
  Ensures, Ensures-bind, Ensures-expect, Ensures-guard, Ensures-mono, guard-eq-ok,
}
use rusk.Map.{get}
use rusk.Transfer.Withdrawal.{ReceiveFromContract, transfer_contract}
use rusk.Stake.Types.{Stake, StakeKeys, StakeData, stake_message, withdraw_message}
use rusk.Stake.State.{World, TransferCalls, load_or_create_stake_mut, unwrap_contract_owner}
use rusk.Stake.Funding.{stake_from_contract}
use rusk.Stake.Calls.{Call, call, assert_external_caller, assert_transfer_caller}
use rusk.Stake.Effects.{
  IsSigned, OwnerCalls, stake-Adds, unstake-Takes, unstake_from_contract-OwnerCalls,
  withdraw-TakesReward, withdraw_from_contract-OwnerCalls,
}

caller_is :
    (h : Host) (who : ContractId) {caller : ContractId}
    → h.caller ≡ some caller
    → (caller == who) ≡ true
    → h.caller ≡ some who
caller_is h who e f = ground arith

pub transfer_calls :
    (h : Host) → Ensures (λ _. h.caller ≡ some transfer_contract) (assert_transfer_caller h)
unfolding assert_transfer_caller
transfer_calls h = Ensures-expect _ _ _ λ caller is. record {
  holds = λ u e.
      caller_is h transfer_contract is (guard-eq-ok (caller == transfer_contract) bad_caller e);
}

pub external_calls : (h : Host) → Ensures (λ _. h.caller ≡ none) (assert_external_caller h)
unfolding assert_external_caller guard
external_calls h = record { holds = λ a e. ground arith }

same : (a b : ℕ) → (a == b) ≡ true → a ≡ b
same a b e = ground arith

-- A contract's stake comes through an inner call of the transfer contract, which names the contract
-- that the value comes from: that contract owns the stake, and the account signed it if it is new.
pub record IsReceived (h : Host) (recv : ReceiveFromContract) (st : Stake) (d : StakeData)
    (k : StakeKeys) : Type 0 where
  pub inner_call : 2 ≤ h.callstack_len
  pub on_chain : st.chain_id ≡ h.chain_id
  pub owned : unwrap_contract_owner k.owner ≡ ok recv.contract
  pub received : st.value ≡ recv.value
  pub signed :
      (is_some d.amount || h.verify_bls (stake_message st) st.keys.account st.signature.account)
      ≡ true

module _ {S : Type 0} (h : Host) where
  -- The keys on record for the account have signed, or their owner is the contract that calls.
  abbrev SignedBy : PublicKey → (StakeKeys → Type 0) → World S → Type 0
  SignedBy account agreed w =
      (d : StakeData) × (k : StakeKeys) × (get account w.state.stakes ≡ some (d, k)) × agreed k

  unfoldable pub IsPermitted : (Bytes → Option Stake) → Call → World S → Type 0
  IsPermitted decode (Call.stake st) w =
      (h.caller ≡ some transfer_contract)
      × (d : StakeData) × (k : StakeKeys) × (load_or_create_stake_mut st.keys w.state ≡ ok (d, k))
      × IsSigned h k (stake_message st) st.signature
  IsPermitted decode (Call.stake_from_contract recv) w =
      (h.caller ≡ some transfer_contract)
      × (st : Stake) × (d : StakeData) × (k : StakeKeys) × (decode recv.payload ≡ some st)
      × (load_or_create_stake_mut st.keys w.state ≡ ok (d, k))
      × IsReceived h recv st d k
  IsPermitted decode (Call.unstake un) w =
      (h.caller ≡ some transfer_contract)
      × SignedBy un.account (λ k. IsSigned h k (withdraw_message un) un.signature) w
  IsPermitted decode (Call.withdraw wd) w =
      (h.caller ≡ some transfer_contract)
      × SignedBy wd.account (λ k. IsSigned h k (withdraw_message wd) wd.signature) w
  IsPermitted decode (Call.unstake_from_contract un) w = OwnerCalls h un.account w
  IsPermitted decode (Call.withdraw_from_contract wd) w = OwnerCalls h wd.account w
  IsPermitted decode _ w = h.caller ≡ none

  stake_from_contract-IsReceived :
      (t : TransferCalls S) (decode : Bytes → Option Stake) (recv : ReceiveFromContract)
      (w : World S)
      → 2 ≤ h.callstack_len
      → Ensures
          (λ _.
            (st : Stake) × (d : StakeData) × (k : StakeKeys) × (decode recv.payload ≡ some st)
            × (load_or_create_stake_mut st.keys w.state ≡ ok (d, k))
            × IsReceived h recv st d k)
          (stake_from_contract h t decode recv w)
  unfolding stake_from_contract
  stake_from_contract-IsReceived t decode recv w deep = Ensures-expect _ _ _ λ st decoded.
      Ensures-guard _ _ _ λ chain. Ensures-bind _ _ λ (d, k) loaded.
        Ensures-bind _ _ λ contract owned. Ensures-guard _ _ _ λ sender.
          Ensures-guard _ _ _ λ value. Ensures-guard _ _ _ λ _. Ensures-guard _ _ _ λ signed.
            record {
              holds = λ _ _. (
                st,
                d,
                k,
                decoded,
                loaded,
                record {
                  inner_call = deep;
                  on_chain = same _ _ chain;
                  owned = rw (← same contract recv.contract sender) owned;
                  received = same _ _ value;
                  signed = signed;
                },
              );
            }

  weaken :
      (m : Outcome (World S)) {b : Outcome (Unit {0})}
      → Ensures (λ _. h.caller ≡ none) b
      → Ensures (λ _. h.caller ≡ none) (b >> m)
  weaken m e = Ensures-bind _ _ λ u done. record { holds = λ _ _. e.holds u done }

  pub call-IsPermitted :
      (t : TransferCalls S) (decode : Bytes → Option Stake) (c : Call) (w : World S)
      → Ensures (λ _. IsPermitted decode c w) (call h t decode c w)
  unfolding call IsPermitted
  call-IsPermitted t decode (Call.stake st) w = Ensures-bind _ _ λ u by.
      Ensures-mono
        (λ w' (e, _, signed).
          ((transfer_calls h).holds u by, e.data_before, e.keys_on_record, e.loaded, signed))
        (stake-Adds h t st w)
  call-IsPermitted t decode (Call.stake_from_contract recv) w = Ensures-bind _ _ λ u by.
      Ensures-guard _ _ _ λ deep.
        Ensures-mono
          (λ w' (st, d, k, decoded, loaded, received).
            ((transfer_calls h).holds u by, st, d, k, decoded, loaded, received))
          (stake_from_contract-IsReceived t decode recv w (leb→le _ _ deep))
  call-IsPermitted t decode (Call.unstake un) w = Ensures-bind _ _ λ u by.
      Ensures-mono
        (λ w' (e, _, signed).
          ((transfer_calls h).holds u by, (e.data_before, e.keys, e.found, signed)))
        (unstake-Takes h t un w)
  call-IsPermitted t decode (Call.withdraw wd) w = Ensures-bind _ _ λ u by.
      Ensures-mono
        (λ w' (e, _, signed).
          ((transfer_calls h).holds u by, (e.data_before, e.keys, e.found, signed)))
        (withdraw-TakesReward h t wd w)
  call-IsPermitted t decode (Call.unstake_from_contract un) w =
      unstake_from_contract-OwnerCalls h t un w
  call-IsPermitted t decode (Call.withdraw_from_contract wd) w =
      withdraw_from_contract-OwnerCalls h t wd w
  call-IsPermitted t decode Call.before_state_transition w = weaken _ (external_calls h)
  call-IsPermitted t decode (Call.set_config config) w = weaken _ (external_calls h)
  call-IsPermitted t decode (Call.insert_stake keys d) w = weaken _ (external_calls h)
  call-IsPermitted t decode (Call.reward rs) w = weaken _ (external_calls h)
  call-IsPermitted t decode (Call.slash account to_slash) w = weaken _ (external_calls h)
  call-IsPermitted t decode (Call.hard_slash account to_slash severity) w =
      weaken _ (external_calls h)
  call-IsPermitted t decode (Call.set_burnt_amount n) w = weaken _ (external_calls h)
