-- ===== src/Stake/Effects/Penalties.antt =====
-- The effect of the management calls that reward and slash, whenever they return.
use rusk.Prelude.{
  ℕ, ◌+◌, ◌≤◌, ◌<◌, ◌≡◌, refl, ◌⊎◌, inl, inr, Option, none, some, ltb, arith, unwrap_or,
}
use rusk.Vm.{Host, PublicKey, Outcome, ok, u64_mod, ◌>>=◌, mul_u64}
use rusk.Vm.Ensures.{
  Ensures, Ensures-bind, Ensures-expect, Ensures-call, Ensures-option, Ensures-if, Ensures-done,
  sub_u64-eq-ok, add_u64-eq-ok,
}
use rusk.Map.{get, insert, or_insert}
use rusk.Transfer.Withdrawal.{stake_contract}
use rusk.Stake.Types.{StakeKeys, StakeData, StakeAmount, Reward, single_key}
use rusk.Stake.State.{
  StakeState, World, TransferCalls, get_stake_mut, remember, put, load_or_create_stake_mut,
}
use rusk.Stake.Penalty.{
  amount_to_slash, saturating_add_u8, slash_amount, slash, burn, hard_slash_amount, hard_slash,
  lock_slashed, reward_one,
}

-- The stake of `account` has been slashed, and `burnt` has left it for good.
pub record Slashes (account : PublicKey) (burnt : ℕ) (s s' : StakeState) : Type 0 where
  pub data_before : StakeData
  pub data_after : StakeData
  pub keys : StakeKeys
  pub before : StakeAmount
  pub after : StakeAmount
  pub found : get account s.stakes ≡ some (data_before, keys)
  pub staked : data_before.amount ≡ some before
  pub still_staked : data_after.amount ≡ some after
  pub same_reward : data_after.reward ≡ data_before.reward
  -- As far as the sum of the parts fits in a word, it drops by what is burnt.
  pub conserved :
      before.value + before.locked < u64_mod
      → after.value + after.locked + burnt ≡ before.value + before.locked
  pub stakes : s'.stakes ≡ insert account (data_after, keys) s.stakes
  pub previous :
      s'.previous_block_state ≡ or_insert account (some data_before, account) s.previous_block_state
  pub burnt_more : s'.burnt_amount ≡ s.burnt_amount + burnt
  pub same_config : s'.config ≡ s.config

pub amount_to_slash-le :
    (o : Option ℕ) (value faults : ℕ) {slashed : ℕ}
    → amount_to_slash o value faults ≡ ok slashed
    → slashed ≤ value
unfolding amount_to_slash mul_u64 ◌>>=◌
amount_to_slash-le o value faults e = ground arith

lock_slashed-conserves :
    (slashed : ℕ) (a : StakeAmount)
    → slashed ≤ a.value
    → a.value + a.locked < u64_mod
    → (lock_slashed slashed a).value + (lock_slashed slashed a).locked + 0 ≡ a.value + a.locked
unfolding lock_slashed
lock_slashed-conserves slashed a h fits = ground arith

module _ {S : Type 0} (h : Host) where
  pub slash-Slashes :
      (account : PublicKey) (to_slash : Option ℕ) (w : World S)
      → Ensures
          (λ w'. (w' ≡ w) ⊎ (Slashes account 0 w.state w'.state × (w'.transfer ≡ w.transfer)))
          (slash h account to_slash w)
  unfolding slash slash_amount get_stake_mut remember put
  slash-Slashes account to_slash w = Ensures-expect _ _ _ λ (d, k) found.
      Ensures-option _ _ _ (λ _. Ensures-done _ (inl refl))
        λ amount staked. Ensures-bind _ _ λ eligibility shifted. Ensures-bind _ _ λ slashed bounded.
          Ensures-done _ (
            inr (
              record {
                data_before = d;
                data_after = record d {
                  amount = some (after eligibility slashed amount);
                  faults = saturating_add_u8 d.faults 1;
                };
                keys = k;
                before = amount;
                after = after eligibility slashed amount;
                found = found;
                staked = staked;
                still_staked = refl;
                same_reward = refl;
                conserved = λ fits.
                    lock_slashed-conserves slashed (record amount { eligibility = eligibility })
                      (amount_to_slash-le to_slash amount.value _ bounded) fits;
                stakes = refl;
                previous = refl;
                burnt_more = omega arith;
                same_config = refl;
              },
              refl,
            ))
    where
      after : ℕ → ℕ → StakeAmount → StakeAmount
      after eligibility slashed amount =
          lock_slashed slashed (record amount { eligibility = eligibility })

-- The transfer contract has been told of what is burnt, if anything is.
abbrev pub Debits {ℓ} : {S : Type ℓ} → (ℕ → S → Outcome S) → ℕ → S → S → Type ℓ
Debits debit burnt s s' = ((burnt ≡ 0) × (s' ≡ s)) ⊎ (debit burnt s ≡ ok s')

module _ {S : Type 0} (h : Host) (t : TransferCalls S) where
  abbrev debit : ℕ → S → Outcome S
  debit = t.sub_contract_balance stake_contract

  burn-eq-ok :
      (slashed : ℕ) (s : StakeState) (before : S)
      → Ensures
          (λ r. (r.0 ≡ s.burnt_amount + slashed) × Debits debit slashed before r.1)
          (burn h t slashed s before)
  unfolding burn
  burn-eq-ok slashed s before =
      Ensures-if (ltb 0 slashed) _ _
        (λ _. Ensures-call _ _ _ λ transfer paid.
          Ensures-bind _ _
            λ b added. Ensures-done _ ((add_u64-eq-ok s.burnt_amount slashed added).0, inr paid))
        (λ none_burnt. Ensures-done _ (ground arith, inl (ground arith, refl)))

  pub hard_slash-Slashes :
      (account : PublicKey) (to_slash severity : Option ℕ) (w : World S)
      → Ensures
          (λ w'.
            (w' ≡ w)
            ⊎ ((burnt : ℕ) × Slashes account burnt w.state w'.state
                × Debits debit burnt w.transfer w'.transfer))
          (hard_slash h t account to_slash severity w)
  unfolding hard_slash hard_slash_amount get_stake_mut remember put
  hard_slash-Slashes account to_slash severity w = Ensures-expect _ _ _ λ (d, k) found.
      Ensures-option _ _ _ (λ _. Ensures-done _ (inl refl))
        λ amount staked. Ensures-bind _ _ λ next shifted. Ensures-bind _ _ λ slashed bounded.
          Ensures-bind _ _ λ value lowered. Ensures-bind _ _ λ (burnt_amount, transfer) burnt.
            Ensures-done _ (
              inr (
                slashed,
                record {
                  data_before = d;
                  data_after = record d {
                    amount = some (record amount { value = value; eligibility = next });
                    hard_faults = saturating_add_u8 d.hard_faults (unwrap_or severity 1);
                  };
                  keys = k;
                  before = amount;
                  after = record amount { value = value; eligibility = next };
                  found = found;
                  staked = staked;
                  still_staked = refl;
                  same_reward = refl;
                  conserved = λ fits. omega (arith, sub_u64-eq-ok amount.value slashed lowered);
                  stakes = refl;
                  previous = refl;
                  burnt_more = ((burn-eq-ok slashed w.state w.transfer).holds _ burnt).0;
                  same_config = refl;
                },
                ((burn-eq-ok slashed w.state w.transfer).holds _ burnt).1,
              ))

abbrev pub amount_of : Option (StakeData × StakeKeys) → Option StakeAmount
amount_of none = none
amount_of (some (d, k)) = d.amount

abbrev pub reward_of : Option (StakeData × StakeKeys) → ℕ
reward_of none = 0
reward_of (some (d, k)) = d.reward

-- `value` has been added to the reward of `account`, whose stake is as it was.
pub record Rewards (account : PublicKey) (value : ℕ) (s s' : StakeState) : Type 0 where
  pub data_after : StakeData
  pub keys : StakeKeys
  pub same_amount : data_after.amount ≡ amount_of (get account s.stakes)
  pub raised : data_after.reward ≡ reward_of (get account s.stakes) + value
  pub state : s' ≡ put account (data_after, keys) s
  pub keyed_if_new : get account s.stakes ≡ none → keys.account ≡ account
  pub same_keys :
      (d : StakeData) (k : StakeKeys)
      → get account s.stakes ≡ some (d, k)
      → keys.account ≡ k.account

load_new :
    (keys : StakeKeys) (s : StakeState) {d : StakeData} {k : StakeKeys}
    → get keys.account s.stakes ≡ none
    → load_or_create_stake_mut keys s ≡ ok (d, k)
    → (d.amount ≡ none) × (d.reward ≡ 0) × (k.account ≡ keys.account)
unfolding load_or_create_stake_mut
load_new keys s new e = ground arith

pub reward_one-Rewards :
    (r : Reward) (s : StakeState) → Ensures (Rewards r.account r.value s) (reward_one r s)
unfolding reward_one get_stake_mut single_key
reward_one-Rewards r s =
    Ensures-option (get r.account s.stakes) _ _
      (λ new. Ensures-bind _ _ λ (d, k) loaded. Ensures-bind _ _ λ sum added.
        let empty = load_new (single_key r.account) s new loaded in
        Ensures-done _ (record {
          data_after = record d { reward = sum };
          keys = k;
          same_amount = rw new empty.0;
          raised = rw new (omega (arith, empty.1, add_u64-eq-ok d.reward r.value added));
          state = refl;
          keyed_if_new = λ _. empty.2;
          same_keys = λ d' k' old. cc;
        }))
      (λ (d, k) old. Ensures-bind _ _ λ sum added. Ensures-done _ (record {
        data_after = record d { reward = sum; faults = 0; hard_faults = 0 };
        keys = k;
        same_amount = rw old;
        raised = rw old (add_u64-eq-ok d.reward r.value added).0;
        state = refl;
        keyed_if_new = λ new. cc;
        same_keys = λ d' k' old'. ground arith;
      }))
