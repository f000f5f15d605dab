-- ===== src/Stake/Penalty.antt =====
-- contracts/stake/src/state.rs: the management calls that reward and slash provisioners.
use rusk.Prelude.{
  ℕ, ◌+◌, ◌-◌, ◌/◌, ◌||◌, Option, none, some, List, [], ◌∷◌, ◌++◌, ltb, min, if◌then◌else◌,
  unwrap_or,
}
use rusk.Vm.{
  Host, PublicKey, Outcome, ok, expect, expect_call, add_u64, sub_u64, mul_u64, ◌>>=◌,
  transfer_call_failed, no_stake, u8_max,
}
use rusk.Transfer.Withdrawal.{stake_contract}
use rusk.Stake.Types.{
  StakeKeys, StakeData, StakeAmount, Reward, SlashEvent, epoch, next_epoch, single_key, lock_amount,
}
use rusk.Stake.State.{
  StakeState, World, TransferCalls, Event, get_stake_mut, load_or_create_stake_mut, remember, put,
}

-- `u8::saturating_add`
abbrev pub saturating_add_u8 : ℕ → ℕ → ℕ
saturating_add_u8 a b = min (a + b) u8_max

-- One round of the loop of `reward`. The fault counters are reset only where a stake exists.
unfoldable pub reward_one : Reward → StakeState → Outcome StakeState
reward_one r s = elim (get_stake_mut r.account s) [
  | some (stake_data, keys) ↦ (do
    sum ← add_u64 stake_data.reward r.value
    let entry : StakeData × StakeKeys =
        (record stake_data { reward = sum; faults = 0; hard_faults = 0 }, keys)
    ok (put r.account entry s))
  | none ↦ (do
    (stake_data, keys) ← load_or_create_stake_mut (single_key r.account) s
    sum ← add_u64 stake_data.reward r.value
    let entry : StakeData × StakeKeys = (record stake_data { reward = sum }, keys)
    ok (put r.account entry s))
]

unfoldable pub reward_all : List Reward → StakeState → Outcome StakeState
reward_all [] s = ok s
reward_all (r ∷ rs) s = do s' ← reward_one r s; reward_all rs s'

-- No event is sent for no rewards.
abbrev pub reward_events : List Reward → List Event
reward_events [] = []
reward_events (r ∷ rs) = Event.reward (r ∷ rs) ∷ []

-- `value / 100 * faults * 10`, the share that is slashed where the caller names no amount.
unfoldable pub percentage : ℕ → ℕ → Outcome ℕ
percentage value faults = do share ← mul_u64 (value / 100) faults; mul_u64 share 10

-- `to_slash.unwrap_or(percentage)`: the argument of `unwrap_or` is computed in any case.
unfoldable pub amount_to_slash : Option ℕ → ℕ → ℕ → Outcome ℕ
unfolding percentage
amount_to_slash to_slash value faults = do
  share ← percentage value faults
  ok (min (unwrap_or to_slash share) value)

-- The rest of the current epoch plus `faults` epochs.
unfoldable pub suspended_until : Host → ℕ → Outcome ℕ
suspended_until h faults = do
  to_shift ← mul_u64 faults epoch
  add_u64 (next_epoch h.block_height) to_shift

-- The eligibility moves only once the warnings are used up.
unfoldable pub slash_eligibility : Host → ℕ → StakeAmount → Outcome ℕ
unfolding suspended_until
slash_eligibility h effective_faults stake_amount =
    if ltb 0 effective_faults
    then suspended_until h effective_faults
    else ok stake_amount.eligibility

-- `if to_slash > 0 { stake_amount.lock_amount(to_slash) }`
unfoldable pub lock_slashed : ℕ → StakeAmount → StakeAmount
unfolding lock_amount
lock_slashed slashed a = if ltb 0 slashed then lock_amount slashed a else a

module _ {S : Type 0} where
  unfoldable pub reward : List Reward → World S → Outcome (World S)
  reward rewards w = do
    state ← reward_all rewards w.state
    ok (record w { state = state; events = w.events ++ reward_events rewards })

module _ {S : Type 0} (h : Host) where
  -- The rest of `slash`, for a stake with an amount.
  unfoldable pub slash_amount :
      PublicKey → Option ℕ → StakeData → StakeKeys → StakeAmount → World S → Outcome (World S)
  slash_amount account to_slash stake_data keys stake_amount w = do
    let faults = saturating_add_u8 stake_data.faults 1
    let effective_faults = faults - w.state.config.warnings
    eligibility ← slash_eligibility h effective_faults stake_amount
    slashed ← amount_to_slash to_slash stake_amount.value effective_faults
    let shifted : StakeAmount = record stake_amount { eligibility = eligibility }
    let amount = lock_slashed slashed shifted
    let entry : StakeData × StakeKeys =
        (record stake_data { amount = some amount; faults = faults }, keys)
    let event : SlashEvent = record {
      account = account;
      value = slashed;
      next_eligibility = eligibility;
    }
    ok (record w {
      state = remember account (some stake_data) (put account entry w.state);
      events =
          if ltb 0 slashed || ltb 0 effective_faults
          then w.events ++ Event.slash event ∷ []
          else w.events;
    })

  unfoldable pub slash : PublicKey → Option ℕ → World S → Outcome (World S)
  slash account to_slash w = do
    (stake_data, keys) ← expect (get_stake_mut account w.state) no_stake
    elim stake_data.amount [
      | none ↦ ok w
      | some stake_amount ↦ slash_amount account to_slash stake_data keys stake_amount w
    ]

module _ {S : Type 0} (h : Host) (t : TransferCalls S) where
  -- `deduct_contract_balance`, under `if to_slash > 0`
  unfoldable pub burn : ℕ → StakeState → S → Outcome (ℕ × S)
  burn to_slash s transfer =
      if ltb 0 to_slash
      then (do
        transfer' ←
            expect_call (t.sub_contract_balance stake_contract to_slash transfer)
              transfer_call_failed
        burnt_amount ← add_u64 s.burnt_amount to_slash
        ok (burnt_amount, transfer'))
      else ok (s.burnt_amount, transfer)

  unfoldable pub hard_slash_amount :
      PublicKey
      → Option ℕ
      → Option ℕ
      → StakeData
      → StakeKeys
      → StakeAmount
      → World S
      → Outcome (World S)
  hard_slash_amount account to_slash severity stake_data keys stake_amount w = do
    let hard_faults = saturating_add_u8 stake_data.hard_faults (unwrap_or severity 1)
    next_eligibility ← suspended_until h hard_faults
    slashed ← amount_to_slash to_slash stake_amount.value hard_faults
    value ← sub_u64 stake_amount.value slashed
    (burnt_amount, transfer) ← burn slashed w.state w.transfer
    let amount : StakeAmount = record stake_amount { value = value; eligibility = next_eligibility }
    let entry : StakeData × StakeKeys =
        (record stake_data { amount = some amount; hard_faults = hard_faults }, keys)
    let event : SlashEvent = record {
      account = account;
      value = slashed;
      next_eligibility = next_eligibility;
    }
    let state = record (put account entry w.state) { burnt_amount = burnt_amount }
    ok (record {
      state = remember account (some stake_data) state;
      transfer = transfer;
      events = w.events ++ Event.hard_slash event ∷ [];
    })

  unfoldable pub hard_slash : PublicKey → Option ℕ → Option ℕ → World S → Outcome (World S)
  hard_slash account to_slash severity w = do
    (stake_data, keys) ← expect (get_stake_mut account w.state) no_stake
    elim stake_data.amount [
      | none ↦ ok w
      | some stake_amount ↦
          hard_slash_amount account to_slash severity stake_data keys stake_amount w
    ]
