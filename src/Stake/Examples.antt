-- ===== src/Stake/Examples.antt =====
-- One account with a stake of 1000 LUX, over a transfer contract that keeps nothing but the balance
-- of the stake contract.
use rusk.Prelude.{ℕ, ◌+◌, ◌≡◌, ◌≢◌, refl, sym, ap, true, Option, none, some, List, [], ◌∷◌, arith}
use rusk.Vm.{Host, PublicKey, Bytes, ok, add_u64, sub_u64, ◌>>=◌}
use rusk.Vm.Ensures.{Ensures, Ensures-bind, Ensures-done, add_u64-eq-ok, sub_u64-eq-ok}
use rusk.Map.Weight.{total}
use rusk.Map.{get, insert, or_insert}
use rusk.Transfer.Withdrawal.{
  transfer_contract, stake_contract, WithdrawReceiver, WithdrawReplayToken, WithdrawSignature,
}
use rusk.Stake.Types.{
  Stake, StakeConfig, StakeFundOwner, StakeKeys, StakeData, StakeAmount, Withdraw,
  WithdrawToContract, total_funds,
}
use rusk.Stake.State.{
  World, TransferCalls, get_stake, get_stake_mut, unwrap_account_owner, unwrap_contract_owner,
  remember, put,
}
use rusk.Stake.Payout.{unstake, withdraw_from_contract, take_reward, take_from_amount, settle}
use rusk.Stake.Calls.{Call, call, assert_transfer_caller}
use rusk.Stake.Interface.{TransferLaws, CallsNotBack}
use rusk.Stake.Solvency.{IsSolvent}
use rusk.Stake.Funds.{funds, rewards}
use rusk.Stake.Permission.{IsPermitted}
use rusk.Stake.History.{Step, settled, step, run, IsFundedRun, IsBlock, run-SameStart}
use rusk.Stake.BlockStart.{block_start}
use rusk.Stake.Opening.{IsOpening, stake_opens}
use rusk.Stake.Funding
use rusk.Stake.Guarantees.{call_moves_exactly, call_was-IsPermitted}

abbrev purse : TransferCalls ℕ
purse = record {
  deposit = λ value s. add_u64 s value;
  withdraw = λ w s. sub_u64 s w.value;
  contract_to_contract =
      λ c w. (sub_u64 w.transfer c.value >>= λ transfer. ok (record w { transfer = transfer }));
  mint = λ _ s. ok s;
  mint_to_contract = λ _ w. ok w;
  sub_contract_balance = λ _ value s. sub_u64 s value;
}

abbrev coins : ℕ → ℕ
coins s = s

purse-pays :
    (value : ℕ) (w : World ℕ)
    → Ensures
        (λ w'.
          (w'.state ≡ w.state)
          × (w'.events ≡ w.events)
          × (sub_u64 w.transfer value ≡ ok w'.transfer))
        (sub_u64 w.transfer value >>= λ transfer. ok (record w { transfer = transfer }))
purse-pays value w = Ensures-bind _ _ λ s' paid. Ensures-done _ (refl, refl, paid)

purse-CallsNotBack : CallsNotBack purse
purse-CallsNotBack = record {
  contract_to_contract = λ c w w' e. let (s, v, _) = (purse-pays c.value w).holds w' e in (s, v);
  mint_to_contract = λ c w w' e.
      let same : w ≡ w' = cc in (ap (λ x. x.state) (sym same), ap (λ x. x.events) (sym same));
}

purse-TransferLaws : TransferLaws purse coins
purse-TransferLaws = record {
  deposit = λ value s s' e. add_u64-eq-ok s value e;
  withdraw = λ w s s' e. omega (arith, sub_u64-eq-ok s w.value e);
  not_back = purse-CallsNotBack;
  contract_to_contract = λ c w w' fits e.
      let m = sub_u64-eq-ok w.transfer c.value ((purse-pays c.value w).holds w' e).2 in
      (omega (arith, m), omega (arith, m));
  mint = λ w s s' e. cc;
  mint_to_contract = λ c w w' fits e. let same : w ≡ w' = cc in rw (← same) (omega arith, fits);
  sub_contract_balance = λ value s s' e. omega (arith, sub_u64-eq-ok s value e);
}

abbrev host : Host
host = record {
  chain_id = 1;
  block_height = 5000;
  caller = some transfer_contract;
  callstack_len = 1;
  is_valid = λ _. true;
  verify_bls = λ _ _ _. true;
}

abbrev staker : StakeKeys
staker = record { account = 7; owner = StakeFundOwner.account 9 }

abbrev staked : StakeData
staked = record {
  amount = some (record { value = 900; locked = 100; eligibility = 4320 });
  reward = 50;
  faults = 0;
  hard_faults = 0;
}

abbrev config : StakeConfig
config = record { warnings = 1; minimum_stake = 500 }

abbrev world : World ℕ
world = record {
  state = record {
    burnt_amount = 0;
    config = config;
    previous_block_state = [];
    stakes = (7, (staked, staker)) ∷ [];
  };
  transfer = 1000;
  events = [];
}

abbrev leaving : Withdraw
leaving = record {
  account = 7;
  withdraw = record {
    contract = stake_contract;
    value = 300;
    receiver = WithdrawReceiver.moonlight 9;
    token = WithdrawReplayToken.moonlight 1;
    signature = WithdrawSignature.moonlight 3;
  };
  signature = record { account = 1; owner = 2 };
}

abbrev no_decode : Bytes → Option Stake
no_decode _ = none

abbrev after : World ℕ
after = settled world (call host purse no_decode (Call.unstake leaving) world)

left : call host purse no_decode (Call.unstake leaving) world ≡ ok after
unfolding call assert_transfer_caller ◌>>=◌ unstake get_stake_mut get unwrap_account_owner
    take_from_amount settle remember put total_funds sub_u64 insert or_insert
left = refl

world-IsSolvent : IsSolvent coins world
unfolding funds get total
world-IsSolvent = record {
  well_formed = record { sorted = (omega arith, tt); keyed = λ k d keys e. ground arith };
  backed = omega arith;
  held = omega arith;
}

call_moves_exactly_example :
    (funds after.state + after.state.burnt_amount + 300 ≡ funds world.state + 0 + 0)
    × (rewards after.state + 0 ≡ rewards world.state + 0)
unfolding funds total
call_moves_exactly_example =
    call_moves_exactly host purse no_decode (Call.unstake leaving) world after left
      purse-CallsNotBack tt (omega arith)

call_was-IsPermitted_example : IsPermitted host no_decode (Call.unstake leaving) world
call_was-IsPermitted_example =
    call_was-IsPermitted host purse no_decode (Call.unstake leaving) world after left

abbrev history : List (Step ℕ)
history = Step.calls host (Call.unstake leaving) ∷ Step.elsewhere 750 ∷ []

run-SameStart_example :
    block_start (run (λ _. purse) no_decode history world).state 7 ≡ block_start world.state 7
unfolding IsBlock IsFundedRun step call assert_transfer_caller ◌>>=◌ unstake get_stake_mut get
    unwrap_account_owner take_from_amount settle remember put total_funds sub_u64 insert or_insert
run-SameStart_example =
    run-SameStart coins (λ _. purse) no_decode (λ _. purse-TransferLaws) history world
      (tt, (tt, tt)) (tt, ((omega arith, omega arith), tt)) world-IsSolvent 7

abbrev newcomer : Stake
newcomer = record {
  chain_id = 1;
  keys = record { account = 8; owner = StakeFundOwner.account 9 };
  value = 600;
  signature = record { account = 1; owner = 2 };
}

newcomer-IsOpening : IsOpening host purse newcomer world
unfolding get add_u64
newcomer-IsOpening = record {
  owner = 9;
  transfer = 1600;
  on_chain = refl;
  new = refl;
  enough = refl;
  owned = refl;
  valid = refl;
  by_owner = refl;
  by_account = refl;
  deposited = refl;
}

stake_opens_example :
    (w' : World ℕ) × (a : StakeAmount) × (Funding.stake host purse newcomer world ≡ ok w')
    × (get_stake 8 w'.state
        ≡ some (record { amount = some a; reward = 0; faults = 0; hard_faults = 0 }))
    × (a.value ≡ 600)
    × (a.locked ≡ 0)
    × (a.eligibility ≡ 8640)
    × ((k : PublicKey) → k ≢ 8 → get_stake k w'.state ≡ get_stake k world.state)
    × (purse.deposit 600 1000 ≡ ok w'.transfer)
stake_opens_example = stake_opens host purse newcomer world newcomer-IsOpening

-- A contract owns the stake and calls back once, when it is paid: the reward falls twice.
abbrev by_owner : Host
by_owner = record host { caller = some 5 }

abbrev owned : World ℕ
owned = record world {
  state = record world.state {
    stakes = (7, (staked, record { account = 7; owner = StakeFundOwner.contract 5 })) ∷ [];
  };
}

abbrev half : WithdrawToContract
half = record { account = 7; value = 25; fn_name = []; payload = [] }

abbrev calls_back : TransferCalls ℕ
calls_back = record purse { mint_to_contract = λ _ w. withdraw_from_contract by_owner purse half w }

abbrev paid_twice : World ℕ
paid_twice = settled owned (withdraw_from_contract by_owner calls_back half owned)

reward_falls_twice : get_stake 7 paid_twice.state ≡ some (record staked { reward = 0 })
unfolding withdraw_from_contract ◌>>=◌ get_stake_mut get get_stake unwrap_contract_owner take_reward
    put sub_u64 insert
reward_falls_twice = refl
