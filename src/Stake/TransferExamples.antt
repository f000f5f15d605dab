-- ===== src/Stake/TransferExamples.antt =====
-- The stake contract of one account on a transfer contract that keeps 1000 LUX for it.
use rusk.Prelude.{ℕ, refl, true, Option, none, some, List, [], ◌∷◌, arith}
use rusk.Vm.{Host, Bytes, ok}
use rusk.Map.{get}
use rusk.Map.Weight.{total}
use rusk.Transfer.Withdrawal.{stake_contract}
use rusk.Transfer.Types.{NoteOps}
use rusk.Transfer.State.{TransferState, contract_balance}
use rusk.Transfer.Contracts.{Receive}
use rusk.Transfer.ForStake.{KeepsStake, for_stake, for_stake-TransferLaws}
use rusk.Stake.Types.{Stake, StakeFundOwner}
use rusk.Stake.Calls.{Call}
use rusk.Stake.State.{World}
use rusk.Stake.Interface.{TransferLaws}
use rusk.Stake.Solvency.{IsSolvent}
use rusk.Stake.Funds.{funds}
use rusk.Stake.History.{Step, run, IsFundedRun}
use rusk.Stake.OnTransfer.{run_on_transfer-IsSolvent, called_by_stake}

abbrev notes : NoteOps ℕ
notes = record {
  value = λ note. some note;
  set_pos = λ _ note. note;
  transparent_stealth = λ _ value _. value;
  poseidon_hash = λ note. note;
  merkle_root = λ _. 0;
  note_pk = λ address. address;
  hash = λ _. 0;
  verify_schnorr = λ _ _ _. true;
  tx_circuit_verifier = λ _. some [];
  verify_plonk = λ _ _. true;
}

abbrev host : Host
host = record {
  chain_id = 1;
  block_height = 5000;
  caller = none;
  callstack_len = 0;
  is_valid = λ _. true;
  verify_bls = λ _ _ _. true;
}

-- The receiver does nothing.
abbrev silent : Receive (TransferState ℕ)
silent _ _ _ s = ok s

silent-KeepsStake : KeepsStake silent
silent-KeepsStake c f r s s' fits e = (ground arith, ground arith)

abbrev world : World (TransferState ℕ)
world = record {
  state = record {
    burnt_amount = 0;
    config = record { warnings = 1; minimum_stake = 500 };
    previous_block_state = [];
    stakes =
        (
          7,
          (
            record {
              amount = some (record { value = 900; locked = 100; eligibility = 4320 });
              reward = 50;
              faults = 0;
              hard_faults = 0;
            },
            record { account = 7; owner = StakeFundOwner.account 9 },
          ),
        )
        ∷ [];
  };
  transfer = record {
    items = [];
    leaves = [];
    nullifiers = [];
    roots = [];
    accounts = [];
    contract_balances = (stake_contract, 1000) ∷ [];
    ongoing = none;
    events = [];
  };
  events = [];
}

-- A hard slash burns a fifth of the stake.
abbrev history : List (Step (TransferState ℕ))
history = Step.calls host (Call.hard_slash 7 (some 200) none) ∷ []

abbrev no_decode : Bytes → Option Stake
no_decode _ = none

abbrev held : TransferState ℕ → ℕ
held = contract_balance stake_contract

world-IsSolvent : IsSolvent held world
unfolding funds get total contract_balance
world-IsSolvent = record {
  well_formed = record { sorted = (omega arith, tt); keyed = λ k d keys e. ground arith };
  backed = omega arith;
  held = omega arith;
}

run_on_transfer-IsSolvent_example :
    IsSolvent held (run (λ h. for_stake (called_by_stake h) notes silent) no_decode history world)
unfolding IsFundedRun
run_on_transfer-IsSolvent_example =
    run_on_transfer-IsSolvent notes silent no_decode silent-KeepsStake history world (tt, tt)
      world-IsSolvent

for_stake-TransferLaws_example : TransferLaws (for_stake (called_by_stake host) notes silent) held
for_stake-TransferLaws_example =
    for_stake-TransferLaws (called_by_stake host) notes silent refl silent-KeepsStake
