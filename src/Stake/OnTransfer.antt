-- ===== src/Stake/OnTransfer.antt =====
-- The stake contract on top of the transfer contract as it is written, in place of the laws.
use rusk.Prelude.{List, refl, Option, some}
use rusk.Vm.{Host, Bytes}
use rusk.Transfer.Withdrawal.{stake_contract}
use rusk.Transfer.Types.{NoteOps}
use rusk.Transfer.State.{TransferState, contract_balance}
use rusk.Transfer.Contracts.{Receive}
use rusk.Transfer.ForStake.{for_stake, for_stake-TransferLaws, KeepsStake}
use rusk.Stake.Types.{Stake}
use rusk.Stake.State.{World}
use rusk.Stake.Solvency.{IsSolvent}
use rusk.Stake.History.{Step, run, IsFundedRun, run-IsSolvent}

-- The host of a call that the stake contract makes.
abbrev pub called_by_stake : Host → Host
called_by_stake h = record h { caller = some stake_contract }

module _ {Note : Type 0} (n : NoteOps Note) (receive : Receive (TransferState Note))
    (decode : Bytes → Option Stake) where
  -- No history makes the stake contract unable to pay: where the contracts that are paid keep its
  -- balance and do not call the stake contract back, each call is funded where it is made, and each
  -- change of the transfer contract from elsewhere leaves it no less, the balance that the transfer
  -- contract keeps for the stake contract covers every stake after any sequence of calls, the panicking
  -- ones included.
  pub run_on_transfer-IsSolvent :
      KeepsStake receive
      → (xs : List (Step (TransferState Note))) (w : World (TransferState Note))
      → IsFundedRun
          (contract_balance stake_contract)
          (λ h. for_stake (called_by_stake h) n receive)
          decode
          xs
          w
      → IsSolvent (contract_balance stake_contract) w
      → IsSolvent
          (contract_balance stake_contract)
          (run (λ h. for_stake (called_by_stake h) n receive) decode xs w)
  run_on_transfer-IsSolvent keeps xs w =
      run-IsSolvent _ _ decode
        (λ h. for_stake-TransferLaws (called_by_stake h) n receive refl keeps) xs w
