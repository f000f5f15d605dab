-- ===== src/Stake/Guarantees.antt =====
-- What a call of the stake contract guarantees when it returns, at the entry points of
-- contracts/stake/src/lib.rs.
use rusk.Prelude.{ℕ, ◌+◌, ◌<◌, ◌≡◌, Option}
use rusk.Vm.{Host, Bytes, ok, u64_mod}
use rusk.Stake.Types.{Stake}
use rusk.Stake.State.{World, TransferCalls}
use rusk.Stake.Calls.{Call, call}
use rusk.Stake.Interface.{TransferLaws, CallsNotBack}
use rusk.Stake.Solvency.{IsSolvent, IsFunded, call-IsSolvent}
use rusk.Stake.Funds.{funds, rewards}
use rusk.Stake.Ledger.{IsRunning, added, taken, rewarded, paid, call-Balances}
use rusk.Stake.Permission.{IsPermitted, call-IsPermitted}

module _ {S : Type 0} (h : Host) (t : TransferCalls S) (decode : Bytes → Option Stake) (c : Call)
    (w w' : World S) (returns : call h t decode c w ≡ ok w') where
  -- A call that returns keeps the contract solvent: where the transfer contract obeys its laws, the
  -- contract is solvent before and the call is funded, the balance of the contract covers the value
  -- and the locked part of every stake after it too, and the map of stakes stays in order.
  pub call_keeps_IsSolvent :
      (balance : S → ℕ)
      → TransferLaws t balance
      → IsSolvent balance w
      → IsFunded balance c w
      → IsSolvent balance w'
  call_keeps_IsSolvent balance laws v f =
      (call-IsSolvent balance h t laws decode c w v f).holds w' returns

  -- Where the stakes sum up to less than 2^64 and the contracts that are paid do not call the stake
  -- contract back, a call that returns moves the stakes together with
  -- what was burnt by exactly what the call adds less what it takes, and the rewards by exactly what
  -- it rewards less what it pays: slashes move nothing out of that sum. The calls that set up a
  -- state, `insert_stake` and `set_burnt_amount`, are excepted.
  pub call_moves_exactly :
      CallsNotBack t
      → IsRunning c
      → funds w.state < u64_mod
      → (funds w'.state + w'.state.burnt_amount + taken c
          ≡ funds w.state + w.state.burnt_amount + added c)
        × (rewards w'.state + paid c ≡ rewards w.state + rewarded c)
  call_moves_exactly quiet running fits =
      let b = (call-Balances h t decode quiet c w running fits).holds w' returns in
      (b.staked, b.earned)

  -- A call that returns was permitted. The stakes, unstakes and withdrawals of an account came through
  -- the transfer contract and were signed by the account and by the owner on record. A contract's stake
  -- came from the transfer contract in an inner call, which names the contract that the value comes
  -- from: that contract owns the stake, the stake is for this chain and of that value, and the account
  -- signed it if it has no amount yet. A contract's stake and reward are paid out only if the caller is
  -- the contract that owns them, and the management calls came from outside.
  pub call_was-IsPermitted : IsPermitted h decode c w
  call_was-IsPermitted = (call-IsPermitted h t decode c w).holds w' returns
