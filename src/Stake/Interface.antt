-- ===== src/Stake/Interface.antt =====
-- What the stake contract relies on when it calls the transfer contract: how each function moves
-- the balance that the transfer contract keeps for it. `Transfer.ForStake` is that contract.
use rusk.Prelude.{ℕ, ◌+◌, ◌≤◌, ◌<◌, ◌≡◌}
use rusk.Vm.{ok, u64_mod}
use rusk.Transfer.Withdrawal
use rusk.Transfer.Withdrawal.{ContractToContract, stake_contract}
use rusk.Stake.State.{World, TransferCalls}

-- The contracts that are paid do not call the stake contract back: its state and its events are after
-- the payment as before it.
pub record CallsNotBack {S : Type 0} (t : TransferCalls S) : Type 0 where
  pub contract_to_contract :
      (c : ContractToContract) (w w' : World S)
      → t.contract_to_contract c w ≡ ok w'
      → (w'.state ≡ w.state) × (w'.events ≡ w.events)
  pub mint_to_contract :
      (c : ContractToContract) (w w' : World S)
      → t.mint_to_contract c w ≡ ok w'
      → (w'.state ≡ w.state) × (w'.events ≡ w.events)

pub record TransferLaws {S : Type 0} (t : TransferCalls S) (balance : S → ℕ) : Type 0 where
  pub deposit :
      (value : ℕ) (s s' : S)
      → t.deposit value s ≡ ok s'
      → (balance s' ≡ balance s + value) × (balance s' < u64_mod)
  pub withdraw :
      (w : Withdrawal.Withdraw) (s s' : S)
      → t.withdraw w s ≡ ok s'
      → balance s ≡ balance s' + w.value
  pub not_back : CallsNotBack t
  -- The receiver may be any contract, this one included.
  pub contract_to_contract :
      (c : ContractToContract) (w w' : World S)
      → balance w.transfer < u64_mod
      → t.contract_to_contract c w ≡ ok w'
      → (balance w.transfer ≤ balance w'.transfer + c.value) × (balance w'.transfer < u64_mod)
  pub mint : (w : Withdrawal.Withdraw) (s s' : S) → t.mint w s ≡ ok s' → balance s' ≡ balance s
  pub mint_to_contract :
      (c : ContractToContract) (w w' : World S)
      → balance w.transfer < u64_mod
      → t.mint_to_contract c w ≡ ok w'
      → (balance w.transfer ≤ balance w'.transfer) × (balance w'.transfer < u64_mod)
  pub sub_contract_balance :
      (value : ℕ) (s s' : S)
      → t.sub_contract_balance stake_contract value s ≡ ok s'
      → balance s ≡ balance s' + value
