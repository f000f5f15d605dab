-- ===== src/Transfer/ForStake.antt =====
-- contracts/transfer/src/lib.rs: the transfer contract as the stake contract calls it, and the balance
-- that it keeps for the stake contract.
use rusk.Prelude.{ℕ, ◌+◌, ◌≤◌, ◌<◌, ◌≡◌, refl, some, arith, ◌==◌}
use rusk.Vm.{
  Host, ContractId, Bytes, Outcome, ok, guard, expect, expect_call, ◌>>=◌, ◌>>◌, bad_caller,
  not_enough_balance, u64_mod,
}
use rusk.Vm.Ensures.{
  Ensures, Ensures-bind, Ensures-expect, Ensures-call, Ensures-guard, Ensures-done, Ensures-mono,
  Ensures-last,
}
use rusk.Transfer.Withdrawal.{Withdraw, ContractToContract, ReceiveFromContract, stake_contract}
use rusk.Transfer.Types.{NoteOps}
use rusk.Transfer.State
use rusk.Transfer.State.{TransferState, contract_balance}
use rusk.Transfer.Settlement
use rusk.Transfer.Settlement.{withdraw_name, mint_name}
use rusk.Transfer.Contracts
use rusk.Transfer.Contracts.{Receive, debit_caller}
use rusk.Transfer.Supply.{
  debit_caller-Lowers, add_contract_balance-Sets, sub_contract_balance-Lowers,
}
use rusk.Transfer.Balances.{
  same_balance, deposit-Gains, withdraw-Loses, Lowers-Loses, mint_withdrawal-same,
}
use rusk.Stake.State.{World, TransferCalls}
use rusk.Stake.Interface.{CallsNotBack, TransferLaws}

module _ {Note : Type 0} (h : Host) where
  -- `assert_stake_caller`, and the subtraction with its `expect`.
  unfoldable pub sub_contract_balance :
      ContractId → ℕ → TransferState Note → Outcome (TransferState Note)
  sub_contract_balance contract value s = do
    caller ← expect h.caller bad_caller
    guard (caller == stake_contract) bad_caller
    expect_call (State.sub_contract_balance contract value s) not_enough_balance

module _ {Note : Type 0} (h : Host) (n : NoteOps Note)
    (receive : Receive (TransferState Note)) where
  -- A payment of a contract whose code does not call the stake contract back.
  unfoldable pub pays_contract :
      (ContractToContract → TransferState Note → Outcome (TransferState Note))
      → ContractToContract
      → World (TransferState Note)
      → Outcome (World (TransferState Note))
  pays_contract pay c w = do transfer ← pay c w.transfer; ok (record w { transfer = transfer })

  unfoldable pub for_stake : TransferCalls (TransferState Note)
  for_stake = record {
    deposit = Contracts.deposit h;
    withdraw = Settlement.withdraw h n;
    contract_to_contract = pays_contract (Contracts.contract_to_contract h receive);
    mint = Settlement.mint h n;
    mint_to_contract = pays_contract (Contracts.mint_to_contract h receive);
    sub_contract_balance = sub_contract_balance h;
  }

-- A contract that is called back does not spend what the stake contract holds, and its own writes
-- keep that balance a 64-bit number.
abbrev pub KeepsStake : {Note : Type 0} → Receive (TransferState Note) → Type 0
KeepsStake {Note} receive =
    (c : ContractId) (fn_name : Bytes) (r : ReceiveFromContract) (s s' : TransferState Note)
    → contract_balance stake_contract s < u64_mod
    → receive c fn_name r s ≡ ok s'
    → (contract_balance stake_contract s ≤ contract_balance stake_contract s')
      × (contract_balance stake_contract s' < u64_mod)

module _ {Note : Type 0} (h : Host) (n : NoteOps Note) (receive : Receive (TransferState Note))
    (by_stake : h.caller ≡ some stake_contract) (keeps : KeepsStake receive) where
  abbrev held : TransferState Note → ℕ
  held = contract_balance stake_contract

  minted :
      (w : Withdraw) (s : TransferState Note)
      → Ensures (λ s'. held s' ≡ held s) (Settlement.mint h n w s)
  unfolding Settlement.mint
  minted w s = Ensures-expect _ _ _ λ caller is. Ensures-guard _ _ _ λ own.
      Ensures-guard _ _ _ λ stake. Ensures-bind _ _ λ s' paid.
        Ensures-done _
          (same_balance stake_contract s _ ((mint_withdrawal-same h n mint_name w s).holds s' paid))

  credited :
      (c : ContractId) (value : ℕ) (s : TransferState Note)
      → held s < u64_mod
      → Ensures
          (λ s'. (held s ≤ held s') × (held s' < u64_mod))
          (State.add_contract_balance c value s)
  credited c value s fits =
      Ensures-mono (λ s' (e, small). ground (arith, e.others stake_contract))
        (add_contract_balance-Sets c value s)

  sent :
      (c : ContractToContract) (s : TransferState Note)
      → held s < u64_mod
      → Ensures
          (λ s'. (held s ≤ held s' + c.value) × (held s' < u64_mod))
          (Contracts.contract_to_contract h receive c s)
  unfolding Contracts.contract_to_contract
  sent c s fits = Ensures-expect _ _ _ λ sender is. Ensures-guard _ _ _ λ _.
      Ensures-bind _ _ λ s₁ lowered. Ensures-bind _ _ λ s₂ added. Ensures-call _ _ _ λ s₃ received.
        let low = (debit_caller-Lowers h sender c.value s).holds s₁ lowered in
        let small : held s₁ < u64_mod = ground (arith, low.sets.others stake_contract) in
        let up = (credited c.contract c.value s₁ small).holds s₂ added in
        let kept = keeps c.contract c.fn_name _ s₂ s₃ up.1 received in
        let other = low.sets.others stake_contract in
        let more : (held s ≤ held s₃ + c.value) × (held s₃ < u64_mod) =
          (ground (arith, low.covered, other), kept.1) in
        Ensures-done _ (unfold contract_balance in more)

  minted_to :
      (c : ContractToContract) (s : TransferState Note)
      → held s < u64_mod
      → Ensures
          (λ s'. (held s ≤ held s') × (held s' < u64_mod))
          (Contracts.mint_to_contract h receive c s)
  unfolding Contracts.mint_to_contract
  minted_to c s fits = Ensures-expect _ _ _ λ caller is. Ensures-guard _ _ _ λ _.
      Ensures-bind _ _ λ s₁ added. Ensures-call _ _ _ λ s₂ received.
        let up = (credited c.contract c.value s fits).holds s₁ added in
        let kept = keeps c.contract c.fn_name _ s₁ s₂ up.1 received in
        let more : (held s ≤ held s₂) × (held s₂ < u64_mod) =
          (omega (arith, up.0, kept.0), kept.1) in
        Ensures-done _ (unfold contract_balance in more)

  pays_contract-Keeps :
      (pay : ContractToContract → TransferState Note → Outcome (TransferState Note))
      (c : ContractToContract) (w : World (TransferState Note))
      → Ensures
          (λ w'.
            (w'.state ≡ w.state) × (w'.events ≡ w.events) × (pay c w.transfer ≡ ok w'.transfer))
          (pays_contract h n receive pay c w)
  unfolding pays_contract
  pays_contract-Keeps pay c w = Ensures-bind _ _ λ s' paid. Ensures-done _ (refl, refl, paid)

  quiet : CallsNotBack (for_stake h n receive)
  unfolding for_stake
  quiet = record {
    contract_to_contract =
        λ c w w' e. let (s, v, _) = (pays_contract-Keeps _ c w).holds w' e in (s, v);
    mint_to_contract = λ c w w' e. let (s, v, _) = (pays_contract-Keeps _ c w).holds w' e in (s, v);
  }

  burnt :
      (value : ℕ) (s : TransferState Note)
      → Ensures (λ s'. held s ≡ held s' + value) (sub_contract_balance h stake_contract value s)
  unfolding sub_contract_balance
  burnt value s = Ensures-expect _ _ _ λ caller is. Ensures-guard _ _ _ λ _. Ensures-last _ _ (
      Ensures-mono (λ s' low. Lowers-Loses stake_contract value s s' s' low refl)
        (sub_contract_balance-Lowers stake_contract value s))

  -- The transfer contract obeys the laws that the stake contract relies on: where the stake contract
  -- is the caller and the contracts that are paid keep its balance and do not call it back, `deposit`,
  -- `withdraw`, `contract_to_contract`, `mint`, `mint_to_contract` and `sub_contract_balance` move the
  -- balance that is kept for the stake contract as the interface says, and leave its state.
  pub for_stake-TransferLaws : TransferLaws (for_stake h n receive) held
  unfolding for_stake
  for_stake-TransferLaws = record {
    deposit = λ value s s' e. (deposit-Gains h value stake_contract s by_stake).holds s' e;
    withdraw = λ w s s' e. (withdraw-Loses h n w stake_contract s by_stake).holds s' e;
    not_back = quiet;
    contract_to_contract = λ c w w' fits e.
        (sent c w.transfer fits).holds _ ((pays_contract-Keeps _ c w).holds w' e).2;
    mint = λ w s s' e. (minted w s).holds s' e;
    mint_to_contract = λ c w w' fits e.
        (minted_to c w.transfer fits).holds _ ((pays_contract-Keeps _ c w).holds w' e).2;
    sub_contract_balance = λ value s s' e. (burnt value s).holds s' e;
  }
