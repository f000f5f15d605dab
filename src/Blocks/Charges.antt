-- ===== src/Blocks/Charges.antt =====
-- What the execution of a transaction charges.
use rusk.Prelude.{
  ℕ, ◌+◌, ◌%◌, ◌^◌, ◌≡◌, ◌≤◌, refl, List, arith, Bool-cases, Option-cases, inl, inr, subst, ltb,
  unwrap_or,
}
use rusk.TxBytes.Payloads.{ContractDeploy}
use rusk.TxBytes.Transactions.{Transaction}
use rusk.TxBytes.HashInput.{gas_limit_of, tx_deploy, strip_off_bytecode}
use rusk.Blocks.Machine.{
  Machine, Receipt, Answer, answered, failed, Called, returned, refused, Event,
}
use rusk.Blocks.Execute.{
  Executed, executed, discarded, aborted, Prices, deploy_check, deployed, deploy_contract,
  deploy_if_answered, contract_deploy, consume_all, refunded, settle_gas, after_spending, execute,
  verify_bytecode_hash,
}

module _ {Skeleton Session F X : Type 0} (m : Machine Skeleton Session F X) where
  -- What the crate says of a call: it is given a limit, and spends no more.
  pub record KeepsGas : Type 0 where
    pub keeps_gas :
        (s : Session) (tx : Transaction Skeleton) (limit : ℕ) (s' : Session) (r : Receipt F)
        → m.spend_and_execute s tx limit ≡ (s', returned r)
        → (r.gas_limit ≡ limit) × (r.gas_spent ≤ limit)

  -- Of a receipt: the limit is kept, and a failure has spent all of it.
  pub record IsWithinGas (limit : ℕ) (r : Receipt F) : Type 0 where
    pub same_limit : r.gas_limit ≡ limit
    pub enough : r.gas_spent ≤ limit
    pub all_spent : (e : F) → r.answer ≡ failed e → r.gas_spent ≡ limit

  abbrev IsSettled : ℕ → Session × Executed F X → Type 0
  IsSettled limit (s, executed r) = IsWithinGas limit r
  IsSettled limit (s, discarded e) = Unit {0}
  IsSettled limit (s, aborted) = Unit {0}

  abbrev IsLimited : ℕ → Session × Receipt F → Type 0
  IsLimited limit (s, r) = (r.gas_limit ≡ limit) × (r.gas_spent ≤ limit)

  deployed-IsLimited :
      (limit charge : ℕ) (r : Receipt F) (c : Session × Called X (Unit {0}))
      → (r.gas_limit ≡ limit) × (r.gas_spent ≤ limit)
      → (r.gas_spent + charge) % 2 ^ 64 ≤ limit
      → IsLimited limit (deployed m charge r c)
  unfolding deployed
  deployed-IsLimited limit charge r (s, returned _) (same, below) h = (same, h)
  deployed-IsLimited limit charge r (s, refused e) h _ = h

  deploy_contract-IsLimited :
      (limit : ℕ) (s : Session) (gas_left charge : ℕ) (d : ContractDeploy) (r : Receipt F)
      → (r.gas_limit ≡ limit) × (r.gas_spent ≤ limit)
      → gas_left ≤ limit
      → IsLimited limit (deploy_contract m s gas_left charge d r)
  unfolding deploy_contract
  deploy_contract-IsLimited limit s gas_left charge d r h left =
      elim (Bool-cases (ltb gas_left ((r.gas_spent + charge) % 2 ^ 64))) [
        | inl little ↦ rw little h
        | inr much ↦ elim (Bool-cases (verify_bytecode_hash m d.bytecode)) [
          | inr wrong ↦ rw (much, wrong) h
          | inl right ↦ rw (much, right) (deployed-IsLimited limit charge r _ h (ground arith))
        ]
      ]

  deploy_if_answered-IsLimited :
      (a : Answer F) (limit : ℕ) (s : Session) (gas_left charge : ℕ) (d : ContractDeploy)
      (r : Receipt F)
      → (r.gas_limit ≡ limit) × (r.gas_spent ≤ limit)
      → gas_left ≤ limit
      → IsLimited limit (deploy_if_answered m a s gas_left charge d r)
  unfolding deploy_if_answered
  deploy_if_answered-IsLimited (failed e) limit s gas_left charge d r h left = h
  deploy_if_answered-IsLimited (answered b) limit s gas_left charge d r h left =
      deploy_contract-IsLimited limit s gas_left charge d r h left

  contract_deploy-IsLimited :
      (s : Session) (tx : Transaction Skeleton) (prices : Prices) (r : Receipt F)
      → (r.gas_limit ≡ gas_limit_of tx) × (r.gas_spent ≤ gas_limit_of tx)
      → IsLimited (gas_limit_of tx) (contract_deploy m s tx prices r)
  unfolding contract_deploy
  contract_deploy-IsLimited s tx prices r h = elim (Option-cases (tx_deploy tx)) [
    | inl none_e ↦ rw (none_e, contract_deploy) h
    | inr (d, e) ↦
        rw (e, contract_deploy)
          (deploy_if_answered-IsLimited r.answer (gas_limit_of tx) s _ _ d r h (omega (arith, h.1)))
  ]

  consume_all-IsWithinGas :
      (a : Answer F) (limit : ℕ) (r : Receipt F)
      → r.answer ≡ a
      → (r.gas_limit ≡ limit) × (r.gas_spent ≤ limit)
      → IsWithinGas limit (consume_all m a r)
  unfolding consume_all
  consume_all-IsWithinGas (failed e) limit r h (same, below) = record {
    same_limit = same;
    enough = omega (arith, same);
    all_spent = λ e' h'. same;
  }
  consume_all-IsWithinGas (answered b) limit r h (same, below) = record {
    same_limit = same;
    enough = below;
    all_spent = λ e' h'. cc;
  }

  refunded-IsSettled :
      (limit : ℕ) (r : Receipt F) (c : Session × Called X (List Event))
      → IsWithinGas limit r
      → IsSettled limit (refunded m r c)
  unfolding refunded
  refunded-IsSettled limit r (s, returned events) h = record {
    same_limit = h.same_limit;
    enough = h.enough;
    all_spent = h.all_spent;
  }
  refunded-IsSettled limit r (s, refused e) h = tt

  settle_gas-IsSettled :
      (limit : ℕ) (c : Session × Receipt F) → IsLimited limit c → IsSettled limit (settle_gas m c)
  unfolding settle_gas
  settle_gas-IsSettled limit (s, r) h =
      refunded-IsSettled limit (consume_all m r.answer r) _
        (consume_all-IsWithinGas r.answer limit r refl h)

  module _ (laws : KeepsGas) where
    after_spending-IsSettled :
        (tx : Transaction Skeleton) (prices : Prices) (s : Session) (given : Transaction Skeleton)
        (c : Session × Called X (Receipt F))
        → m.spend_and_execute s given (gas_limit_of tx) ≡ c
        → IsSettled (gas_limit_of tx) (after_spending m tx prices c)
    unfolding after_spending
    after_spending-IsSettled tx prices s given (s', refused e) h = tt
    after_spending-IsSettled tx prices s given (s', returned r) h =
        settle_gas-IsSettled (gas_limit_of tx) (contract_deploy m s' tx prices r) (
          contract_deploy-IsLimited s' tx prices r
            (laws.keeps_gas s given (gas_limit_of tx) s' r h))

    execute-IsSettled :
        (prices : Prices) (s : Session) (tx : Transaction Skeleton)
        → IsSettled (gas_limit_of tx) (execute m prices s tx)
    unfolding execute
    execute-IsSettled prices s tx = elim (Option-cases (deploy_check m tx prices)) [
      | inr (e, h) ↦ rw (h, execute) tt
      | inl none_e ↦
          rw (none_e, execute)
            (after_spending-IsSettled tx prices s (unwrap_or (strip_off_bytecode tx) tx) _ refl)
    ]

    -- Where a call of the crate spends no more gas than it is given, a transaction that is executed, with a
    -- deployment or without, spends no more gas than its limit, and exactly its limit if it failed.
    pub execute-IsWithinGas :
        (prices : Prices) (s s' : Session) (tx : Transaction Skeleton) (r : Receipt F)
        → execute m prices s tx ≡ (s', executed r)
        → IsWithinGas (gas_limit_of tx) r
    execute-IsWithinGas prices s s' tx r h =
        subst (IsSettled (gas_limit_of tx)) h (execute-IsSettled prices s tx)
