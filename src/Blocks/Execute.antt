-- ===== src/Blocks/Execute.antt =====
-- vm/src/execute.rs: a transaction in a session. A refund that fails is a panic of the node, which
-- the outcome `aborted` stands for.
use rusk.Prelude.{
  ℕ, ◌+◌, ◌-◌, ◌%◌, ◌^◌, Bool, not, Option, none, some, List, ◌++◌, ltb, if◌then◌else◌, unwrap_or,
}
use rusk.Vm.{Bytes}
use rusk.Bytes.{to_le_bytes, bytes_eq}
use rusk.TxBytes.Payloads.{ContractBytecode, ContractDeploy}
use rusk.TxBytes.Transactions.{Transaction}
use rusk.TxBytes.HashInput.{
  gas_limit_of, gas_price_of, tx_deploy, deploy_charge, strip_off_bytecode,
}
use rusk.Blocks.Machine.{
  Machine, Receipt, Answer, answered, failed, Called, returned, refused, Event, text,
}

pub data Executed (F X : Type 0) : Type 0 where
  executed : Receipt F → Executed F X
  discarded : X → Executed F X
  aborted : Executed F X

-- The parameters of the node's configuration.
pub record Prices : Type 0 where
  pub gas_per_deploy_byte : ℕ
  pub min_deploy_points : ℕ
  pub min_deploy_gas_price : ℕ

module _ {Skeleton Session F X : Type 0} (m : Machine Skeleton Session F X) where
  -- The charge is computed with the lowest gas price in the place of the lowest points.
  unfoldable pub deploy_check : Transaction Skeleton → Prices → Option X
  deploy_check tx prices = elim (tx_deploy tx) [
    | none ↦ none
    | some d ↦
        if ltb (gas_price_of tx) prices.min_deploy_gas_price
        then some (m.panicked (text "gas price too low to deploy"))
        else if ltb (gas_limit_of tx)
            (deploy_charge tx prices.gas_per_deploy_byte prices.min_deploy_gas_price)
        then some (m.panicked (text "not enough gas to deploy"))
        else none
  ]

  unfoldable pub verify_bytecode_hash : ContractBytecode → Bool
  verify_bytecode_hash b = bytes_eq b.hash (m.blake3 b.bytes)

  unfoldable pub gen_contract_id : Bytes → ℕ → Bytes → Bytes
  gen_contract_id bytes nonce owner = m.blake2b (bytes ++ (to_le_bytes 8 nonce ++ owner))

  abbrev with_failure : Receipt F → F → Receipt F
  with_failure r e = record r { answer = failed e }

  -- What is made of the answer of `deploy_raw`.
  unfoldable pub deployed : ℕ → Receipt F → Session × Called X (Unit {0}) → Session × Receipt F
  deployed charge r (s, returned _) = (s, record r { gas_spent = (r.gas_spent + charge) % 2 ^ 64 })
  deployed charge r (s, refused e) =
      (s, with_failure r (m.contract_panic (text "failed deployment: " ++ m.debug_text e)))

  unfoldable pub deploy_contract :
      Session → ℕ → ℕ → ContractDeploy → Receipt F → Session × Receipt F
  unfolding deployed verify_bytecode_hash gen_contract_id
  deploy_contract s gas_left charge d r =
      if ltb gas_left ((r.gas_spent + charge) % 2 ^ 64)
      then (s, with_failure r m.out_of_gas)
      else if not (verify_bytecode_hash d.bytecode)
      then (s, with_failure r (m.contract_panic (text "failed bytecode hash check")))
      else deployed charge r (
          m.deploy_raw s (gen_contract_id d.bytecode.bytes d.nonce d.owner) d.bytecode.bytes
            d.init_args d.owner gas_left)

  -- Only after a call that did not fail.
  unfoldable pub deploy_if_answered :
      Answer F → Session → ℕ → ℕ → ContractDeploy → Receipt F → Session × Receipt F
  unfolding deploy_contract
  deploy_if_answered (failed e) s gas_left charge d r = (s, r)
  deploy_if_answered (answered b) s gas_left charge d r = deploy_contract s gas_left charge d r

  unfoldable pub contract_deploy :
      Session → Transaction Skeleton → Prices → Receipt F → Session × Receipt F
  unfolding deploy_if_answered
  contract_deploy s tx prices r = elim (tx_deploy tx) [
    | none ↦ (s, r)
    | some d ↦
        deploy_if_answered r.answer s ((gas_limit_of tx + 2 ^ 64 - r.gas_spent) % 2 ^ 64)
          (deploy_charge tx prices.gas_per_deploy_byte prices.min_deploy_points) d r
  ]

  -- All gas is consumed by a call that failed.
  unfoldable pub consume_all : Answer F → Receipt F → Receipt F
  consume_all (failed e) r = record r { gas_spent = r.gas_limit }
  consume_all (answered b) r = r

  unfoldable pub refunded : Receipt F → Session × Called X (List Event) → Session × Executed F X
  refunded r (s, returned events) = (s, executed (record r { events = r.events ++ events }))
  refunded r (s, refused e) = (s, aborted)

  unfoldable pub settle_gas : Session × Receipt F → Session × Executed F X
  unfolding consume_all refunded
  settle_gas (s, r) = let r' = consume_all r.answer r in refunded r' (m.refund s r'.gas_spent)

  unfoldable pub after_spending :
      Transaction Skeleton → Prices → Session × Called X (Receipt F) → Session × Executed F X
  unfolding settle_gas contract_deploy
  after_spending tx prices (s, refused e) = (s, discarded e)
  after_spending tx prices (s, returned r) = settle_gas (contract_deploy s tx prices r)

  unfoldable pub execute : Prices → Session → Transaction Skeleton → Session × Executed F X
  unfolding after_spending deploy_check
  execute prices s tx = elim (deploy_check tx prices) [
    | some e ↦ (s, discarded e)
    | none ↦
        after_spending tx prices
          (m.spend_and_execute s (unwrap_or (strip_off_bytecode tx) tx) (gas_limit_of tx))
  ]
