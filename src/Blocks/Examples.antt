-- ===== src/Blocks/Examples.antt =====
-- The theorems on blocks at concrete inputs. A session is the count of the calls that changed it, and a call
-- spends ten units of gas, or is refused if it is given seven.
use rusk.Prelude.{
  ℕ, suc, ◌+◌, ◌≡◌, ◌≤◌, ◌<◌, refl, Option, none, some, false, List, [], ◌∷◌, arith, ◌==◌, ltb,
  length, inr, if◌then◌else◌, replicate,
}
use rusk.Vm.{Bytes}
use rusk.Bytes.{bytes_eq, to_le_bytes}
use rusk.TxBytes.Slices.{write_vec}
use rusk.TxBytes.Payloads.{TransactionData, ContractDeploy, write_moonlight_payload, write_data}
use rusk.TxBytes.Transactions.{Transaction, moonlight, to_var_bytes, moonlight_to_var_bytes}
use rusk.TxBytes.HashInput.{
  gas_limit_of, gas_price_of, tx_deploy, deploy_charge, strip_off_bytecode, charge_of,
}
use rusk.TxBytes.Examples.{crates, moonlight_tx}
use rusk.NodeData.Ledger as Ledger
use rusk.Blocks.Machine.{
  Machine, Receipt, answered, failed, Called, returned, refused, Event, new_bloom, add_events,
}
use rusk.Blocks.Execute.{Prices, execute, executed}
use rusk.Blocks.Charges.{KeepsGas, IsWithinGas, execute-IsWithinGas}
use rusk.Blocks.Deployments.{cheap_deployment_burns}
use rusk.Blocks.Emission.{minted, minted_cap, emission_amount}
use rusk.Blocks.Rewards.{block_rewards, all_credits, sum_credits, Voter, has_no_credits}
use rusk.Blocks.Payment.{paid, paid-block_rewards}
use rusk.Blocks.Production.{
  Config, CallParams, VerificationOutput, done, ◌>>=◌, new_block_session, take_in, started,
  close_block, reward_slash_and_update_root,
}
use rusk.Blocks.Generation.{select, selection, consider, execute_transactions}
use rusk.Blocks.Agreement.{KeepsSession}
use rusk.Blocks.Verification.{IsAccepted, execute_transactions-IsAccepted}
use rusk.Blocks.Limits.{HasSize, IsWithinLimits, execute_transactions-IsWithinLimits}

receipt : ℕ → Receipt Bytes
receipt limit = record {
  gas_limit = limit;
  gas_spent = if ltb limit 10 then limit else 10;
  events = [];
  answer = answered [];
}

spend_ten : ℕ → ℕ → ℕ × Called Bytes (Receipt Bytes)
unfolding receipt
spend_ten s limit = if limit == 7 then (s, refused (1 ∷ [])) else (suc s, returned (receipt limit))

count_call : ℕ → ℕ × Called Bytes (List Event)
count_call s = (suc s, returned [])

abbrev machine : Machine ℕ ℕ Bytes Bytes
machine = record {
  session = λ _. returned 0;
  root = λ s. s ∷ [];
  before_state_transition = λ s. (s, returned tt);
  spend_and_execute = λ s _ limit. spend_ten s limit;
  refund = λ s _. count_call s;
  reward = λ s _. count_call s;
  slash = λ s _. count_call s;
  update_root = count_call;
  deploy_raw = λ s _ _ _ _ _. (s, returned tt);
  blake3 = λ b. b;
  blake2b = λ b. b;
  out_of_gas = 1 ∷ [];
  contract_panic = λ b. b;
  failure_text = λ b. b;
  panicked = λ b. b;
  panic_text = some;
  debug_text = λ b. b;
}

spend_ten-gas :
    (s limit s' : ℕ) (r : Receipt Bytes)
    → spend_ten s limit ≡ (s', returned r)
    → (r.gas_limit ≡ limit) × (r.gas_spent ≤ limit)
unfolding spend_ten receipt
spend_ten-gas s limit s' r h = ground arith

spend_ten-session : (s limit s' : ℕ) (e : Bytes) → spend_ten s limit ≡ (s', refused e) → s' ≡ s
unfolding spend_ten
spend_ten-session s limit s' e h = ground arith

machine-KeepsGas : KeepsGas machine
machine-KeepsGas = record { keeps_gas = λ s tx limit s' r h. spend_ten-gas s limit s' r h }

abbrev prices : Prices
prices = record { gas_per_deploy_byte = 100; min_deploy_points = 5000; min_deploy_gas_price = 2 }

abbrev config : Config
config = record { prices = prices; block_gas_limit = 1000; dusk_key = 4; out_of_time = λ _. false }

machine-KeepsSession : KeepsSession machine
machine-KeepsSession = record {
  keeps_session = λ s s' tx limit e h. spend_ten-session s limit s' e h;
}

abbrev calling : Transaction ℕ
calling = moonlight moonlight_tx

execute-IsWithinGas_example :
    IsWithinGas machine 500
      (record { gas_limit = 500; gas_spent = 10; events = []; answer = answered [] })
unfolding execute spend_ten receipt count_call gas_limit_of tx_deploy strip_off_bytecode
execute-IsWithinGas_example =
    execute-IsWithinGas machine machine-KeepsGas prices 0 2 calling
      (record { gas_limit = 500; gas_spent = 10; events = []; answer = answered [] }) refl

minted_cap_example :
    (minted 100 ≤ 500_000_000_000_000_000)
    × (113_529_597 ≤ 100 → minted 100 ≡ 500_000_000_000_000_000)
minted_cap_example = minted_cap 100

abbrev voters : List Voter
voters = (8, 60) ∷ (9, 68) ∷ []

paid-block_rewards_example :
    (paid (block_rewards 4 5 1000 7 voters) ≤ emission_amount 5 + 1000)
    × (sum_credits voters ≡ all_credits
        → emission_amount 5 + 1000 < paid (block_rewards 4 5 1000 7 voters) + all_credits)
unfolding emission_amount
paid-block_rewards_example = paid-block_rewards 4 5 1000 7 voters (omega arith) (omega arith)

-- A deployment of three bytes by the sender of that call, with a gas limit of 600.
abbrev three_bytes : ContractDeploy
three_bytes = record {
  bytecode = record { hash = 1 ∷ (2 ∷ (3 ∷ [])); bytes = 1 ∷ (2 ∷ (3 ∷ [])) };
  owner = replicate 32 1;
  init_args = none;
  nonce = 1;
}

abbrev with_limit : ℕ → Option TransactionData → Transaction ℕ
with_limit limit tx_data = moonlight (record moonlight_tx {
  payload = record moonlight_tx.payload {
    fee = record moonlight_tx.payload.fee { gas_limit = limit };
    tx_data = tx_data;
  };
})

abbrev deploying : Transaction ℕ
deploying = with_limit 600 (some (TransactionData.deploy three_bytes))

cheap_deployment_burns_example :
    (600 < deploy_charge deploying 100 5000)
    × ((r' : Receipt Bytes) × (execute machine prices 0 deploying ≡ (2, executed r'))
        × (r'.answer ≡ failed (1 ∷ []))
        × (r'.gas_spent ≡ 600))
unfolding spend_ten receipt count_call gas_limit_of gas_price_of tx_deploy strip_off_bytecode
    charge_of
cheap_deployment_burns_example =
    cheap_deployment_burns machine prices deploying three_bytes refl machine-KeepsGas 0 1 2
      (receipt 600) [] [] (omega arith) (omega arith) (omega arith) (omega arith) refl refl refl

-- Two transactions as they were read, of which the second is refused.
abbrev in_block : Transaction ℕ → Ledger.Transaction ℕ
in_block tx = record {
  version = 1;
  tx_type = 1;
  inner = tx;
  size = some (length (to_var_bytes crates tx));
}

abbrev params : CallParams
params = record {
  round = 5;
  generator_pubkey = 7;
  to_slash = [];
  voters_pubkey = voters;
  max_txs_bytes = 1000;
  prev_state_root = 0 ∷ [];
}

abbrev spent_txs : List (Ledger.SpentTransaction ℕ)
spent_txs =
    record { inner = in_block calling; block_height = 5; gas_spent = 10; error_text = none } ∷ []

abbrev output : VerificationOutput
output = record { state_root = 4 ∷ []; event_bloom = new_bloom }

block_is_made :
    execute_transactions machine config crates params
      (in_block calling ∷ (in_block (with_limit 7 none) ∷ []))
    ≡ done (spent_txs, in_block (with_limit 7 none) ∷ [], output)
unfolding execute_transactions ◌>>=◌ new_block_session select selection consider execute spend_ten
    receipt count_call gas_limit_of gas_price_of tx_deploy strip_off_bytecode close_block
    reward_slash_and_update_root has_no_credits take_in started add_events bytes_eq Ledger.tx_size
    to_var_bytes moonlight_to_var_bytes write_vec to_le_bytes write_moonlight_payload write_data
block_is_made = refl

execute_transactions-IsAccepted_example : IsAccepted machine config crates params spent_txs output
execute_transactions-IsAccepted_example =
    execute_transactions-IsAccepted machine config crates params machine-KeepsSession
      (in_block calling ∷ (in_block (with_limit 7 none) ∷ [])) (in_block (with_limit 7 none) ∷ [])
      spent_txs output block_is_made

execute_transactions-IsWithinLimits_example : IsWithinLimits machine config crates 996 spent_txs
unfolding HasSize
execute_transactions-IsWithinLimits_example =
    execute_transactions-IsWithinLimits machine config crates params
      (in_block calling ∷ (in_block (with_limit 7 none) ∷ [])) (in_block (with_limit 7 none) ∷ [])
      spent_txs output (omega arith) (omega arith) block_is_made (inr refl, tt)
