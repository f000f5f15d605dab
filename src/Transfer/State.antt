-- ===== src/Transfer/State.antt =====
-- contracts/transfer/src/{state,tree,transitory}.rs: the state, its tree of notes, the transaction
-- that is being executed, and the accounts and balances.
use rusk.Prelude.{
  ℕ, ◌+◌, ◌-◌, Bool, true, false, Option, none, some, List, [], ◌∷◌, ◌++◌, ◌==◌, ltb, leb,
  if◌then◌else◌, length, drop, take, replicate, unwrap_or, min,
}
use rusk.Vm.{
  PublicKey, ContractId, Bytes, Outcome, ok, panic, guard, expect, add_u64, u64_mod, ◌>>=◌, ◌>>◌,
  no_transaction, expected_moonlight, expected_phoenix, no_call, not_enough_balance,
}
use rusk.Bytes.{to_be_bytes}
use rusk.Map.{Map, get, insert, contains_key}
use rusk.Transfer.Types.{
  Sender, AccountData, MoonlightTransaction, PhoenixTransaction, Transaction, NoteOps, Event,
  moonlight_sender, tx_deposit, tx_call,
}

-- 2 * EPOCH
abbrev pub max_roots : ℕ
max_roots = 4320

abbrev pub empty_account : AccountData
empty_account = record { nonce = 0; balance = 0 }

pub data Deposit : Type 0 where
  available taken : Option PublicKey → ContractId → ℕ → Deposit
  no_deposit : Deposit

unfoldable pub set_taken : Deposit → Deposit
set_taken (Deposit.available sender target value) = Deposit.taken sender target value
set_taken d = d

pub record NoteLeaf (Note : Type 0) : Type 0 where
  pub block_height : ℕ
  pub note : Note

pub record OngoingTransaction (Note : Type 0) : Type 0 where
  pub tx : Transaction Note
  pub deposit : Deposit
  pub notes : List Note

-- `items` are the hashes in the merkle tree, by position; `ongoing` is the static `CURRENT_TX`, and
-- `events` what the contract has emitted.
pub record TransferState (Note : Type 0) : Type 0 where
  pub items : List ℕ
  pub leaves : List (NoteLeaf Note)
  pub nullifiers : Map (Unit {0})
  pub roots : List ℕ
  pub accounts : Map AccountData
  pub contract_balances : Map ℕ
  pub ongoing : Option (OngoingTransaction Note)
  pub events : List (Event Note)

unfoldable pub contract_fn_sender : Bytes → ContractId → Sender
contract_fn_sender fn_name contract =
    Sender.contract_info (fn_name ++ (to_be_bytes 32 contract ++ replicate (96 - length fn_name) 0))

skip_below {ℓ} : {A : Type ℓ} → (A → ℕ) → ℕ → List A → List A
skip_below f n [] = []
skip_below f n (x ∷ xs) = let rest = skip_below f n xs in if ltb (f x) n then rest else x ∷ xs

-- A `count_limit` of 0 is no limit.
unfoldable pub feed_from {ℓ} : {A : Type ℓ} → ℕ → ℕ → List A → List A
feed_from from count_limit xs =
    if count_limit == 0 then drop from xs else take count_limit (drop from xs)

-- `ConstGenericRingBuffer::push`: the oldest root makes room for a new one.
unfoldable pub push_root : ℕ → List ℕ → List ℕ
push_root root roots =
    if leb max_roots (length roots) then drop 1 roots ++ root ∷ [] else roots ++ root ∷ []

mem : ℕ → List ℕ → Bool
mem r [] = false
mem r (x ∷ xs) = let rest = mem r xs in if r == x then true else rest

module _ {Note : Type 0} where
  abbrev pub emit : Event Note → TransferState Note → TransferState Note
  emit e s = record s { events = s.events ++ e ∷ [] }

  unfoldable pub put_transaction :
      Transaction Note → TransferState Note → Outcome (TransferState Note)
  put_transaction tx s = do
    let value = tx_deposit tx
    deposit ←
        (if ltb 0 value
          then (do
            call ← expect (tx_call tx) no_call
            ok (Deposit.available (moonlight_sender tx) call.contract value))
          else ok Deposit.no_deposit)
    ok (record s { ongoing = some (record { tx = tx; deposit = deposit; notes = [] }) })

  unfoldable pub take_ongoing :
      TransferState Note → Outcome (OngoingTransaction Note × TransferState Note)
  take_ongoing s = do
    ongoing ← expect s.ongoing no_transaction
    ok (ongoing, record s { ongoing = none })

  unfoldable pub transaction : TransferState Note → Outcome (Transaction Note)
  transaction s = do ongoing ← expect s.ongoing no_transaction; ok ongoing.tx

  as_moonlight : Transaction Note → Outcome MoonlightTransaction
  as_moonlight (Transaction.moonlight tx) = ok tx
  as_moonlight (Transaction.phoenix _) = panic expected_moonlight

  as_phoenix : Transaction Note → Outcome (PhoenixTransaction Note)
  as_phoenix (Transaction.phoenix tx) = ok tx
  as_phoenix (Transaction.moonlight _) = panic expected_phoenix

  unfoldable pub moonlight_transaction : TransferState Note → Outcome MoonlightTransaction
  unfolding as_moonlight
  moonlight_transaction s = do tx ← transaction s; as_moonlight tx

  unfoldable pub phoenix_transaction : TransferState Note → Outcome (PhoenixTransaction Note)
  unfolding as_phoenix
  phoenix_transaction s = do tx ← transaction s; as_phoenix tx

  unfoldable pub deposit_info : TransferState Note → Outcome Deposit
  deposit_info s = do ongoing ← expect s.ongoing no_transaction; ok ongoing.deposit

  -- `deposit.set_taken()` through the reference of `deposit_info_mut`
  unfoldable pub take_deposit : TransferState Note → TransferState Note
  take_deposit s = elim s.ongoing [
    | none ↦ s
    | some o ↦ record s { ongoing = some (record o { deposit = set_taken o.deposit }) }
  ]

  -- `transitory::push_note`
  unfoldable pub cache_note : Note → TransferState Note → Outcome (TransferState Note)
  cache_note note s = do
    ongoing ← expect s.ongoing no_transaction
    ok (record s { ongoing = some (record ongoing { notes = ongoing.notes ++ note ∷ [] }) })

  unfoldable pub account : PublicKey → TransferState Note → AccountData
  account key s = unwrap_or (get key s.accounts) empty_account

  unfoldable pub put_account : PublicKey → AccountData → TransferState Note → TransferState Note
  put_account key a s = record s { accounts = insert key a s.accounts }

  -- `accounts.entry(key).or_insert(EMPTY_ACCOUNT)`, and `balance += value` on it
  unfoldable pub credit_account : PublicKey → ℕ → TransferState Note → Outcome (TransferState Note)
  unfolding account put_account
  credit_account key value s = do
    balance ← add_u64 (account key s).balance value
    ok (put_account key (record (account key s) { balance = balance }) s)

  unfoldable pub add_account_balance : PublicKey → ℕ → TransferState Note → TransferState Note
  unfolding account put_account
  add_account_balance key value s =
      put_account key
        (record (account key s) { balance = min ((account key s).balance + value) (u64_mod - 1) }) s

  unfoldable pub sub_account_balance : PublicKey → ℕ → TransferState Note → TransferState Note
  unfolding put_account
  sub_account_balance key value s = elim (get key s.accounts) [
    | none ↦ s
    | some a ↦ put_account key (record a { balance = a.balance - value }) s
  ]

  unfoldable pub contract_balance : ContractId → TransferState Note → ℕ
  contract_balance contract s = unwrap_or (get contract s.contract_balances) 0

  unfoldable pub put_balance : ContractId → ℕ → TransferState Note → TransferState Note
  put_balance contract value s = record s {
    contract_balances = insert contract value s.contract_balances;
  }

  -- Also `contract_balances.entry(contract).or_insert(0)` with `+= value` on it.
  unfoldable pub add_contract_balance :
      ContractId → ℕ → TransferState Note → Outcome (TransferState Note)
  unfolding put_balance contract_balance
  add_contract_balance contract value s = do
    balance ← add_u64 (contract_balance contract s) value
    ok (put_balance contract balance s)

  unfoldable pub sub_contract_balance :
      ContractId → ℕ → TransferState Note → Outcome (TransferState Note)
  unfolding put_balance
  sub_contract_balance contract value s = do
    balance ← expect (get contract s.contract_balances) not_enough_balance
    guard (leb value balance) not_enough_balance
    ok (put_balance contract (balance - value) s)

  unfoldable pub root_exists : ℕ → TransferState Note → Bool
  unfolding mem
  root_exists root s = mem root s.roots

  unfoldable pub existing_nullifiers : List ℕ → TransferState Note → List ℕ
  existing_nullifiers [] s = []
  existing_nullifiers (n ∷ ns) s =
      let rest = existing_nullifiers ns s in if contains_key n s.nullifiers then n ∷ rest else rest

  unfoldable pub num_notes : TransferState Note → ℕ
  num_notes s = length s.leaves

  unfoldable pub leaves_from_height : ℕ → TransferState Note → List (NoteLeaf Note)
  unfolding skip_below
  leaves_from_height height s = skip_below (λ l. l.block_height) height s.leaves

  unfoldable pub sync : ℕ → ℕ → TransferState Note → List (NoteLeaf Note)
  unfolding feed_from
  sync from count_limit s = feed_from from count_limit s.leaves

module _ {Note : Type 0} (n : NoteOps Note) where
  -- `Tree::push`: a transparent note of value 0 is skipped.
  unfoldable pub push_note : ℕ → Note → TransferState Note → Option Note × TransferState Note
  push_note block_height note s = if is_zero (n.value note) then (none, s) else (
    some placed,
    record s {
      items = s.items ++ n.poseidon_hash placed ∷ [];
      leaves = s.leaves ++ record { block_height = block_height; note = placed } ∷ [];
    },
  )
    where
      is_zero : Option ℕ → Bool
      is_zero none = false
      is_zero (some v) = v == 0

      placed : Note
      placed = n.set_pos (length s.leaves) note

  unfoldable pub root : TransferState Note → ℕ
  root s = n.merkle_root s.items

  unfoldable pub update_root : TransferState Note → TransferState Note
  unfolding push_root root
  update_root s = record s { roots = push_root (root s) s.roots }
