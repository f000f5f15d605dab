-- ===== src/Transfer/Examples.antt =====
-- Two accounts and two contracts. A note is the number that it holds, and every signature and proof
-- is accepted.
use rusk.Prelude.{
  ℕ, ◌+◌, ◌*◌, ◌≡◌, refl, true, Option, none, some, [], ◌∷◌, arith, ◌==◌, if◌then◌else◌,
  if◌then◌else◌,
}
use rusk.Vm.{Host, PublicKey, ContractId, Bytes, Outcome, ok, add_u64, sub_u64, mul_u64, ◌>>=◌}
use rusk.Map.{get, insert, contains_key}
use rusk.Map.Weight.{total}
use rusk.Transfer.Withdrawal.{
  Withdraw, WithdrawReceiver, WithdrawReplayToken, WithdrawSignature, ContractToAccount,
  transfer_contract, stake_contract,
}
use rusk.Transfer.Types.{
  NoteOps, ContractCall, MoonlightTransaction, PhoenixTransaction, Sender, Transaction,
  TransactionData, gas_price, tx_call, tx_memo, tx_deposit, moonlight_receiver, moonlight_sender,
  moonlight_message,
}
use rusk.Transfer.State.{
  TransferState, OngoingTransaction, Deposit, account, credit_account, put_account, put_balance,
  contract_balance, add_contract_balance, sub_contract_balance, put_transaction, take_ongoing,
  transaction, take_deposit, deposit_info, set_taken, moonlight_transaction, push_note, root_exists,
  cache_note,
}
use rusk.Transfer.Settlement
use rusk.Transfer.Settlement.{check_token, pay_receiver, mint_withdrawal, convert_deposit}
use rusk.Transfer.Contracts
use rusk.Transfer.Contracts.{pick_up, debit_caller}
use rusk.Transfer.Spending.{
  spend, spend_phoenix, insert_nullifiers, verify_tx_proof, extend_notes, spend_moonlight,
  total_value, charge_sender, spend_and_execute, refund, refund_tx, refund_moonlight, refundable,
}
use rusk.Transfer.Circulation.{circulating, pending_of, note_part}
use rusk.Transfer.Supply.{accounts_total, contracts_total}
use rusk.Transfer.Receipt.{IsTransparent, Receives}
use rusk.Transfer.Pickup.{Converts, TakesUp}
use rusk.Transfer.Refund.{Keeps, refund-Succeeds}
use rusk.Transfer.Replay.{Moves, moonlight_accepted_once, nullifier_spent_once}
use rusk.Stake.History.{settled}
use rusk.Vm.Succeeds.{Succeeds}
use rusk.Transfer.Guarantees.{
  transaction_costs_gas, withdraw_moves, convert_moves, mint_creates, deposit_moves,
  contract_to_account_conserves, spend_moonlight_moves,
}

abbrev notes : NoteOps ℕ
notes = record {
  value = λ note. some note;
  set_pos = λ _ note. note;
  transparent_stealth = λ _ value _. value;
  poseidon_hash = λ note. note;
  merkle_root = λ _. 0;
  note_pk = λ address. address;
  hash = λ _. 0;
  verify_schnorr = λ _ _ _. true;
  tx_circuit_verifier = λ _. some [];
  verify_plonk = λ _ _. true;
}

abbrev host : Host
host = record {
  chain_id = 1;
  block_height = 10;
  caller = some 5;
  callstack_len = 1;
  is_valid = λ _. true;
  verify_bls = λ _ _ _. true;
}

abbrev payment : MoonlightTransaction
payment = record {
  chain_id = 1;
  sender = 7;
  receiver = 8;
  value = 100;
  deposit = 40;
  fee = record { gas_limit = 10; gas_price = 2; refund_address = 7 };
  nonce = 1;
  tx_data = some (TransactionData.call (record { contract = 5; fn_name = []; fn_args = [] }));
  signature = 0;
}

abbrev idle : TransferState ℕ
idle = record {
  items = [];
  leaves = [];
  nullifiers = [];
  roots = 0 ∷ [];
  accounts = (7, record { nonce = 0; balance = 1000 }) ∷ [];
  contract_balances = (5, 300) ∷ [];
  ongoing = none;
  events = [];
}

-- The called contract does nothing.
abbrev silent : ContractCall → TransferState ℕ → Option Bytes × TransferState ℕ
silent _ s = (none, s)

silent-Keeps : Keeps silent
silent-Keeps = record { same_circulating = λ _ _. refl; same_tx = λ _ _ o e. (o, e, refl) }

abbrev executed : Outcome (TransferState ℕ)
executed = spend_and_execute host notes silent (Transaction.moonlight payment) idle >>= λ p.
    refund host notes 4 p.1

abbrev closed : TransferState ℕ
closed = settled idle executed

transaction_costs_gas_example :
    (circulating closed + 4 * 2 ≡ circulating idle) × (closed.ongoing ≡ none)
unfolding ◌>>=◌ spend_and_execute spend spend_moonlight put_transaction tx_call tx_deposit gas_price
    moonlight_sender total_value charge_sender add_u64 mul_u64 sub_u64 get insert put_account
    account credit_account moonlight_receiver refund refund_tx refund_moonlight take_ongoing
    refundable tx_memo
transaction_costs_gas_example =
    transaction_costs_gas host notes silent silent-Keeps payment 4 idle closed refl refl

abbrev spent : TransferState ℕ
spent = settled idle (spend host notes (Transaction.moonlight payment) idle)

accepted : spend host notes (Transaction.moonlight payment) idle ≡ ok spent
unfolding ◌>>=◌ spend spend_moonlight total_value charge_sender add_u64 mul_u64 get insert
    put_account account credit_account moonlight_receiver
accepted = refl

moonlight_accepted_once_example :
    ¬ (spend host notes (Transaction.moonlight payment) spent ≡ ok idle)
moonlight_accepted_once_example =
    moonlight_accepted_once notes host payment idle spent spent accepted Moves.start host idle

spend_moonlight_moves_example :
    (payment.chain_id ≡ host.chain_id)
    × (host.verify_bls (moonlight_message payment) 7 0 ≡ true)
    × (payment.nonce ≡ (account 7 idle).nonce + 1)
    × ((k : PublicKey)
        → (account k spent).balance + (if k == 7 then 160 else 0)
          ≡ (account k idle).balance + (if k == 8 then 100 else 0))
    × ((k : PublicKey) → (account k spent).nonce ≡ (if k == 7 then 1 else (account k idle).nonce))
unfolding spend
spend_moonlight_moves_example = spend_moonlight_moves host payment idle spent accepted

abbrev hidden : PhoenixTransaction ℕ
hidden = record {
  chain_id = 1;
  root = 0;
  nullifiers = 3 ∷ 4 ∷ [];
  outputs = 20 ∷ 30 ∷ [];
  deposit = 0;
  fee = record {
    gas_limit = 10;
    gas_price = 2;
    stealth_address = 1;
    sender = Sender.encryption [];
  };
  tx_data = none;
  proof = [];
}

-- The transaction is being executed, as `spend_and_execute` leaves it.
abbrev opened : TransferState ℕ
opened = record idle {
  ongoing =
      some (record { tx = Transaction.phoenix hidden; deposit = Deposit.no_deposit; notes = [] });
}

abbrev noted : TransferState ℕ
noted = settled opened (spend host notes (Transaction.phoenix hidden) opened)

proven : spend host notes (Transaction.phoenix hidden) opened ≡ ok noted
unfolding ◌>>=◌ spend spend_phoenix root_exists insert_nullifiers contains_key get insert
    verify_tx_proof extend_notes push_note cache_note
proven = refl

nullifier_spent_once_example : ¬ (spend host notes (Transaction.phoenix hidden) noted ≡ ok idle)
nullifier_spent_once_example =
    nullifier_spent_once notes host hidden hidden 4 opened noted noted refl refl proven Moves.start
      host idle

abbrev ongoing : OngoingTransaction ℕ
ongoing = record {
  tx = Transaction.moonlight payment;
  deposit = Deposit.available (some 7) 5 40;
  notes = [];
}

abbrev executing : TransferState ℕ
executing = record idle {
  accounts =
      (7, record { nonce = 1; balance = 840 }) ∷ (8, record { nonce = 0; balance = 100 }) ∷ [];
  ongoing = some ongoing;
}

refund-Succeeds_example : Succeeds (refund host notes 4 executing)
unfolding circulating pending_of refundable accounts_total contracts_total total ◌>>=◌ spend
    spend_moonlight total_value charge_sender add_u64 mul_u64 get insert put_account account
    credit_account moonlight_receiver
refund-Succeeds_example =
    refund-Succeeds host notes payment ongoing 4 executing refl refl (omega arith) (omega arith)

abbrev pick_up_all : TransferState ℕ
pick_up_all = settled executing (Contracts.deposit host 40 executing)

deposit_moves_example :
    (circulating pick_up_all ≡ circulating executing) × TakesUp host 40 executing pick_up_all
unfolding ◌>>=◌ Contracts.deposit deposit_info pick_up add_contract_balance put_balance
    contract_balance take_deposit set_taken get insert add_u64
deposit_moves_example = deposit_moves host 40 executing pick_up_all refl

abbrev paying : ContractToAccount
paying = record { account = 9; value = 30 }

abbrev paid_account : TransferState ℕ
paid_account = settled idle (Contracts.contract_to_account host paying idle)

contract_to_account_conserves_example : circulating paid_account ≡ circulating idle
unfolding ◌>>=◌ Contracts.contract_to_account debit_caller credit_account put_balance put_account
    account get insert add_u64
contract_to_account_conserves_example =
    contract_to_account_conserves host paying idle paid_account refl

abbrev leaving : Withdraw
leaving = record {
  contract = 5;
  value = 30;
  receiver = WithdrawReceiver.moonlight 9;
  token = WithdrawReplayToken.moonlight 1;
  signature = WithdrawSignature.moonlight 0;
}

abbrev withdrawn : TransferState ℕ
withdrawn = settled executing (Settlement.withdraw host notes leaving executing)

notes-IsTransparent : IsTransparent notes
notes-IsTransparent = record { tells = λ _ _ _. refl }

withdraw_moves_example :
    (circulating withdrawn + 0 ≡ circulating executing)
    × (host.caller ≡ some 5)
    × ((c : ContractId)
        → contract_balance c withdrawn + (if c == 5 then 30 else 0) ≡ contract_balance c executing)
    × Receives host notes Settlement.withdraw_name leaving
        (WithdrawReceiver.moonlight 9)
        executing
        withdrawn
unfolding ◌>>=◌ note_part Settlement.withdraw sub_contract_balance put_balance contract_balance
    mint_withdrawal check_token moonlight_transaction transaction pay_receiver credit_account
    put_account account get insert add_u64
withdraw_moves_example =
    withdraw_moves host notes notes-IsTransparent leaving executing withdrawn refl

abbrev own : Withdraw → Withdraw
own w = record w {
  contract = transfer_contract;
  value = 40;
  receiver = WithdrawReceiver.phoenix 2;
  signature = WithdrawSignature.phoenix 0;
}

abbrev by : ℕ → Host
by caller = record host { caller = some caller }

abbrev converted : TransferState ℕ
converted =
    settled executing (Settlement.convert (by transfer_contract) notes (own leaving) executing)

convert_moves_example :
    (circulating converted + 40 ≡ circulating executing)
    × Converts (by transfer_contract) notes (own leaving) executing converted
unfolding ◌>>=◌ note_part Settlement.convert deposit_info convert_deposit take_deposit set_taken
    mint_withdrawal check_token moonlight_transaction transaction pay_receiver push_note
convert_moves_example =
    convert_moves (by transfer_contract) notes notes-IsTransparent (own leaving) executing converted
      refl

abbrev minting : Withdraw
minting = record leaving { contract = stake_contract }

abbrev minted : TransferState ℕ
minted = settled executing (Settlement.mint (by stake_contract) notes minting executing)

mint_creates_example :
    (circulating minted + 0 ≡ circulating executing + 30)
    × ((c : ContractId) → contract_balance c minted ≡ contract_balance c executing)
    × Receives
        (by stake_contract)
        notes
        Settlement.mint_name
        minting
        (WithdrawReceiver.moonlight 9)
        executing
        minted
unfolding ◌>>=◌ note_part Settlement.mint mint_withdrawal check_token moonlight_transaction
    transaction pay_receiver credit_account put_account account get insert add_u64
mint_creates_example =
    mint_creates (by stake_contract) notes notes-IsTransparent minting executing minted refl
