-- ===== src/NodeData/Ledger.antt =====
-- node-data/src/ledger/{block,transaction}.rs: transactions and blocks, with their encodings in
-- node-data/src/encoding.rs.
use rusk.Prelude.{
  ℕ, ◌^◌, ◌%◌, ◌≡◌, false, not, Option, none, some, List, ◌∷◌, ◌++◌, map, ◌==◌, ltb, if◌then◌else◌,
  length, All,
}
use rusk.Vm.{Bytes}
use rusk.Bytes.{to_le_bytes, bytes_eq}
use rusk.Reader.{
  Reader, Error, Result, ok, err, pure, fail, ◌>>=◌, read_bytes, read_u8, read_u32_le, read_u64_le,
  read_many, read_var_le_bytes32, IsU32,
}
use rusk.Reader.RoundTrip.{write_all}
use rusk.TxBytes.Slices.{Crates, keep}
use rusk.TxBytes.Transactions as Protocol
use rusk.TxBytes.WellFormed.{IsTransaction}
use rusk.NodeData.Attestations.{Header, IsHeader}
use rusk.NodeData.Headers.{marshal_hashable, write_header, read_header, default_hash}
use rusk.NodeData.Faults.{Fault, IsFault, write_fault, read_fault}

-- `InvalidData` for any error of the inner reader; a panic stays one.
unfoldable pub map_err : {A : Type 0} → Result A → Result A
map_err (ok a) = ok a
map_err (err Error.panicked) = err Error.panicked
map_err (err Error.unexpected_eof) = err Error.invalid_data
map_err (err Error.invalid_data) = err Error.invalid_data
map_err (err Error.bad_length) = err Error.invalid_data

pub record Transaction (Skeleton : Type 0) : Type 0 where
  pub version : ℕ
  pub tx_type : ℕ
  pub inner : Protocol.Transaction Skeleton
  pub size : Option ℕ

pub record SpentTransaction (Skeleton : Type 0) : Type 0 where
  pub inner : Transaction Skeleton
  pub block_height : ℕ
  pub gas_spent : ℕ
  pub error_text : Option Bytes

pub record Block (Skeleton : Type 0) : Type 0 where
  pub header : Header
  pub txs : List (Transaction Skeleton)
  pub faults : List Fault

-- `write_var_le_bytes32`, with the length cut to 32 bits.
unfoldable pub write_var_le_bytes32 : Bytes → Bytes
write_var_le_bytes32 buf = to_le_bytes 4 (length buf % 2 ^ 32) ++ buf

unfoldable pub write_error_text : Option Bytes → Bytes
write_error_text (some e) = to_le_bytes 4 (length e % 2 ^ 32) ++ e
write_error_text none = to_le_bytes 8 0

module _ {Skeleton : Type 0} (c : Crates Skeleton) where
  -- `impl From<ProtocolTransaction> for Transaction`
  unfoldable pub from_protocol : Protocol.Transaction Skeleton → Transaction Skeleton
  from_protocol inner = record { version = 1; tx_type = 1; inner = inner; size = none }

  unfoldable pub write_transaction : Transaction Skeleton → Bytes
  unfolding write_var_le_bytes32
  write_transaction tx =
      to_le_bytes 4 tx.version
      ++ (to_le_bytes 4 tx.tx_type ++ write_var_le_bytes32 (Protocol.to_var_bytes c tx.inner))

  -- `Transaction::size`
  unfoldable pub tx_size : Transaction Skeleton → ℕ
  unfolding write_transaction
  tx_size tx = elim tx.size [ some size ↦ size | none ↦ length (write_transaction tx) ]

  unfoldable pub read_transaction : Reader (Transaction Skeleton)
  unfolding map_err
  read_transaction = do
    version ← read_u32_le
    tx_type ← read_u32_le
    protocol_tx ← read_var_le_bytes32
    inner ← keep (map_err (Protocol.from_slice c protocol_tx))
    pure (record {
      version = version;
      tx_type = tx_type;
      inner = inner;
      size = some (length protocol_tx);
    })

  unfoldable pub write_spent : SpentTransaction Skeleton → Bytes
  unfolding write_transaction write_error_text
  write_spent s =
      write_transaction s.inner
      ++ (to_le_bytes 8 s.block_height
          ++ (to_le_bytes 8 s.gas_spent ++ write_error_text s.error_text))

  -- `String::from_utf8(buf).expect("Cannot from_utf8")`
  unfoldable pub read_some_text : ℕ → Reader (Option Bytes)
  read_some_text len = do
    buf ← read_bytes len
    if c.is_utf8 buf then pure (some buf) else fail Error.panicked

  unfoldable pub read_error_text : ℕ → Reader (Option Bytes)
  unfolding read_some_text
  read_error_text len = if ltb 0 len then read_some_text len else pure none

  unfoldable pub read_spent : Reader (SpentTransaction Skeleton)
  unfolding read_transaction read_error_text
  read_spent = do
    inner ← read_transaction
    block_height ← read_u64_le
    gas_spent ← read_u64_le
    error_len ← read_u32_le
    error_text ← read_error_text error_len
    pure (record {
      inner = inner;
      block_height = block_height;
      gas_spent = gas_spent;
      error_text = error_text;
    })

  module _ (sha3 : Bytes → Bytes) where
    -- `Block::calculate_hash`: only if the hash is missing.
    unfoldable pub calculate_hash : Block Skeleton → Block Skeleton
    calculate_hash b =
        if not (bytes_eq b.header.hash default_hash)
        then b
        else record b { header = record (b.header) { hash = sha3 (marshal_hashable b.header) } }

    -- `Block::new`
    unfoldable pub new_block : Header → List (Transaction Skeleton) → List Fault → Block Skeleton
    unfolding calculate_hash
    new_block header txs faults =
        calculate_hash (record { header = header; txs = txs; faults = faults })

    unfoldable pub read_block : Reader (Block Skeleton)
    unfolding new_block read_transaction
    read_block = do
      header ← read_header
      tx_len ← read_u32_le
      txs ← read_many tx_len read_transaction
      faults_len ← read_u32_le
      faults ← read_many faults_len (read_fault c.is_key)
      pure (new_block header txs faults)

  unfoldable pub write_block : Block Skeleton → Bytes
  unfolding write_transaction
  write_block b =
      write_header b.header
      ++ (to_le_bytes 4 (length b.txs % 2 ^ 32)
          ++ (write_all write_transaction b.txs
              ++ (to_le_bytes 4 (length b.faults % 2 ^ 32) ++ write_all write_fault b.faults)))

  pub record IsLedgerTransaction (tx : Transaction Skeleton) : Type 0 where
    pub version_fits : IsU32 tx.version
    pub type_fits : IsU32 tx.tx_type
    pub inner_valid : IsTransaction c tx.inner
    pub inner_fits : IsU32 (length (Protocol.to_var_bytes c tx.inner))

  -- The size that a transaction has once it was read.
  unfoldable pub with_size : Transaction Skeleton → Transaction Skeleton
  with_size tx = record tx { size = some (length (Protocol.to_var_bytes c tx.inner)) }

  unfoldable pub with_sizes : Block Skeleton → Block Skeleton
  unfolding with_size
  with_sizes b = record b { txs = map with_size b.txs }

  -- A block that `Block::new` made: its hash is not missing.
  pub record IsBlock (b : Block Skeleton) : Type 0 where
    pub header_valid : IsHeader b.header
    pub hash_known : bytes_eq b.header.hash default_hash ≡ false
    pub txs_valid : All IsLedgerTransaction b.txs
    pub txs_fit : IsU32 (length b.txs)
    pub faults_valid : All (IsFault c.is_key) b.faults
    pub faults_fit : IsU32 (length b.faults)

pub data Label : Type 0 where
  accepted attested confirmed final : ℕ → Label

abbrev pub label_height : Label → ℕ
label_height (accepted v) = v
label_height (attested v) = v
label_height (confirmed v) = v
label_height (final v) = v

unfoldable pub write_label : Label → Bytes
write_label (accepted v) = 0 ∷ to_le_bytes 8 v
write_label (attested v) = 1 ∷ to_le_bytes 8 v
write_label (confirmed v) = 2 ∷ to_le_bytes 8 v
write_label (final v) = 3 ∷ to_le_bytes 8 v

unfoldable pub read_label_of : (ℕ → Label) → Reader Label
read_label_of label = do v ← read_u64_le; pure (label v)

unfoldable pub read_label : Reader Label
unfolding read_label_of
read_label = do
  tag ← read_u8
  if tag == 0
      then read_label_of accepted
      else if tag == 1
      then read_label_of attested
      else if tag == 2
      then read_label_of confirmed
      else if tag == 3
      then read_label_of final
      else fail Error.invalid_data
