-- ===== src/NodeData/RoundTrip/Ledger.antt =====
-- Transactions, blocks and labels are read back; a spent transaction leaves bytes behind.
use rusk.Prelude.{
  ℕ, ◌^◌, ◌%◌, ◌<◌, ◌≡◌, refl, true, Option, none, some, [], ◌∷◌, ◌++◌, map, length, arith, lt→ltb,
}
use rusk.Vm.{Bytes}
use rusk.Bytes.{to_le_bytes}
use rusk.Reader.{ok, IsU32, IsU64}
use rusk.Reader.RoundTrip.{
  ReadsBack, ReadsBack-pure, ReadsBack-bind, ReadsBack-last, ReadsBack-then, ReadsBack-tag,
  ReadsBack-bytes, ReadsBack-u32, ReadsBack-u64, ReadsBack-many, ReadsBack-many_as, ReadsBack-var,
}
use rusk.TxBytes.Slices.{Crates, CratesLaws}
use rusk.TxBytes.Transactions as Protocol
use rusk.TxBytes.Parsing.{from_slice-to_var_bytes, ReadsBack-keep}
use mathlib.Core.List.{append_assoc}
use rusk.NodeData.Faults.{write_fault, read_fault}
use rusk.NodeData.Ledger.{
  map_err, Transaction, IsLedgerTransaction, write_var_le_bytes32, write_transaction,
  read_transaction, with_size, with_sizes, Block, IsBlock, write_block, read_block, new_block,
  Label, write_label, read_label, write_spent, read_spent, read_error_text, read_some_text,
  read_label_of, label_height,
}
use rusk.NodeData.RoundTrip.Headers.{ReadsBack-header}
use rusk.NodeData.RoundTrip.Faults.{ReadsBack-fault}

cut_u32 : (n : ℕ) → IsU32 n → n % 2 ^ 32 ≡ n
cut_u32 n h = omega arith

-- The zero of 8 bytes, read as one of 4.
four_left :
    (tx height gas rest : Bytes)
    → (tx ++ (height ++ (gas ++ to_le_bytes 8 0))) ++ rest
      ≡ (tx ++ (height ++ (gas ++ (to_le_bytes 4 0 ++ [])))) ++ (0 ∷ (0 ∷ (0 ∷ (0 ∷ rest))))
unfolding to_le_bytes
four_left tx height gas rest = simp append_assoc

module _ {Skeleton : Type 0} (c : Crates Skeleton) (laws : CratesLaws c) where
  pub ReadsBack-transaction :
      (tx : Transaction Skeleton)
      → IsLedgerTransaction c tx
      → ReadsBack (read_transaction c) (write_transaction c tx) (with_size c tx)
  unfolding read_transaction write_transaction with_size write_var_le_bytes32
  ReadsBack-transaction tx v =
      let bytes = Protocol.to_var_bytes c tx.inner in
      rw (cut_u32 (length bytes) v.inner_fits) (
        ReadsBack-bind _ (ReadsBack-u32 tx.version v.version_fits) (
          ReadsBack-bind _ (ReadsBack-u32 tx.tx_type v.type_fits) (
            ReadsBack-then _ (ReadsBack-var bytes v.inner_fits) (
              ReadsBack-last _ (
                ReadsBack-keep (map_err (Protocol.from_slice c bytes)) tx.inner
                  (rw (from_slice-to_var_bytes c laws tx.inner v.inner_valid) refl))))))

  module _ (sha3 : Bytes → Bytes) where
    kept_hash :
        (b : Block Skeleton)
        → IsBlock c b
        → new_block c sha3 b.header (map (with_size c) b.txs) b.faults ≡ with_sizes c b
    unfolding new_block with_sizes
    kept_hash b v = rw v.hash_known

    pub ReadsBack-block :
        (b : Block Skeleton)
        → IsBlock c b
        → ReadsBack (read_block c sha3) (write_block c b) (with_sizes c b)
    unfolding read_block write_block
    ReadsBack-block b v =
        rw
          (
            cut_u32 (length b.txs) v.txs_fit,
            cut_u32 (length b.faults) v.faults_fit,
            ← kept_hash b v,
          )
          (ReadsBack-bind _ (ReadsBack-header b.header v.header_valid) (
            ReadsBack-bind _ (ReadsBack-u32 (length b.txs) v.txs_fit) (
              ReadsBack-bind _
                (ReadsBack-many_as (read_transaction c) (write_transaction c) (with_size c)
                  ReadsBack-transaction b.txs v.txs_valid)
                (ReadsBack-bind _ (ReadsBack-u32 (length b.faults) v.faults_fit) (
                  ReadsBack-last _ (
                    ReadsBack-many (read_fault c.is_key) write_fault (ReadsBack-fault c.is_key)
                      b.faults v.faults_valid))))))

  ReadsBack-text :
      (text : Bytes)
      → 0 < length text
      → c.is_utf8 text ≡ true
      → ReadsBack (read_error_text c (length text)) text (some text)
  unfolding read_error_text read_some_text
  ReadsBack-text text h utf8 = rw (lt→ltb 0 (length text) h) (
      ReadsBack-then _ (ReadsBack-bytes (length text) text refl)
        (rw utf8 (ReadsBack-pure (some text))))

  ReadsBack-spent :
      {cs : Bytes} (tx : Transaction Skeleton) (height gas len : ℕ) (text : Option Bytes)
      → IsLedgerTransaction c tx
      → IsU64 height
      → IsU64 gas
      → IsU32 len
      → ReadsBack (read_error_text c len) cs text
      → ReadsBack
          (read_spent c)
          (write_transaction c tx
            ++ (to_le_bytes 8 height ++ (to_le_bytes 8 gas ++ (to_le_bytes 4 len ++ cs))))
          (record {
            inner = with_size c tx;
            block_height = height;
            gas_spent = gas;
            error_text = text;
          })
  unfolding read_spent
  ReadsBack-spent tx height gas len text v hh hg hl reads =
      ReadsBack-bind _ (ReadsBack-transaction tx v) (
        ReadsBack-bind _ (ReadsBack-u64 height hh) (
          ReadsBack-bind _ (ReadsBack-u64 gas hg)
            (ReadsBack-bind _ (ReadsBack-u32 len hl) (ReadsBack-last _ reads))))

  -- Where skeletons are read back, a transaction that was spent without an error is read back, but
  -- four zero bytes of what was written for it are left in front of the rest.
  pub read_spent-write_spent-none :
      (tx : Transaction Skeleton) (height gas : ℕ) (rest : Bytes)
      → IsLedgerTransaction c tx
      → IsU64 height
      → IsU64 gas
      → read_spent c (
          write_spent c
            (record { inner = tx; block_height = height; gas_spent = gas; error_text = none })
          ++ rest)
        ≡ ok (
          record {
            inner = with_size c tx;
            block_height = height;
            gas_spent = gas;
            error_text = none;
          },
          0 ∷ (0 ∷ (0 ∷ (0 ∷ rest))),
        )
  unfolding write_spent read_error_text
  read_spent-write_spent-none tx height gas rest v hh hg =
      let text = ReadsBack-spent tx height gas 0 none v hh hg (omega arith) (ReadsBack-pure none) in
      rw (four_left (write_transaction c tx) (to_le_bytes 8 height) (to_le_bytes 8 gas) rest)
        (text.then_rest (0 ∷ (0 ∷ (0 ∷ (0 ∷ rest)))))

  -- Where skeletons are read back, a transaction that was spent with an error message that is not
  -- empty is read back whole.
  pub read_spent-write_spent-some :
      (tx : Transaction Skeleton) (height gas : ℕ) (text rest : Bytes)
      → IsLedgerTransaction c tx
      → IsU64 height
      → IsU64 gas
      → 0 < length text
      → IsU32 (length text)
      → c.is_utf8 text ≡ true
      → read_spent c (
          write_spent c
            (record { inner = tx; block_height = height; gas_spent = gas; error_text = some text })
          ++ rest)
        ≡ ok (
          record {
            inner = with_size c tx;
            block_height = height;
            gas_spent = gas;
            error_text = some text;
          },
          rest,
        )
  unfolding write_spent
  read_spent-write_spent-some tx height gas text rest v hh hg some_text fits utf8 =
      rw (cut_u32 (length text) fits) (
        (ReadsBack-spent tx height gas (length text) (some text) v hh hg fits
            (ReadsBack-text text some_text utf8)).then_rest
          rest)

read_back_label :
    (label : ℕ → Label) (v : ℕ)
    → IsU64 v
    → ReadsBack (read_label_of label) (to_le_bytes 8 v) (label v)
unfolding read_label_of
read_back_label label v h = ReadsBack-last _ (ReadsBack-u64 v h)

pub ReadsBack-label : (l : Label) → IsU64 (label_height l) → ReadsBack read_label (write_label l) l
unfolding read_label write_label
ReadsBack-label (Label.accepted v) h = ReadsBack-tag _ 0 (read_back_label _ v h)
ReadsBack-label (Label.attested v) h = ReadsBack-tag _ 1 (read_back_label _ v h)
ReadsBack-label (Label.confirmed v) h = ReadsBack-tag _ 2 (read_back_label _ v h)
ReadsBack-label (Label.final v) h = ReadsBack-tag _ 3 (read_back_label _ v h)
