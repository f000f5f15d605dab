-- ===== src/Blocks/Limits.antt =====
-- The limits of a block that was made.
use rusk.Prelude.{
  ℕ, suc, ◌+◌, ◌-◌, ◌^◌, ◌≡◌, ◌≤◌, subst, true, false, List, [], ◌∷◌, ◌++◌, arith, Bool-cases, inl,
  inr, ltb, leb, ◌*◌, ◌%◌, All, none, some, ◌⊎◌, ◌||◌, ◌==◌, length, length-append,
}
use rusk.TxBytes.Slices.{Crates}
use rusk.TxBytes.Transactions as Protocol
use rusk.Bytes.{to_le_bytes, length-to_le_bytes}
use rusk.NodeData.Ledger.{
  Transaction, SpentTransaction, tx_size, write_transaction, write_var_le_bytes32,
}
use rusk.Blocks.Machine.{Machine, Receipt}
use rusk.Blocks.Execute.{Executed, executed, discarded, aborted, execute}
use rusk.Blocks.Production.{
  Config, CallParams, VerificationOutput, done, new_block_session, take_in, spent_tx, started,
  max_number_of_transactions,
}
use rusk.Blocks.Generation.{
  Selection, replay, renew, weigh, consider, select, selection, execute_transactions,
  is_nonce_not_ready,
}
use rusk.Blocks.Steps.{bind_done, execute_transactions-Made}

module _ {Skeleton Session F X : Type 0} (m : Machine Skeleton Session F X) (config : Config)
    (c : Crates Skeleton) where
  abbrev pub gas_of : List (SpentTransaction Skeleton) → ℕ
  gas_of [] = 0
  gas_of (s ∷ spent) = s.gas_spent + gas_of spent

  abbrev pub size_of : List (SpentTransaction Skeleton) → ℕ
  size_of [] = 0
  size_of (s ∷ spent) = tx_size c s.inner + size_of spent

  gas_of-append :
      (spent more : List (SpentTransaction Skeleton))
      → gas_of (spent ++ more) ≡ gas_of spent + gas_of more
  gas_of-append [] more = omega arith
  gas_of-append (s ∷ spent) more = omega (arith, gas_of-append spent more)

  size_of-append :
      (spent more : List (SpentTransaction Skeleton))
      → size_of (spent ++ more) ≡ size_of spent + size_of more
  size_of-append [] more = omega arith
  size_of-append (s ∷ spent) more = omega (arith, size_of-append spent more)

  module _ (params : CallParams) (max_size : ℕ) where
    -- What is left, with what the spent transactions take, is what there was.
    record IsFitting (sel : Selection Skeleton Session) : Type 0 where
      pub gas_fits :
          gas_of sel.progress.spent_txs + sel.progress.block_gas_left ≡ config.block_gas_limit
      pub size_fits : size_of sel.progress.spent_txs + sel.size_left ≡ max_size
      pub count_fits : length sel.progress.spent_txs ≤ max_number_of_transactions

    -- A round adds at most one transaction, so the count is kept by the break.
    abbrev Below : Selection Skeleton Session → Type 0
    Below sel = suc (length sel.progress.spent_txs) ≤ max_number_of_transactions

    kept-IsFitting :
        (sel : Selection Skeleton Session) (s : Session)
        (discarded_txs : List (Transaction Skeleton))
        → IsFitting sel
        → IsFitting (record sel {
          progress = record sel.progress { session = s };
          discarded_txs = discarded_txs;
        })
    kept-IsFitting sel s discarded_txs fit = record {
      gas_fits = fit.gas_fits;
      size_fits = fit.size_fits;
      count_fits = fit.count_fits;
    }

    renew-IsFitting :
        (sel sel' : Selection Skeleton Session)
        → IsFitting sel
        → renew m config c params sel ≡ done sel'
        → IsFitting sel'
    unfolding renew
    renew-IsFitting sel sel' fit h =
        let (s, opens, h₁) =
          bind_done (new_block_session m config params.round params.prev_state_root) _ _ h in
        let (t, replays, h₂) = bind_done (replay m config c s sel.progress.spent_txs) _ _ h₁ in
        let same : record sel { progress = record sel.progress { session = t } } ≡ sel' = cc in
        subst IsFitting same (kept-IsFitting sel t sel.discarded_txs fit)

    taken-IsFitting :
        (tx : Transaction Skeleton) (sel : Selection Skeleton Session) (s : Session) (r : Receipt F)
        → IsFitting sel
        → Below sel
        → leb r.gas_spent sel.progress.block_gas_left ≡ true
        → ltb sel.size_left (tx_size c tx) ≡ false
        → IsFitting (record sel {
          progress = take_in m config params.round tx s r sel.progress;
          size_left = sel.size_left - tx_size c tx;
        })
    unfolding take_in spent_tx
    taken-IsFitting tx sel s r fit below gas size =
        let x = spent_tx m config tx params.round r ∷ [] in
        let spent = sel.progress.spent_txs in
        record {
          gas_fits = ground (arith, gas_of-append spent x, fit.gas_fits);
          size_fits = ground (arith, size_of-append spent x, fit.size_fits);
          count_fits = omega (arith, length-append spent x);
        }

    weigh-IsFitting :
        (tx : Transaction Skeleton) (sel sel' : Selection Skeleton Session)
        (x : Session × Executed F X)
        → IsFitting sel
        → Below sel
        → ltb sel.size_left (tx_size c tx) ≡ false
        → weigh m config c params tx sel x ≡ done sel'
        → IsFitting sel'
    unfolding weigh
    weigh-IsFitting tx sel sel' (s, executed r) fit below size h =
        elim (Bool-cases (ltb sel.progress.block_gas_left r.gas_spent)) [
          | inl over ↦ renew-IsFitting sel sel' fit (rw (over, weigh) at h)
          | inr fits ↦
              let h' = rw (fits, weigh) at h in
              let same : record sel {
                progress = take_in m config params.round tx s r sel.progress;
                size_left = sel.size_left - tx_size c tx;
              }
                  ≡ sel' =
                cc in
              subst IsFitting same (taken-IsFitting tx sel s r fit below (ground arith) size)
        ]
    weigh-IsFitting tx sel sel' (s, discarded e) fit below size h =
        elim (Bool-cases (is_nonce_not_ready (m.panic_text e))) [
          | inl early ↦
              let h' = rw (early, weigh) at h in
              let same : record sel { progress = record sel.progress { session = s } } ≡ sel' =
                cc in
              subst IsFitting same (kept-IsFitting sel s sel.discarded_txs fit)
          | inr other ↦
              let h' = rw (other, weigh) at h in
              let same : record sel {
                progress = record sel.progress { session = s };
                discarded_txs = sel.discarded_txs ++ (tx ∷ []);
              }
                  ≡ sel' =
                cc in
              subst IsFitting same (kept-IsFitting sel s (sel.discarded_txs ++ (tx ∷ [])) fit)
        ]
    weigh-IsFitting tx sel sel' (s, aborted) fit below size h = cc

    consider-IsFitting :
        (tx : Transaction Skeleton) (sel sel' : Selection Skeleton Session)
        → IsFitting sel
        → Below sel
        → consider m config c params tx sel ≡ done sel'
        → IsFitting sel'
    unfolding consider
    consider-IsFitting tx sel sel' fit below h =
        elim (Bool-cases (tx_size c tx == 0 || ltb sel.size_left (tx_size c tx))) [
          | inl skip ↦
              let h' = rw (skip, consider) at h in
              let same : sel ≡ sel' = cc in subst IsFitting same fit
          | inr fits ↦
              weigh-IsFitting tx sel sel' (execute m config.prices sel.progress.session tx.inner)
                fit below (ground arith) (rw (fits, consider) at h)
        ]

    select-IsFitting :
        (round : ℕ) (txs : List (Transaction Skeleton)) (sel sel' : Selection Skeleton Session)
        → IsFitting sel
        → select m config c params round txs sel ≡ done sel'
        → IsFitting sel'
    unfolding select
    select-IsFitting round [] sel sel' fit h =
        let same : sel ≡ sel' = cc in subst IsFitting same fit
    select-IsFitting round (tx ∷ txs) sel sel' fit h =
        elim (Bool-cases (
          config.out_of_time round
          || leb max_number_of_transactions (length sel.progress.spent_txs))) [
            | inl stop ↦
                let h' = rw (stop, select) at h in
                let same : sel ≡ sel' = cc in subst IsFitting same fit
            | inr on ↦
                let (sel₁, e, later) =
                  bind_done (consider m config c params tx sel)
                    (select m config c params (suc round) txs) sel' (rw (on, select) at h) in
                select-IsFitting (suc round) txs sel₁ sel'
                  (consider-IsFitting tx sel sel₁ fit (ground arith) e) later
          ]

  -- The size that a transaction carries is that of its protocol bytes, as `read_transaction` leaves it,
  -- or it carries none.
  unfoldable pub HasSize : Transaction Skeleton → Type 0
  HasSize tx = (tx.size ≡ none) ⊎ (tx.size ≡ some (length (Protocol.to_var_bytes c tx.inner)))

  abbrev pub bytes_of : List (SpentTransaction Skeleton) → ℕ
  bytes_of [] = 0
  bytes_of (s ∷ spent) = length (write_transaction c s.inner) + bytes_of spent

  -- What is written before the protocol bytes: a version, a type and their length.
  length-write_transaction :
      (tx : Transaction Skeleton)
      → length (write_transaction c tx) ≡ length (Protocol.to_var_bytes c tx.inner) + 12
  unfolding write_transaction write_var_le_bytes32
  length-write_transaction tx =
      let inner = Protocol.to_var_bytes c tx.inner in
      let prefix = to_le_bytes 4 (length inner % 2 ^ 32) in
      let kind = to_le_bytes 4 tx.tx_type in
      omega (
        arith,
        length-append (to_le_bytes 4 tx.version) (kind ++ (prefix ++ inner)),
        length-append kind (prefix ++ inner),
        length-append prefix inner,
        length-to_le_bytes 4 tx.version,
        length-to_le_bytes 4 tx.tx_type,
        length-to_le_bytes 4 (length inner % 2 ^ 32),
      )

  written-size :
      (tx : Transaction Skeleton) → HasSize tx → length (write_transaction c tx) ≤ tx_size c tx + 12
  unfolding HasSize tx_size
  written-size tx (inl e) = ground (arith, e)
  written-size tx (inr e) = ground (arith, e, length-write_transaction tx)

  bytes-size :
      (spent : List (SpentTransaction Skeleton))
      → All (λ s. HasSize s.inner) spent
      → bytes_of spent ≤ size_of spent + 12 * length spent
  bytes-size [] all = omega arith
  bytes-size (s ∷ spent) (one, all) = omega (arith, written-size s.inner one, bytes-size spent all)

  -- The limits that a block is made under.
  pub record IsWithinLimits (max_size : ℕ) (spent : List (SpentTransaction Skeleton)) : Type 0 where
    pub gas_within : gas_of spent ≤ config.block_gas_limit
    pub size_within : size_of spent ≤ max_size
    pub bytes_within : bytes_of spent ≤ max_size + 12 * length spent
    pub count_within : length spent ≤ max_number_of_transactions

  fitting_within :
      (params : CallParams) (max_size : ℕ) (sel : Selection Skeleton Session)
      → IsFitting params max_size sel
      → All (λ s. HasSize s.inner) sel.progress.spent_txs
      → IsWithinLimits max_size sel.progress.spent_txs
  fitting_within params max_size sel fit sized = record {
    gas_within = omega (arith, fit.gas_fits);
    size_within = omega (arith, fit.size_fits);
    bytes_within = omega (arith, fit.size_fits, bytes-size sel.progress.spent_txs sized);
    count_within = fit.count_fits;
  }

  -- Where there is room for the count of the faults, and each transaction of the block carries the size
  -- that reading it leaves, or none, a block that was made out of any transactions spends no more gas
  -- than the limit of a block, the sizes that the block is made by sum up to no more than the bytes
  -- that are left, the bytes that are written for its transactions exceed these by at most 12 for each,
  -- and they are at most 1000.
  pub execute_transactions-IsWithinLimits :
      (params : CallParams) (txs discarded_txs : List (Transaction Skeleton))
      (spent : List (SpentTransaction Skeleton)) (out : VerificationOutput)
      → 4 ≤ params.max_txs_bytes
      → params.max_txs_bytes ≤ 2 ^ 64
      → execute_transactions m config c params txs ≡ done (spent, discarded_txs, out)
      → All (λ s. HasSize s.inner) spent
      → IsWithinLimits (params.max_txs_bytes - 4) spent
  unfolding selection started
  execute_transactions-IsWithinLimits params txs discarded_txs spent out room width h sized =
      let made = execute_transactions-Made m config c params txs discarded_txs spent out h in
      let max_size = params.max_txs_bytes - 4 in
      let first = selection m config c params made.first in
      let fit : IsFitting params max_size first = record {
        gas_fits = omega arith;
        size_fits = omega arith;
        count_fits = omega arith;
      } in
      subst
        (λ (t : List (SpentTransaction Skeleton)
            × List (Transaction Skeleton)
            × VerificationOutput).
          All (λ s. HasSize s.inner) t.0 → IsWithinLimits max_size t.0)
        made.same
        (fitting_within params max_size made.sel
          (select-IsFitting params max_size 0 txs first made.sel fit made.selects))
        sized
