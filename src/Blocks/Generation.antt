-- ===== src/Blocks/Generation.antt =====
-- rusk/src/lib/node/rusk.rs: the three entry points for a block, with the loop that selects transactions.
use rusk.Prelude.{
  ℕ, suc, ◌+◌, ◌-◌, ◌%◌, ◌^◌, Bool, true, false, ◌&&◌, ◌||◌, Option, none, some, List, [], ◌∷◌,
  ◌++◌, ltb, leb, ◌==◌, if◌then◌else◌, length,
}
use rusk.Vm.{PublicKey, Bytes}
use rusk.Bytes.{bytes_eq}
use rusk.TxBytes.Slices.{Crates}
use rusk.NodeData.Ledger.{Transaction, SpentTransaction, tx_size}
use rusk.NodeData.Slashes.{Slash}
use rusk.Blocks.Machine.{Machine, text}
use rusk.Blocks.Execute.{Executed, executed, discarded, aborted, execute}
use rusk.Blocks.Rewards.{Voter}
use rusk.Blocks.Production.{
  Config, CallParams, VerificationOutput, BlockError, panicked, Attempt, done, fault, ◌>>=◌,
  Progress, new_block_session, take_in, started, accept_txs, close_block,
  max_number_of_transactions,
}

-- `PANIC_NONCE_NOT_READY`
abbrev pub panic_nonce_not_ready : Bytes
panic_nonce_not_ready = text "Nonce not ready to be used yet"

unfoldable pub is_nonce_not_ready : Option Bytes → Bool
is_nonce_not_ready none = false
is_nonce_not_ready (some val) = bytes_eq val panic_nonce_not_ready

pub record Selection (Skeleton Session : Type 0) : Type 0 where
  pub progress : Progress Skeleton Session
  pub discarded_txs : List (Transaction Skeleton)
  pub size_left : ℕ

module _ {Skeleton Session F X : Type 0} (m : Machine Skeleton Session F X) (config : Config)
    (c : Crates Skeleton) where
  unfoldable pub replayed : Session × Executed F X → Attempt X Session
  replayed (s, executed r) = done s
  replayed (s, discarded e) = done s
  replayed (s, aborted) = fault panicked

  -- The transactions that were spent, once more, with no look at their outcomes.
  unfoldable pub replay : Session → List (SpentTransaction Skeleton) → Attempt X Session
  unfolding replayed ◌>>=◌
  replay s [] = done s
  replay s (spent ∷ more) =
      replayed (execute m config.prices s spent.inner.inner) >>= (λ (t : Session). replay t more)

  abbrev with_session : Session → Selection Skeleton Session → Selection Skeleton Session
  with_session s sel = record sel { progress = record sel.progress { session = s } }

  module _ (params : CallParams) where
    -- A transaction that does not fit: a new session, with those before it.
    unfoldable pub renew : Selection Skeleton Session → Attempt X (Selection Skeleton Session)
    unfolding replay ◌>>=◌
    renew sel = new_block_session m config params.round params.prev_state_root >>= (λ (s : Session).
        replay s sel.progress.spent_txs >>= (λ (t : Session). done (with_session t sel)))

    unfoldable pub weigh :
        Transaction Skeleton
        → Selection Skeleton Session
        → Session × Executed F X
        → Attempt X (Selection Skeleton Session)
    unfolding renew is_nonce_not_ready
    weigh tx sel (s, executed r) =
        if ltb sel.progress.block_gas_left r.gas_spent
        then renew sel
        else done (record sel {
          progress = take_in m config params.round tx s r sel.progress;
          size_left = sel.size_left - tx_size c tx;
        })
    weigh tx sel (s, discarded e) =
        if is_nonce_not_ready (m.panic_text e)
        then done (with_session s sel)
        else done (record (with_session s sel) { discarded_txs = sel.discarded_txs ++ (tx ∷ []) })
    weigh tx sel (s, aborted) = fault panicked

    -- A round of the loop, behind its breaks.
    unfoldable pub consider :
        Transaction Skeleton → Selection Skeleton Session → Attempt X (Selection Skeleton Session)
    unfolding weigh
    consider tx sel =
        if tx_size c tx == 0 || ltb sel.size_left (tx_size c tx)
        then done sel
        else weigh tx sel (execute m config.prices sel.progress.session tx.inner)

    unfoldable pub select :
        ℕ
        → List (Transaction Skeleton)
        → Selection Skeleton Session
        → Attempt X (Selection Skeleton Session)
    unfolding consider ◌>>=◌
    select round [] sel = done sel
    select round (tx ∷ txs) sel =
        let later = consider tx sel >>= select (suc round) txs in
        if config.out_of_time round
          || leb max_number_of_transactions (length sel.progress.spent_txs)
        then done sel
        else later

    -- 4 bytes stay for the count of the faults.
    unfoldable pub selection : Session → Selection Skeleton Session
    unfolding started
    selection s = record {
      progress = started m config s config.block_gas_limit;
      discarded_txs = [];
      size_left = (params.max_txs_bytes + 2 ^ 64 - 4) % 2 ^ 64;
    }

    unfoldable pub execute_transactions :
        List (Transaction Skeleton)
        → Attempt X
            (List (SpentTransaction Skeleton) × List (Transaction Skeleton) × VerificationOutput)
    unfolding select selection close_block ◌>>=◌
    execute_transactions txs =
        new_block_session m config params.round params.prev_state_root >>= (λ (s : Session).
          select 0 txs (selection s) >>= (λ (sel : Selection Skeleton Session).
            close_block m config params.round params.generator_pubkey params.to_slash
              params.voters_pubkey sel.progress
            >>= (λ (r : Session × VerificationOutput).
                done (sel.progress.spent_txs, sel.discarded_txs, r.1))))

  -- `accept`, with the session that is left. The events that it hands on are left out.
  unfoldable pub accept :
      Session
      → ℕ
      → ℕ
      → PublicKey
      → List (Transaction Skeleton)
      → List Slash
      → List Voter
      → Attempt X (List (SpentTransaction Skeleton) × VerificationOutput × Session)
  unfolding accept_txs close_block started ◌>>=◌
  accept s block_height block_gas_limit generator txs slashing voters =
      accept_txs m config block_height txs (started m config s block_gas_limit)
      >>= (λ (p : Progress Skeleton Session).
          close_block m config block_height generator slashing voters p
          >>= (λ (r : Session × VerificationOutput). done (p.spent_txs, r.1, r.0)))

  unfoldable pub verify_transactions :
      Bytes
      → ℕ
      → ℕ
      → PublicKey
      → List (Transaction Skeleton)
      → List Slash
      → List Voter
      → Attempt X (List (SpentTransaction Skeleton) × VerificationOutput)
  unfolding accept ◌>>=◌
  verify_transactions prev_commit block_height block_gas_limit generator txs slashing voters =
      new_block_session m config block_height prev_commit >>= (λ (s : Session).
        accept s block_height block_gas_limit generator txs slashing voters
        >>= (λ (r : List (SpentTransaction Skeleton) × VerificationOutput × Session).
            done (r.0, r.1)))

  unfoldable pub output_eq : VerificationOutput → VerificationOutput → Bool
  output_eq a b = bytes_eq a.state_root b.state_root && bytes_eq a.event_bloom b.event_bloom

  unfoldable pub consistent : Option VerificationOutput → VerificationOutput → Bool
  unfolding output_eq
  consistent none output = true
  consistent (some expected) output = output_eq expected output

  -- With the session that is committed.
  unfoldable pub accept_transactions :
      Bytes
      → ℕ
      → ℕ
      → PublicKey
      → List (Transaction Skeleton)
      → Option VerificationOutput
      → List Slash
      → List Voter
      → Attempt X (List (SpentTransaction Skeleton) × VerificationOutput × Session)
  unfolding accept consistent ◌>>=◌
  accept_transactions prev_commit block_height block_gas_limit generator txs check slashing voters =
      new_block_session m config block_height prev_commit >>= (λ (s : Session).
        accept s block_height block_gas_limit generator txs slashing voters
        >>= (λ (r : List (SpentTransaction Skeleton) × VerificationOutput × Session).
            if consistent check r.1 then done r else fault (BlockError.inconsistent_state r.1)))
