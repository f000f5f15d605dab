-- ===== src/Blocks/Verification.antt =====
-- The check of a block that was made.
use rusk.Prelude.{◌≡◌, refl, subst, true, some, List}
use rusk.Bytes.{bytes_eq_refl}
use rusk.TxBytes.Slices.{Crates}
use rusk.NodeData.Ledger.{Transaction, SpentTransaction}
use rusk.Blocks.Machine.{Machine}
use rusk.Blocks.Production.{
  Config, CallParams, VerificationOutput, done, ◌>>=◌, new_block_session, started, accept_txs,
  close_block,
}
use rusk.Blocks.Generation.{
  Selection, selection, execute_transactions, accept, verify_transactions, accept_transactions,
  consistent, output_eq,
}
use rusk.Blocks.Steps.{execute_transactions-Made}
use rusk.Blocks.Replay.{inners}
use rusk.Blocks.Agreement.{KeepsSession, select-Follows}

module _ {Skeleton Session F X : Type 0} (m : Machine Skeleton Session F X) (config : Config)
    (c : Crates Skeleton) where
  output_eq_refl : (out : VerificationOutput) → output_eq m config c out out ≡ true
  unfolding output_eq
  output_eq_refl out = rw (bytes_eq_refl out.state_root, bytes_eq_refl out.event_bloom) refl

  module _ (params : CallParams) where
    -- The check of the block, with what it was made with, leads to the same.
    abbrev pub IsAccepted : List (SpentTransaction Skeleton) → VerificationOutput → Type 0
    IsAccepted spent out =
        (verify_transactions m config c params.prev_state_root params.round config.block_gas_limit
            params.generator_pubkey (inners spent) params.to_slash params.voters_pubkey
          ≡ done (spent, out))
        × ((s : Session) × (accept_transactions m config c params.prev_state_root params.round
                config.block_gas_limit params.generator_pubkey (inners spent) (some out)
                params.to_slash params.voters_pubkey
              ≡ done (spent, out, s)))

    steps-IsAccepted :
        (s₀ : Session) (sel : Selection Skeleton Session) (r : Session × VerificationOutput)
        → new_block_session m config params.round params.prev_state_root ≡ done s₀
        → accept_txs m config params.round
            (inners sel.progress.spent_txs)
            (started m config s₀ config.block_gas_limit)
          ≡ done sel.progress
        → close_block m config params.round params.generator_pubkey params.to_slash
            params.voters_pubkey sel.progress
          ≡ done r
        → IsAccepted sel.progress.spent_txs r.1
    unfolding verify_transactions accept_transactions accept consistent
    steps-IsAccepted s₀ sel r opens follows closes = (
      rw (opens, follows, closes, ◌>>=◌) refl,
      (r.0, rw (opens, follows, closes, output_eq_refl r.1, ◌>>=◌) refl),
    )

    -- Where a call that the crate refuses leaves the session as it was: a block that was made out of any
    -- transactions, skipping and discarding some of them, is verified with its transactions alone, and
    -- accepted, with the same receipts, state root and bloom.
    pub execute_transactions-IsAccepted :
        KeepsSession m
        → (txs discarded_txs : List (Transaction Skeleton))
          (spent : List (SpentTransaction Skeleton)) (out : VerificationOutput)
        → execute_transactions m config c params txs ≡ done (spent, discarded_txs, out)
        → IsAccepted spent out
    unfolding selection accept_txs
    execute_transactions-IsAccepted laws txs discarded_txs spent out h =
        let made = execute_transactions-Made m config c params txs discarded_txs spent out h in
        let follows =
          select-Follows m config c laws params made.first made.opens 0 txs
            (selection m config c params made.first) made.sel refl made.selects in
        subst
          (λ (t : List (SpentTransaction Skeleton)
              × List (Transaction Skeleton)
              × VerificationOutput).
            IsAccepted t.0 t.2)
          made.same
          (steps-IsAccepted made.first made.sel made.closed made.opens follows made.closes)
