-- ===== src/Blocks/Steps.antt =====
-- The steps of the making of a block that came to its end.
use rusk.Prelude.{◌≡◌, refl, List}
use rusk.TxBytes.Slices.{Crates}
use rusk.NodeData.Ledger.{Transaction, SpentTransaction}
use rusk.Blocks.Machine.{Machine}
use rusk.Blocks.Production.{
  Config, CallParams, VerificationOutput, Attempt, done, fault, ◌>>=◌, new_block_session,
  close_block,
}
use rusk.Blocks.Generation.{Selection, select, selection, execute_transactions}

pub bind_done :
    {X A B : Type 0} (a : Attempt X A) (f : A → Attempt X B) (b : B)
    → (a >>= f) ≡ done b
    → (x : A) × (a ≡ done x) × (f x ≡ done b)
unfolding ◌>>=◌
bind_done (done x) f b h = (x, refl, h)
bind_done (fault e) f b h = cc

pub done_injective : {X A : Type 0} (a b : A) → Path (Attempt X A) (done a) (done b) → a ≡ b
done_injective a b h = cc

module _ {Skeleton Session F X : Type 0} (m : Machine Skeleton Session F X) (config : Config)
    (c : Crates Skeleton) (params : CallParams) (txs : List (Transaction Skeleton)) where
  pub record Made (discarded_txs : List (Transaction Skeleton))
      (spent : List (SpentTransaction Skeleton)) (out : VerificationOutput) : Type 0 where
    pub first : Session
    pub sel : Selection Skeleton Session
    pub closed : Session × VerificationOutput
    pub opens : new_block_session m config params.round params.prev_state_root ≡ done first
    pub selects : select m config c params 0 txs (selection m config c params first) ≡ done sel
    pub closes :
        close_block m config params.round params.generator_pubkey params.to_slash
          params.voters_pubkey sel.progress
        ≡ done closed
    pub same :
        Path
          (List (SpentTransaction Skeleton) × List (Transaction Skeleton) × VerificationOutput)
          (sel.progress.spent_txs, sel.discarded_txs, closed.1)
          (spent, discarded_txs, out)

  pub execute_transactions-Made :
      (discarded_txs : List (Transaction Skeleton)) (spent : List (SpentTransaction Skeleton))
      (out : VerificationOutput)
      → execute_transactions m config c params txs ≡ done (spent, discarded_txs, out)
      → Made discarded_txs spent out
  unfolding execute_transactions
  execute_transactions-Made discarded_txs spent out h =
      let (s, opens, h₁) =
        bind_done (new_block_session m config params.round params.prev_state_root) _ _ h in
      let (sel, selects, h₂) =
        bind_done (select m config c params 0 txs (selection m config c params s)) _ _ h₁ in
      let (r, closes, h₃) =
        bind_done
          (close_block m config params.round params.generator_pubkey params.to_slash
            params.voters_pubkey sel.progress)
          (λ (r : Session × VerificationOutput).
            done (sel.progress.spent_txs, sel.discarded_txs, r.1))
          (spent, discarded_txs, out) h₂ in
      record {
        first = s;
        sel = sel;
        closed = r;
        opens = opens;
        selects = selects;
        closes = closes;
        same =
            done_injective (sel.progress.spent_txs, sel.discarded_txs, r.1)
              (spent, discarded_txs, out) h₃;
      }
