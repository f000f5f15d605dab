-- ===== src/Blocks/Replay.antt =====
-- The transactions of a block, gone through again.
use rusk.Prelude.{ℕ, ◌≡◌, refl, sym, ap, List, [], ◌∷◌, ◌++◌, Bool-cases, inl, inr, leb}
use rusk.TxBytes.Slices.{Crates}
use rusk.NodeData.Ledger.{Transaction, SpentTransaction}
use rusk.Blocks.Machine.{Machine}
use rusk.Blocks.Execute.{Executed, executed, discarded, aborted}
use rusk.Blocks.Production.{Config, done, ◌>>=◌, Progress, take_in, accept_executed, accept_txs}
use rusk.Blocks.Steps.{bind_done}
use rusk.Blocks.Generation.{replayed, replay}

module _ {Skeleton : Type 0} where
  abbrev pub inners : List (SpentTransaction Skeleton) → List (Transaction Skeleton)
  inners [] = []
  inners (s ∷ spent) = s.inner ∷ inners spent

  pub inners-append :
      (spent more : List (SpentTransaction Skeleton))
      → inners (spent ++ more) ≡ inners spent ++ inners more
  inners-append [] more = refl
  inners-append (s ∷ spent) more = ap (λ xs. s.inner ∷ xs) (inners-append spent more)

module _ {Skeleton Session F X : Type 0} (m : Machine Skeleton Session F X) (config : Config)
    (c : Crates Skeleton) where
  module _ (height : ℕ) where
    pub accept_txs-append :
        (txs more : List (Transaction Skeleton)) (p q : Progress Skeleton Session)
        → accept_txs m config height txs p ≡ done q
        → accept_txs m config height (txs ++ more) p ≡ accept_txs m config height more q
    unfolding accept_txs
    accept_txs-append [] more p q h = let e : p ≡ q = cc in rw e refl
    accept_txs-append (tx ∷ txs) more p q h =
        let (r, e, h') = bind_done _ (accept_txs m config height txs) q h in
        rw (e, ◌>>=◌) (accept_txs-append txs more r q h')

    replayed-accept :
        (tx : Transaction Skeleton) (p q : Progress Skeleton Session) (r : Session × Executed F X)
        → accept_executed m config height tx p r ≡ done q
        → replayed m config c r ≡ done q.session
    unfolding accept_executed replayed take_in
    replayed-accept tx p q (s, executed r) h =
        elim (Bool-cases (leb r.gas_spent p.block_gas_left)) [
          | inl e ↦
              let h' = rw (e, accept_executed) at h in
              let same : take_in m config height tx s r p ≡ q = cc in rw (sym same) refl
          | inr e ↦ let h' = rw (e, accept_executed) at h in cc
        ]
    replayed-accept tx p q (s, discarded e) h = cc
    replayed-accept tx p q (s, aborted) h = cc

    -- To go through the spent transactions again leads to the same session.
    pub replay-accept :
        (spent : List (SpentTransaction Skeleton)) (p q : Progress Skeleton Session)
        → accept_txs m config height (inners spent) p ≡ done q
        → replay m config c p.session spent ≡ done q.session
    unfolding accept_txs replay
    replay-accept [] p q h = let e : p ≡ q = cc in rw e refl
    replay-accept (x ∷ spent) p q h =
        let (r, e, h') = bind_done _ (accept_txs m config height (inners spent)) q h in
        rw (replayed-accept x.inner p r _ e, ◌>>=◌) (replay-accept spent r q h')
