-- ===== src/Blocks/Agreement.antt =====
-- The check of a block gets as far as its making did.
use rusk.Prelude.{
  ℕ, suc, ◌-◌, ◌≡◌, refl, sym, ap, ◌∙◌, subst, true, List, [], ◌∷◌, ◌++◌, arith, Bool-cases,
  Option-cases, inl, inr, ltb, leb, ◌||◌, ◌==◌, length,
}
use rusk.TxBytes.Slices.{Crates}
use rusk.TxBytes.Transactions as Protocol
use rusk.NodeData.Ledger.{Transaction, tx_size}
use rusk.Blocks.Machine.{Machine, Receipt, Called, returned, refused, Event}
use rusk.Blocks.Execute.{
  Executed, executed, discarded, aborted, Prices, execute, after_spending, deploy_check, settle_gas,
  refunded, consume_all, contract_deploy,
}
use rusk.Blocks.Production.{
  Config, CallParams, done, ◌>>=◌, new_block_session, take_in, spent_tx, started, accept_executed,
  accept_txs, max_number_of_transactions,
}
use rusk.Blocks.Steps.{bind_done}
use rusk.Blocks.Replay.{inners, inners-append, accept_txs-append, replay-accept}
use rusk.Blocks.Generation.{Selection, renew, weigh, consider, select, is_nonce_not_ready}

module _ {Skeleton Session F X : Type 0} (m : Machine Skeleton Session F X) where
  -- What `execute` of vm/src/execute.rs relies on in the crate: after a call that is refused, nothing has to be
  -- executed again, as the session is as before.
  pub record KeepsSession : Type 0 where
    pub keeps_session :
        (s s' : Session) (tx : Protocol.Transaction Skeleton) (limit : ℕ) (e : X)
        → m.spend_and_execute s tx limit ≡ (s', refused e)
        → s' ≡ s

module _ {Skeleton Session F X : Type 0} (m : Machine Skeleton Session F X) (config : Config)
    (c : Crates Skeleton) where
  refunded_not_discarded :
      (r : Receipt F) (x : Session × Called X (List Event)) (s' : Session) (e : X)
      → refunded m r x ≡ (s', discarded e)
      → ⊥
  unfolding refunded
  refunded_not_discarded r (s, returned events) s' e h = cc
  refunded_not_discarded r (s, refused e') s' e h = cc

  settle_gas_not_discarded :
      (x : Session × Receipt F) (s' : Session) (e : X) → settle_gas m x ≡ (s', discarded e) → ⊥
  unfolding settle_gas
  settle_gas_not_discarded (s, r) s' e h =
      let r' = consume_all m r.answer r in
      refunded_not_discarded r' (m.refund s r'.gas_spent) s' e h

  module _ (laws : KeepsSession m) where
    after_spending-discarded :
        (tx given : Protocol.Transaction Skeleton) (prices : Prices) (s s' : Session) (limit : ℕ)
        (e : X) (x : Session × Called X (Receipt F))
        → m.spend_and_execute s given limit ≡ x
        → after_spending m tx prices x ≡ (s', discarded e)
        → s' ≡ s
    unfolding after_spending settle_gas
    after_spending-discarded tx given prices s s' limit e (t, refused e') h h' =
        let same : t ≡ s' = cc in sym same ∙ laws.keeps_session s t given limit e' h
    after_spending-discarded tx given prices s s' limit e (t, returned r) h h' =
        absurd (settle_gas_not_discarded (contract_deploy m t tx prices r) s' e h')

    -- A transaction that is discarded leaves the session as it was.
    execute-discarded :
        (prices : Prices) (s s' : Session) (tx : Protocol.Transaction Skeleton) (e : X)
        → execute m prices s tx ≡ (s', discarded e)
        → s' ≡ s
    unfolding execute
    execute-discarded prices s s' tx e h = elim (Option-cases (deploy_check m tx prices)) [
      | inr (e', check) ↦ let h' = rw (check, execute) at h in cc
      | inl check ↦ after_spending-discarded tx _ prices s s' _ e _ refl (rw (check, execute) at h)
    ]

    module _ (params : CallParams) (s₀ : Session)
        (opens : new_block_session m config params.round params.prev_state_root ≡ done s₀) where
      -- The check of the transactions that were selected so far gets as far as the selection did.
      abbrev pub Follows : Selection Skeleton Session → Type 0
      Follows sel =
          accept_txs m config params.round (inners sel.progress.spent_txs)
            (started m config s₀ config.block_gas_limit)
          ≡ done sel.progress

      renew-Follows :
          (sel sel' : Selection Skeleton Session)
          → Follows sel
          → renew m config c params sel ≡ done sel'
          → Follows sel'
      unfolding renew started
      renew-Follows sel sel' inv h =
          let again =
            replay-accept m config c params.round sel.progress.spent_txs _ sel.progress inv in
          let h' = rw (opens, again, ◌>>=◌) at h in
          let same : sel ≡ sel' = cc in subst Follows same inv

      taken-Follows :
          (tx : Transaction Skeleton) (sel : Selection Skeleton Session) (s : Session)
          (r : Receipt F) (size_left : ℕ)
          → Follows sel
          → execute m config.prices sel.progress.session tx.inner ≡ (s, executed r)
          → leb r.gas_spent sel.progress.block_gas_left ≡ true
          → Follows (record sel {
            progress = take_in m config params.round tx s r sel.progress;
            size_left = size_left;
          })
      unfolding take_in accept_txs accept_executed spent_tx
      taken-Follows tx sel s r size_left inv ran fits =
          let x = spent_tx m config tx params.round r in
          ap
            (λ (txs : List (Transaction Skeleton)).
              accept_txs m config params.round txs (started m config s₀ config.block_gas_limit))
            (inners-append sel.progress.spent_txs (x ∷ []))
          ∙ (accept_txs-append m config c params.round (inners sel.progress.spent_txs) (tx ∷ []) _
                sel.progress inv
              ∙ (ap
                    (λ (o : Session × Executed F X).
                      accept_executed m config params.round tx sel.progress o
                      >>= accept_txs m config params.round [])
                    ran
                  ∙ rw (fits, accept_executed, ◌>>=◌) refl))

      weigh-Follows :
          (tx : Transaction Skeleton) (sel sel' : Selection Skeleton Session)
          (x : Session × Executed F X)
          → Follows sel
          → execute m config.prices sel.progress.session tx.inner ≡ x
          → weigh m config c params tx sel x ≡ done sel'
          → Follows sel'
      unfolding weigh
      weigh-Follows tx sel sel' (s, executed r) inv ran h =
          elim (Bool-cases (ltb sel.progress.block_gas_left r.gas_spent)) [
            | inl over ↦ renew-Follows sel sel' inv (rw (over, weigh) at h)
            | inr fits ↦
                let h' = rw (fits, weigh) at h in
                let same : record sel {
                  progress = take_in m config params.round tx s r sel.progress;
                  size_left = sel.size_left - tx_size c tx;
                }
                    ≡ sel' =
                  cc in
                subst Follows same
                  (taken-Follows tx sel s r (sel.size_left - tx_size c tx) inv ran (ground arith))
          ]
      weigh-Follows tx sel sel' (s, discarded e) inv ran h =
          let kept = execute-discarded config.prices sel.progress.session s tx.inner e ran in
          let inv' : accept_txs m config params.round (inners sel.progress.spent_txs)
                (started m config s₀ config.block_gas_limit)
              ≡ done (record sel.progress { session = s }) =
            rw kept inv in
          elim (Bool-cases (is_nonce_not_ready (m.panic_text e))) [
            | inl early ↦
                let h' = rw (early, weigh) at h in
                let same : record sel { progress = record sel.progress { session = s } } ≡ sel' =
                  cc in
                subst Follows same inv'
            | inr other ↦
                let h' = rw (other, weigh) at h in
                let same : record sel {
                  progress = record sel.progress { session = s };
                  discarded_txs = sel.discarded_txs ++ (tx ∷ []);
                }
                    ≡ sel' =
                  cc in
                subst Follows same inv'
          ]
      weigh-Follows tx sel sel' (s, aborted) inv ran h = cc

      consider-Follows :
          (tx : Transaction Skeleton) (sel sel' : Selection Skeleton Session)
          → Follows sel
          → consider m config c params tx sel ≡ done sel'
          → Follows sel'
      unfolding consider
      consider-Follows tx sel sel' inv h =
          elim (Bool-cases (tx_size c tx == 0 || ltb sel.size_left (tx_size c tx))) [
            | inl skip ↦
                let h' = rw (skip, consider) at h in
                let same : sel ≡ sel' = cc in subst Follows same inv
            | inr fits ↦ weigh-Follows tx sel sel' _ inv refl (rw (fits, consider) at h)
          ]

      pub select-Follows :
          (round : ℕ) (txs : List (Transaction Skeleton)) (sel sel' : Selection Skeleton Session)
          → Follows sel
          → select m config c params round txs sel ≡ done sel'
          → Follows sel'
      unfolding select
      select-Follows round [] sel sel' inv h = let same : sel ≡ sel' = cc in subst Follows same inv
      select-Follows round (tx ∷ txs) sel sel' inv h =
          elim (Bool-cases (
            config.out_of_time round
            || leb max_number_of_transactions (length sel.progress.spent_txs))) [
              | inl stop ↦
                  let h' = rw (stop, select) at h in
                  let same : sel ≡ sel' = cc in subst Follows same inv
              | inr on ↦
                  let (sel₁, e, later) =
                    bind_done _ (select m config c params (suc round) txs) sel'
                      (rw (on, select) at h) in
                  select-Follows (suc round) txs sel₁ sel' (consider-Follows tx sel sel₁ inv e)
                    later
            ]
