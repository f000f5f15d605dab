-- ===== src/Transfer/Later.antt =====
-- The nonces that were used and the nullifiers that were spent, under the calls of the transfer
-- contract (contracts/transfer/src/state.rs).
use rusk.Prelude.{ℕ, ◌≤◌, ◌≡◌, refl, ap, true, false, List, [], ◌∷◌, arith, ◌==◌, if◌then◌else◌}
use rusk.Vm.{Host, PublicKey, Bytes, ok}
use rusk.Vm.Ensures.{
  Ensures, Ensures-bind, Ensures-expect, Ensures-guard, Ensures-option, Ensures-done, Ensures-mono,
}
use rusk.Map.{Map, insert, contains_key, get-insert}
use rusk.Transfer.Withdrawal.{Withdraw, WithdrawReceiver}
use rusk.Transfer.Types.{NoteOps, MoonlightTransaction, PhoenixTransaction}
use rusk.Transfer.State.{TransferState, account, cache_note, push_note}
use rusk.Transfer.Settlement.{pay_receiver, mint_withdrawal, contains}
use rusk.Transfer.Spending.{insert_nullifiers, extend_notes, spend_phoenix}
use rusk.Transfer.Supply.{Credits, credit_account-Credits}
use rusk.Transfer.Balances.{push_note-same}
use rusk.Transfer.Gas.{Spends}

key_inserted :
    (x y : ℕ) (m : Map (Unit {0}))
    → contains_key x (insert y tt m) ≡ (if x == y then true else contains_key x m)
unfolding contains_key
key_inserted x y m = rw (get-insert y x tt m) (ground arith)

module _ {Note : Type 0} where
  -- No nonce is lower and no nullifier is forgotten.
  pub record Later (s s' : TransferState Note) : Type 0 where
    pub nonces : (k : PublicKey) → (account k s).nonce ≤ (account k s').nonce
    pub spent : (x : ℕ) → contains_key x s.nullifiers ≡ true → contains_key x s'.nullifiers ≡ true

  pub Later-refl : (s : TransferState Note) → Later s s
  Later-refl s = record { nonces = λ k. omega arith; spent = λ x e. e }

  pub Later-trans : (s s' s'' : TransferState Note) → Later s s' → Later s' s'' → Later s s''
  Later-trans s s' s'' a b = record {
    nonces = λ k. omega (arith, a.nonces k, b.nonces k);
    spent = λ x e. b.spent x (a.spent x e);
  }

  pub same-Later :
      (s s' : TransferState Note)
      → s'.accounts ≡ s.accounts
      → s'.nullifiers ≡ s.nullifiers
      → Later s s'
  same-Later s s' a e = record {
    nonces = λ k.
        let same : account k s' ≡ account k s = unfold account in rw a in
        omega (arith, ap (λ x. x.nonce) same);
    spent = λ x f. rw e f;
  }

  pub Credits-Later :
      (key : PublicKey) (value : ℕ) (s s' : TransferState Note)
      → Credits key value s s'
      → Later s s'
  Credits-Later key value s s' c = record {
    nonces = λ k. ground (arith, c.credited k);
    spent = λ x f. rw c.same_nullifiers f;
  }

  pub Spends-Later :
      (h : Host) (tx : MoonlightTransaction) (s s' : TransferState Note)
      → Spends h tx s s'
      → Later s s'
  Spends-Later h tx s s' e = record {
    nonces = λ k. ground (arith, e.nonces k, e.next_nonce);
    spent = λ x f. rw e.same_nullifiers f;
  }

  -- The nullifiers were new, and now they are spent.
  pub insert_nullifiers-Later :
      (xs : List ℕ) (s : TransferState Note)
      → Ensures
          (λ s'.
            Later s s'
            × ((x : ℕ)
                → contains xs x ≡ true
                → (contains_key x s.nullifiers ≡ false) × (contains_key x s'.nullifiers ≡ true)))
          (insert_nullifiers xs s)
  unfolding insert_nullifiers
  insert_nullifiers-Later [] s = Ensures-done _ (Later-refl s, λ x e. cc)
  insert_nullifiers-Later (y ∷ ys) s = Ensures-guard _ _ _ λ fresh.
      Ensures-mono
        (λ s' (later, known). (
          record {
            nonces = λ k. unfold account in later.nonces k;
            spent = λ x e. later.spent x (ground (arith, key_inserted x y s.nullifiers));
          },
          λ x e. ground (
            arith,
            key_inserted x y s.nullifiers,
            known x,
            later.spent x,
            contains_key x s.nullifiers,
          ),
        ))
        (insert_nullifiers-Later ys (record s { nullifiers = insert y tt s.nullifiers }))

  cache_note-Later : (note : Note) (s : TransferState Note) → Ensures (Later s) (cache_note note s)
  unfolding cache_note
  cache_note-Later note s = Ensures-expect _ _ _ λ o _. Ensures-done _ (same-Later s _ refl refl)

module _ {Note : Type 0} (h : Host) (n : NoteOps Note) where
  pub push_note-Later :
      (height : ℕ) (note : Note) (s : TransferState Note) → Later s (push_note n height note s).1
  push_note-Later height note s =
      let (_, accounts, _, nullifiers) = push_note-same h n height note s in
      same-Later s (push_note n height note s).1 accounts nullifiers

  pay_receiver-Later :
      (fn_name : Bytes) (w : Withdraw) (r : WithdrawReceiver) (s : TransferState Note)
      → Ensures (Later s) (pay_receiver h n fn_name w r s)
  unfolding pay_receiver
  pay_receiver-Later fn_name w (WithdrawReceiver.phoenix address) s =
      Ensures-bind _ _
        λ _ _. Ensures-guard _ _ _ λ _. Ensures-done _ (push_note-Later h.block_height _ s)
  pay_receiver-Later fn_name w (WithdrawReceiver.moonlight key) s = Ensures-bind _ _ λ _ _.
      Ensures-guard _ _ _ λ _.
        Ensures-mono (λ s' c. Credits-Later key w.value s s' c)
          (credit_account-Credits key w.value s)

  pub mint_withdrawal-Later :
      (fn_name : Bytes) (w : Withdraw) (s : TransferState Note)
      → Ensures (Later s) (mint_withdrawal h n fn_name w s)
  unfolding mint_withdrawal
  mint_withdrawal-Later fn_name w s =
      Ensures-bind _ _ λ _ _. pay_receiver-Later fn_name w w.receiver s

  extend_notes-Later :
      (xs : List Note) (s : TransferState Note) → Ensures (Later s) (extend_notes h n xs s)
  unfolding extend_notes
  extend_notes-Later [] s = Ensures-done _ (Later-refl s)
  extend_notes-Later (x ∷ xs) s =
      let (pushed, s') = push_note n h.block_height x s in
      let first = push_note-Later h.block_height x s in
      Ensures-bind _ _ λ s'' cached.
        let second : Later s s'' =
          (Ensures-option pushed (ok s') (λ note. cache_note note s') (λ _. Ensures-done _ first)
              (λ note _.
                Ensures-mono (λ t l. Later-trans s s' t first l) (cache_note-Later note s'))).holds
            s'' cached in
        Ensures-mono (λ t l. Later-trans s s'' t second l) (extend_notes-Later xs s'')

  -- A Phoenix transaction's nullifiers were not spent before, and are after.
  pub spend_phoenix-Later :
      (tx : PhoenixTransaction Note) (s : TransferState Note)
      → Ensures
          (λ s'.
            Later s s'
            × ((x : ℕ)
                → contains tx.nullifiers x ≡ true
                → (contains_key x s.nullifiers ≡ false) × (contains_key x s'.nullifiers ≡ true)))
          (spend_phoenix h n tx s)
  unfolding spend_phoenix
  spend_phoenix-Later tx s = Ensures-guard _ _ _ λ _. Ensures-guard _ _ _ λ _.
      Ensures-bind _ _ λ s₁ inserted. Ensures-bind _ _ λ proven _. Ensures-guard _ _ _ λ _.
        let (later, known) = (insert_nullifiers-Later tx.nullifiers s).holds s₁ inserted in
        Ensures-mono
          (λ s' l. (Later-trans s s₁ s' later l, λ x e. ((known x e).0, l.spent x (known x e).1)))
          (extend_notes-Later tx.outputs s₁)
