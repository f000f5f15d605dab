-- ===== src/Transfer/Gas.antt =====
-- What a transaction takes from the accounts, and what its refund gives back.
use rusk.Prelude.{
  ℕ, ◌+◌, ◌-◌, ◌*◌, ◌≤◌, ◌≡◌, refl, ap, ◌∙◌, some, arith, ◌==◌, ltb, if◌then◌else◌, unwrap_or, true,
}
use rusk.Vm.{Host, PublicKey}
use rusk.Vm.Ensures.{
  Ensures, Ensures-bind, Ensures-expect, Ensures-guard, Ensures-if, Ensures-done, Ensures-mono,
  add_u64-eq-ok, mul_u64-eq-ok,
}
use rusk.Map.{get, get-insert}
use rusk.Map.Weight.{total-insert}
use rusk.Transfer.Types.{MoonlightTransaction, AccountData, moonlight_receiver, moonlight_message}
use rusk.Transfer.State.{TransferState, account, put_account}
use rusk.Transfer.Spending.{total_value, charge_sender, spend_moonlight}
use rusk.Transfer.Supply.{accounts_total, account_balance, Credits, credit_account-Credits}

-- What the sender is charged: the value, the deposit and all the gas the transaction may use.
abbrev pub max_gas : MoonlightTransaction → ℕ
max_gas tx = tx.fee.gas_limit * tx.fee.gas_price

pub total_value-eq :
    (tx : MoonlightTransaction)
    → Ensures (λ t. t ≡ tx.value + tx.deposit + max_gas tx) (total_value tx)
unfolding total_value
total_value-eq tx = Ensures-bind _ _ λ base b. Ensures-bind _ _ λ gas g. record {
  holds = λ t e. omega (
    arith,
    add_u64-eq-ok tx.value tx.deposit b,
    mul_u64-eq-ok tx.fee.gas_limit tx.fee.gas_price g,
    add_u64-eq-ok base gas e,
  );
}

pub receiver_or_sender :
    (tx : MoonlightTransaction) → unwrap_or (moonlight_receiver tx) tx.sender ≡ tx.receiver
unfolding moonlight_receiver
receiver_or_sender tx = ground arith

module _ {Note : Type 0} where
  -- The sender had the next nonce free and enough on its account, and both are used up.
  pub record Charges (tx : MoonlightTransaction) (total : ℕ) (s s' : TransferState Note)
      : Type 0 where
    pub before : AccountData
    pub found : get tx.sender s.accounts ≡ some before
    pub next_nonce : tx.nonce ≡ before.nonce + 1
    pub afforded : total ≤ before.balance
    pub charged :
        (k : PublicKey)
        → account k s' ≡ (
            if k == tx.sender
            then record { nonce = tx.nonce; balance = before.balance - total }
            else account k s)
    pub total_falls : accounts_total s' + total ≡ accounts_total s
    pub same_contracts : s'.contract_balances ≡ s.contract_balances
    pub same_ongoing : s'.ongoing ≡ s.ongoing
    pub same_nullifiers : s'.nullifiers ≡ s.nullifiers

  pub charge_sender-Charges :
      (h : Host) (tx : MoonlightTransaction) (total : ℕ) (s : TransferState Note)
      → Ensures (Charges tx total s) (charge_sender h tx total s)
  unfolding charge_sender put_account accounts_total
  charge_sender-Charges h tx total s = Ensures-expect _ _ _ λ a found. Ensures-guard _ _ _ λ enough.
      Ensures-bind _ _ λ nonce incremented. Ensures-guard _ _ _ λ not_used.
        Ensures-guard _ _ _ λ ready.
          let next = add_u64-eq-ok a.nonce 1 incremented in
          let new : AccountData = record { nonce = tx.nonce; balance = a.balance - total } in
          let covered : total ≤ a.balance = ground arith in
          Ensures-done _ (record {
            before = a;
            found = found;
            next_nonce = ground (arith, next);
            afforded = covered;
            charged =
                λ k. unfold account in rw (get-insert tx.sender k new s.accounts) (ground arith);
            total_falls =
                ground
                  (arith, found, covered, total-insert account_balance tx.sender new s.accounts);
            same_contracts = refl;
            same_ongoing = refl;
            same_nullifiers = refl;
          })

  -- The accounts after a Moonlight transaction was accepted.
  pub record Spends (h : Host) (tx : MoonlightTransaction) (s s' : TransferState Note)
      : Type 0 where
    pub on_chain : tx.chain_id ≡ h.chain_id
    pub signed : h.verify_bls (moonlight_message tx) tx.sender tx.signature ≡ true
    pub next_nonce : tx.nonce ≡ (account tx.sender s).nonce + 1
    pub balances :
        (k : PublicKey)
        → (account k s').balance
            + (if k == tx.sender then tx.value + tx.deposit + max_gas tx else 0)
          ≡ (account k s).balance + (if k == tx.receiver then tx.value else 0)
    pub nonces :
        (k : PublicKey)
        → (account k s').nonce ≡ (if k == tx.sender then tx.nonce else (account k s).nonce)
    pub total_falls : accounts_total s' + (tx.deposit + max_gas tx) ≡ accounts_total s
    pub same_contracts : s'.contract_balances ≡ s.contract_balances
    pub same_ongoing : s'.ongoing ≡ s.ongoing
    pub same_nullifiers : s'.nullifiers ≡ s.nullifiers

  found_account :
      (k : PublicKey) (s : TransferState Note) {a : AccountData}
      → get k s.accounts ≡ some a
      → account k s ≡ a
  unfolding account
  found_account k s e = rw e

  -- The sender's account of before, and every account after, when no value is sent on.
  charged-Spends :
      (h : Host) (tx : MoonlightTransaction) (total : ℕ) (s s' : TransferState Note)
      → tx.chain_id ≡ h.chain_id
      → h.verify_bls (moonlight_message tx) tx.sender tx.signature ≡ true
      → total ≡ tx.value + tx.deposit + max_gas tx
      → Charges tx total s s'
      → tx.value ≡ 0
      → Spends h tx s s'
  charged-Spends h tx total s s' chain signed sum c zero =
      let a = found_account tx.sender s c.found in
      record {
        on_chain = chain;
        signed = signed;
        next_nonce = omega (arith, c.next_nonce, ap (λ x. x.nonce) a);
        balances = λ k. ground (arith, c.charged k, c.afforded, ap (λ x. x.balance) a);
        nonces = λ k. ground (arith, c.charged k);
        total_falls = omega (arith, c.total_falls);
        same_contracts = c.same_contracts;
        same_ongoing = c.same_ongoing;
        same_nullifiers = c.same_nullifiers;
      }

  credited-Spends :
      (h : Host) (tx : MoonlightTransaction) (total : ℕ) (s s₁ s' : TransferState Note)
      → tx.chain_id ≡ h.chain_id
      → h.verify_bls (moonlight_message tx) tx.sender tx.signature ≡ true
      → total ≡ tx.value + tx.deposit + max_gas tx
      → Charges tx total s s₁
      → Credits tx.receiver tx.value s₁ s'
      → Spends h tx s s'
  credited-Spends h tx total s s₁ s' chain signed sum c up =
      let a = found_account tx.sender s c.found in
      record {
        on_chain = chain;
        signed = signed;
        next_nonce = omega (arith, c.next_nonce, ap (λ x. x.nonce) a);
        balances = λ k. ground (
          arith,
          c.charged k,
          c.charged tx.receiver,
          up.credited k,
          c.afforded,
          ap (λ x. x.balance) a,
        );
        nonces = λ k. ground (arith, c.charged k, c.charged tx.receiver, up.credited k);
        total_falls = omega (arith, c.total_falls, up.total_rises);
        same_contracts = up.same_contracts ∙ c.same_contracts;
        same_ongoing = up.same_ongoing ∙ c.same_ongoing;
        same_nullifiers = up.same_nullifiers ∙ c.same_nullifiers;
      }

  pub spend_moonlight-Spends :
      (h : Host) (tx : MoonlightTransaction) (s : TransferState Note)
      → Ensures (Spends h tx s) (spend_moonlight h tx s)
  unfolding spend_moonlight
  spend_moonlight-Spends h tx s = Ensures-guard _ _ _ λ chain. Ensures-guard _ _ _ λ signed.
      Ensures-bind _ _ λ total t. Ensures-bind _ _ λ s₁ charged.
        let sum = (total_value-eq tx).holds total t in
        let c = (charge_sender-Charges h tx total s).holds s₁ charged in
        let e : tx.chain_id ≡ h.chain_id = ground arith in
        Ensures-if (ltb 0 tx.value) _ _
          (λ _. rw (receiver_or_sender tx) (
            Ensures-mono (λ s' up. credited-Spends h tx total s s₁ s' e signed sum c up)
              (credit_account-Credits tx.receiver tx.value s₁)))
          (λ none_sent.
            let zero : tx.value ≡ 0 = ground arith in
            Ensures-done _ (charged-Spends h tx total s s₁ e signed sum c zero))
