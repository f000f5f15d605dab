-- ===== src/Stake/Opening.antt =====
-- When a new stake is accepted, and what it leaves.
use rusk.Prelude.{
  ◌++◌, ◌∷◌, [], ◌≡◌, ◌≢◌, ◌+◌, ◌-◌, ◌%◌, ℕ, refl, true, Option, none, some, arith, ◌==◌, leb,
}
use rusk.Vm.{Host, PublicKey, u64_mod, ok, ◌>>=◌}
use rusk.Map.{get, get-insert}
use rusk.Stake.Types.{
  Stake, StakeFundOwner, StakeKeys, StakeData, StakeAmount, stake_message, new_amount, empty_stake,
  epoch, next_epoch, eligibility_from_height,
}
use rusk.Stake.State.{
  StakeState, World, TransferCalls, Event, get_stake, load_or_create_stake_mut,
  unwrap_account_owner, remember, put,
}
use rusk.Stake.Funding.{stake, add_to_amount}

stored :
    (keys : StakeKeys) (d : StakeData) (before : Option StakeData) (s : StakeState)
    → get_stake keys.account (remember keys.account before (put keys.account (d, keys) s)) ≡ some d
unfolding get_stake remember put
stored keys d before s = ground (arith, get-insert keys.account keys.account (d, keys) s.stakes)

others :
    (keys : StakeKeys) (d : StakeData) (before : Option StakeData) (s : StakeState) (k : PublicKey)
    → k ≢ keys.account
    → get_stake k (remember keys.account before (put keys.account (d, keys) s)) ≡ get_stake k s
unfolding get_stake remember put
others keys d before s k other = ground (arith, get-insert keys.account k (d, keys) s.stakes, other)

eligible :
    (value height : ℕ)
    → (new_amount value height).eligibility ≡ (height + (epoch - height % epoch) + epoch) % u64_mod
unfolding new_amount eligibility_from_height next_epoch
eligible value height = omega arith

module _ {S : Type 0} (h : Host) (t : TransferCalls S) (st : Stake) (w : World S) where
  -- What a caller needs to open a stake.
  pub record IsOpening : Type 0 where
    pub owner : PublicKey
    pub transfer : S
    pub on_chain : (st.chain_id == h.chain_id) ≡ true
    pub new : get st.keys.account w.state.stakes ≡ none
    pub enough : leb w.state.config.minimum_stake st.value ≡ true
    pub owned : st.keys.owner ≡ StakeFundOwner.account owner
    pub valid : h.is_valid owner ≡ true
    pub by_owner : h.verify_bls (stake_message st) owner st.signature.owner ≡ true
    pub by_account : h.verify_bls (stake_message st) st.keys.account st.signature.account ≡ true
    pub deposited : t.deposit st.value w.transfer ≡ ok transfer

  abbrev pub opened : StakeData
  opened = record empty_stake { amount = some (new_amount st.value h.block_height) }

  loaded : IsOpening → load_or_create_stake_mut st.keys w.state ≡ ok (empty_stake, st.keys)
  unfolding load_or_create_stake_mut
  loaded o = rw (o.new, load_or_create_stake_mut) refl

  owner_of : (o : IsOpening) → unwrap_account_owner h st.keys.owner ≡ ok o.owner
  unfolding unwrap_account_owner ◌>>=◌
  owner_of o = rw (o.owned, o.valid) refl

  abbrev final : IsOpening → World S
  final o = record {
    state =
        remember st.keys.account (get_stake st.keys.account w.state)
          (put st.keys.account (opened, st.keys) w.state);
    transfer = o.transfer;
    events = w.events ++ Event.stake (record { keys = st.keys; value = st.value; locked = 0 }) ∷ [];
  }

  -- A new stake of an account is accepted, where the account has no entry yet, the value is the
  -- minimum at least, both keys have signed for this chain, the key of the owner is valid and the
  -- deposit returns. The account then has exactly the value staked, none of it locked, to be eligible
  -- one epoch after the next epoch starts, with no reward and no faults. Every other account has the stake that
  -- it had, and the transfer contract is as the deposit left it.
  pub stake_opens :
      IsOpening
      → (w' : World S) × (a : StakeAmount) × (stake h t st w ≡ ok w')
        × (get_stake st.keys.account w'.state
            ≡ some (record { amount = some a; reward = 0; faults = 0; hard_faults = 0 }))
        × (a.value ≡ st.value)
        × (a.locked ≡ 0)
        × (a.eligibility ≡ (h.block_height + (epoch - h.block_height % epoch) + epoch) % u64_mod)
        × ((k : PublicKey) → k ≢ st.keys.account → get_stake k w'.state ≡ get_stake k w.state)
        × (t.deposit st.value w.transfer ≡ ok w'.transfer)
  unfolding stake add_to_amount ◌>>=◌
  stake_opens o =
      let accepted : stake h t st w ≡ ok (final o) =
        rw (o.on_chain, loaded o, o.enough, owner_of o, o.by_owner, o.by_account, o.deposited)
          refl in
      let before = get_stake st.keys.account w.state in
      (
        final o,
        new_amount st.value h.block_height,
        accepted,
        stored st.keys opened before w.state,
        unfold new_amount in refl,
        unfold new_amount in refl,
        eligible st.value h.block_height,
        λ k. others st.keys opened before w.state k,
        o.deposited,
      )
