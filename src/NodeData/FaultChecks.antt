-- ===== src/NodeData/FaultChecks.antt =====
-- node-data/src/ledger/faults.rs: when a fault is accepted, and when two faults are the same.
use rusk.Prelude.{
  ℕ, ◌+◌, ◌≡◌, ◌≢◌, ◌≤◌, ◌<◌, true, false, arith, refl, ◌&&◌, ◌||◌, sym, ◌∙◌, Bool-cases, inl, inr,
  [], ◌∷◌,
}
use rusk.Vm.{Bytes}
use rusk.Bytes.{bytes_eq, bytes_eq→eq, eq→bytes_eq}
use rusk.Stake.Types.{epoch}
use rusk.NodeData.Votes.{ConsensusHeader}
use rusk.NodeData.Faults.{
  Fault, Crypto, fault_headers, faults_id, verify_sigs, validate, accepted, same,
}

-- Two messages of one step with different content, both signed, of a round that is neither the
-- genesis, nor more than an epoch old, nor still to come.
pub record IsFaultAt (c : Crypto) (current_height : ℕ) (f : Fault) : Type 0 where
  pub same_iteration : (fault_headers f).0.iteration ≡ (fault_headers f).1.iteration
  pub same_round : (fault_headers f).0.round ≡ (fault_headers f).1.round
  pub same_prev_block : (fault_headers f).0.prev_block_hash ≡ (fault_headers f).1.prev_block_hash
  pub distinct : (faults_id c f).0 ≢ (faults_id c f).1
  pub not_genesis : 0 < (fault_headers f).0.round
  pub not_expired : current_height ≤ (fault_headers f).0.round + epoch
  pub not_future : (fault_headers f).0.round ≤ current_height
  pub signed : verify_sigs c f ≡ true

ne_of_bytes : (bs cs : Bytes) → bytes_eq bs cs ≡ false → bs ≢ cs
ne_of_bytes bs cs h e = cc (eq→bytes_eq bs cs e)

module _ (c : Crypto) (current_height : ℕ) (f : Fault) where
  -- What each test of `validate` is, on a fault that it accepts.
  record Passed (h : ConsensusHeader) : Type 0 where
    header : (fault_headers f).0 ≡ h
    same_iteration : (fault_headers f).0.iteration ≡ (fault_headers f).1.iteration
    same_round : (fault_headers f).0.round ≡ (fault_headers f).1.round
    same_prev_block :
        bytes_eq (fault_headers f).0.prev_block_hash (fault_headers f).1.prev_block_hash ≡ true
    distinct : bytes_eq (faults_id c f).0 (faults_id c f).1 ≡ false
    not_genesis : 0 < (fault_headers f).0.round
    not_expired : current_height ≤ (fault_headers f).0.round + epoch
    not_future : (fault_headers f).0.round ≤ current_height
    signed : verify_sigs c f ≡ true

  validate-Passed : (h : ConsensusHeader) → validate c f current_height ≡ accepted h → Passed h
  unfolding validate
  validate-Passed h e = ground arith

bytes_eq-sym : (bs cs : Bytes) → bytes_eq bs cs ≡ bytes_eq cs bs
unfolding bytes_eq
bytes_eq-sym [] [] = refl
bytes_eq-sym [] (y ∷ cs) = refl
bytes_eq-sym (x ∷ bs) [] = refl
bytes_eq-sym (x ∷ bs) (y ∷ cs) = ground (arith, bytes_eq-sym bs cs)

-- Different bytes are not both equal to `w`.
not_both : (u v w : Bytes) → bytes_eq u v ≡ false → bytes_eq u w && bytes_eq v w ≡ false
not_both u v w h = elim (Bool-cases (bytes_eq u w && bytes_eq v w)) [
  | inl e ↦
      let same : u ≡ w = bytes_eq→eq u w (ground arith) in
      let also : v ≡ w = bytes_eq→eq v w (ground arith) in
      absurd (ne_of_bytes u v h (same ∙ sym also))
  | inr e ↦ e
]

same_ids :
    (a b x y : Bytes)
    → bytes_eq a b ≡ false
    → bytes_eq x y ≡ false
    → (bytes_eq x a || bytes_eq y a) && (bytes_eq x b || bytes_eq y b)
      ≡ (bytes_eq a x || bytes_eq b x) && (bytes_eq a y || bytes_eq b y)
same_ids a b x y h k = ground (
  arith,
  bytes_eq-sym x a,
  bytes_eq-sym y a,
  bytes_eq-sym x b,
  bytes_eq-sym y b,
  not_both a b x h,
  not_both a b y h,
  not_both x y a k,
  not_both x y b k,
)

-- Two faults that are accepted, each at its height, are the same in one order exactly if they are in
-- the other.
pub same-sym :
    (c : Crypto) (f g : Fault) (m n : ℕ) (h k : ConsensusHeader)
    → validate c f m ≡ accepted h
    → validate c g n ≡ accepted k
    → same c f g ≡ same c g f
unfolding same
same-sym c f g m n h k vf vg =
    same_ids _ _ _ _ (validate-Passed c m f h vf).distinct (validate-Passed c n g k vg).distinct
