-- ===== src/NodeData/Guarantees.antt =====
-- What node-data promises of messages, headers and lists of failed iterations.
use rusk.Prelude.{
  ℕ, zero, suc, Option, none, some, ◌%◌, ◌≤◌, ◌≡◌, ◌↔◌, refl, ap, List, [], ◌∷◌, ◌++◌, length, All,
  arith, compare, Ordering, ltb, Bool-cases, inl, inr,
}
use rusk.Vm.{Bytes}
use rusk.Reader.{Reader, ok, pure, fail, ◌>>=◌, read_many, read_u8}
use rusk.Reader.Extension.{after-ok}
use rusk.TxBytes.Slices.{Crates, CratesLaws}
use rusk.NodeData.Votes.{StepName, step_index, from_ordering}
use rusk.NodeData.Attestations.{
  IterationsInfo, IsIterationInfo, write_iterations_info, read_iterations_info, read_iteration_info,
  message_max_failed_iterations,
}
use rusk.NodeData.Messages.{
  Version, IsVersion, Payload, IsPayload, as_read, from_wire, with_version, write_message,
  read_message, compare_message, consensus_header_of,
}
use rusk.NodeData.RoundTrip.Votes.{ReadsBack-iterations_info}
use rusk.NodeData.RoundTrip.Messages.{ReadsBack-message}

-- Where skeletons are read back, a message that is made of a payload that is sent, with the version
-- it was given, is read back from the front of any bytes that begin with what was written for it;
-- its transactions then know the size of their bytes.
pub read_message-write_message :
    {Skeleton : Type 0} (c : Crates Skeleton) (laws : CratesLaws c) (sha3 : Bytes → Bytes)
    (version : Version) (p : Payload Skeleton) (bs rest : Bytes)
    → IsVersion version
    → IsPayload c p
    → write_message c (with_version version (from_wire p)) ≡ ok bs
    → read_message c sha3 (bs ++ rest) ≡ ok (with_version version (from_wire (as_read c p)), rest)
read_message-write_message c laws sha3 version p bs rest hv hp e =
    (ReadsBack-message c laws sha3 version p bs hv hp e).then_rest rest

length-read_many :
    {A : Type 0} (n : ℕ) (r : Reader A) (bs : Bytes) (xs : List A) (rest : Bytes)
    → read_many n r bs ≡ ok (xs, rest)
    → length xs ≡ n
unfolding read_many ◌>>=◌ pure
length-read_many zero r bs xs rest h = let same : [] ≡ xs = cc in rw (← same) refl
length-read_many (suc n) r bs xs rest h =
    let (a, mid, p, q) = after-ok (r bs) _ h in
    let (more, mid', p', q') = after-ok (read_many n r mid) _ q in
    let same : a ∷ more ≡ xs = cc in rw (← same) (ap suc (length-read_many n r mid more mid' p'))

module _ (info : IterationsInfo) (rest : Bytes) where
  read_count :
      read_iterations_info (write_iterations_info info ++ rest) ≡ ok (info, rest)
      → length info ≤ message_max_failed_iterations
  unfolding read_iterations_info write_iterations_info ◌>>=◌ read_u8 fail
  read_count e = elim (Bool-cases (ltb 8 (length info % 256))) [
    | inl many ↦ absurd (cc (rw many at e))
    | inr few ↦
        let same : length info ≡ length info % 256 =
          length-read_many (length info % 256) read_iteration_info _ info rest (rw few at e) in
        ground arith
  ]

  -- A list of valid entries is read back from what was written for it exactly if it has at most 8.
  pub read_iterations_info-write_iff :
      All IsIterationInfo info
      → (read_iterations_info (write_iterations_info info ++ rest) ≡ ok (info, rest))
        ↔ (length info ≤ message_max_failed_iterations)
  read_iterations_info-write_iff all = (
    read_count,
    λ few.
        (ReadsBack-iterations_info info (record { all_valid = all; not_too_many = few })).then_rest
          rest,
  )

-- The order of places in the consensus: by round, iteration and step.
abbrev then_compare : Ordering → Ordering → Ordering
then_compare Ordering.eq o = o
then_compare Ordering.lt o = Ordering.lt
then_compare Ordering.gt o = Ordering.gt

unfoldable pub compare_place : ℕ × ℕ × ℕ → ℕ × ℕ × ℕ → Ordering
compare_place (round, iteration, step) (round', iteration', step') =
    then_compare (compare round round')
      (then_compare (compare iteration iteration') (compare step step'))

-- The first iteration whose steps do not fit in a byte.
abbrev pub iteration_bound : ℕ
iteration_bound = 85

-- `STEP_NAME` of the `StepMessage` implementations, for the payloads that have one.
unfoldable pub step_name : {Skeleton : Type 0} → Payload Skeleton → Option StepName
step_name (Payload.candidate _) = some StepName.proposal
step_name (Payload.validation _) = some StepName.validation
step_name (Payload.ratification _) = some StepName.ratification
step_name (Payload.validation_quorum _) = some StepName.validation
step_name _ = none

abbrev pub IsValidationQuorum : {Skeleton : Type 0} → Payload Skeleton → Type 0
IsValidationQuorum (Payload.validation_quorum _) = Unit
IsValidationQuorum _ = ⊥

module _ {Skeleton : Type 0} (round iteration : ℕ) (step : StepName) where
  -- A message stands as if it were of the step that is given.
  abbrev pub ComparesAs : Payload Skeleton → StepName → Type 0
  ComparesAs p name =
      compare_message (from_wire p) round iteration step
      ≡ from_ordering (
          compare_place
            ((consensus_header_of p).round, (consensus_header_of p).iteration, step_index name)
            (round, iteration, step_index step))
