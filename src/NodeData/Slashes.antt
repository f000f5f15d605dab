-- ===== src/NodeData/Slashes.antt =====
-- node-data/src/ledger/faults.rs: the slashes that a block leads to.
use rusk.Prelude.{ℕ, Bool, Option, none, some, List, [], ◌∷◌, ◌++◌, map, if◌then◌else◌}
use rusk.Vm.{Bytes}
use rusk.NodeData.Votes.{
  no_candidate, valid, invalid, no_quorum, RatificationResult, failure, success,
}
use rusk.NodeData.Attestations.{IterationInfo, IterationsInfo}
use rusk.NodeData.Faults.{Fault, to_culprit}
use rusk.NodeData.Ledger.{Block}

pub data SlashType : Type 0 where
  soft hard : SlashType
  hard_with_severity : ℕ → SlashType

pub record Slash : Type 0 where
  pub provisioner : Bytes
  pub slash_type : SlashType

slash_type_of : RatificationResult → Option SlashType
slash_type_of (failure no_candidate) = some SlashType.soft
slash_type_of (failure (invalid h)) = some SlashType.hard
slash_type_of (failure (valid h)) = none
slash_type_of (failure no_quorum) = none
slash_type_of (success v) = none

-- Nothing too where the bytes are no key, an error that the caller drops; `is_key` is the BLS crate's.
unfoldable pub from_iteration_info : (Bytes → Bool) → Option IterationInfo → List Slash
unfolding slash_type_of
from_iteration_info is_key none = []
from_iteration_info is_key (some (att, pk)) = elim (slash_type_of att.result) [
  | none ↦ []
  | some t ↦ if is_key pk then record { provisioner = pk; slash_type = t } ∷ [] else []
]

-- `From<&Fault>`
unfoldable pub slash_of : Fault → Slash
slash_of f = record { provisioner = to_culprit f; slash_type = SlashType.hard_with_severity 2 }

unfoldable pub from_iterations_and_faults :
    (Bytes → Bool) → IterationsInfo → List Fault → List Slash
unfolding from_iteration_info slash_of
from_iterations_and_faults is_key [] faults = map slash_of faults
from_iterations_and_faults is_key (info ∷ att_list) faults =
    from_iteration_info is_key info ++ from_iterations_and_faults is_key att_list faults

-- `Slash::from_block`
unfoldable pub slashes_of_block : {Skeleton : Type 0} → (Bytes → Bool) → Block Skeleton → List Slash
unfolding from_iterations_and_faults
slashes_of_block is_key b = from_iterations_and_faults is_key b.header.failed_iterations b.faults
