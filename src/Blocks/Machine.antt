-- ===== src/Blocks/Machine.antt =====
-- What the node asks of the virtual machine, the piecrust crate, and the bloom filter of the events
-- (rusk/src/lib/bloom.rs).
use Prim.Native.Nat.{bit_or}
use Prim.Native.Char.{code}
use Prim.Native.String.{String}
use rusk.Prelude.{
  ℕ, zero, suc, ◌+◌, ◌-◌, ◌*◌, ◌/◌, ◌%◌, ◌^◌, Option, List, [], ◌∷◌, ◌++◌, replicate,
}
use rusk.Vm.{Bytes}
use rusk.Stake.Types.{Reward}
use rusk.TxBytes.Transactions.{Transaction}

-- The bytes of an ASCII text.
abbrev pub text : String → Bytes
text String.[] = []
text (String.◌∷◌ c s) = code c ∷ text s

pub record Event : Type 0 where
  pub source : Bytes
  pub topic : Bytes
  pub event_data : Bytes

-- The answer of a contract; `F` is the crate's type of the errors that a contract ends with.
pub data Answer (F : Type 0) : Type 0 where
  answered : Bytes → Answer F
  failed : F → Answer F

pub record Receipt (F : Type 0) : Type 0 where
  pub gas_limit : ℕ
  pub gas_spent : ℕ
  pub events : List Event
  pub answer : Answer F

-- A call of a contract; `X` is the crate's type of errors.
pub data Called (X A : Type 0) : Type 0 where
  returned : A → Called X A
  refused : X → Called X A

-- A session, with its calls of the transfer and the stake contract by their names. `deploy_raw` is given
-- the contract's id, bytecode, arguments, owner and gas.
pub record Machine (Skeleton Session F X : Type 0) : Type 0 where
  pub session : ℕ → Called X Session
  pub root : Session → Bytes
  pub before_state_transition : Session → Session × Called X (Unit {0})
  pub spend_and_execute : Session → Transaction Skeleton → ℕ → Session × Called X (Receipt F)
  pub refund : Session → ℕ → Session × Called X (List Event)
  pub reward : Session → List Reward → Session × Called X (List Event)
  pub slash : Session → Bytes × Option ℕ → Session × Called X (List Event)
  pub update_root : Session → Session × Called X (List Event)
  pub deploy_raw :
      Session → Bytes → Bytes → Option Bytes → Bytes → ℕ → Session × Called X (Unit {0})
  pub blake3 : Bytes → Bytes
  pub blake2b : Bytes → Bytes
  pub out_of_gas : F
  pub contract_panic : Bytes → F
  pub failure_text : F → Bytes
  pub panicked : Bytes → X
  pub panic_text : X → Option Bytes
  pub debug_text : X → Bytes

abbrev pub bloom_byte_len : ℕ
bloom_byte_len = 256

abbrev pub Bloom : Type 0
Bloom = Bytes

unfoldable pub new_bloom : Bloom
new_bloom = replicate bloom_byte_len 0

byte_at : ℕ → Bytes → ℕ
byte_at i [] = 0
byte_at zero (b ∷ bs) = b
byte_at (suc i) (b ∷ bs) = byte_at i bs

-- `self.0[i] |= v`
or_at : ℕ → ℕ → Bloom → Bloom
or_at i v [] = []
or_at zero v (b ∷ bs) = bit_or b v ∷ bs
or_at (suc i) v (b ∷ bs) = b ∷ or_at i v bs

be16 : ℕ → ℕ → ℕ
be16 b0 b1 = b1 + b0 * 256

-- `bloom_values`: the bit for the two bytes of the hash from `i` on.
bloom_index : Bytes → ℕ → ℕ
unfolding byte_at be16
bloom_index hash i = bloom_byte_len - be16 (byte_at i hash) (byte_at (suc i) hash) % 2048 / 8 - 1

bloom_bit : Bytes → ℕ → ℕ
unfolding byte_at
bloom_bit hash i = 2 ^ (byte_at (suc i) hash % 8)

unfoldable pub add_hash : Bytes → Bloom → Bloom
unfolding or_at bloom_index bloom_bit
add_hash hash bloom = or_at (bloom_index hash 4) (bloom_bit hash 4) (
    or_at (bloom_index hash 2) (bloom_bit hash 2)
      (or_at (bloom_index hash 0) (bloom_bit hash 0) bloom))

module _ (blake3 : Bytes → Bytes) where
  -- The pair of the contract and the topic, and then with the data.
  unfoldable pub add_event : Event → Bloom → Bloom
  unfolding add_hash
  add_event e bloom =
      add_hash (blake3 (e.source ++ (e.topic ++ e.event_data)))
        (add_hash (blake3 (e.source ++ e.topic)) bloom)

  unfoldable pub add_events : List Event → Bloom → Bloom
  unfolding add_event
  add_events [] bloom = bloom
  add_events (e ∷ events) bloom = add_events events (add_event e bloom)
