-- ===== src/NodeData/Inventory.antt =====
-- node-data/src/message.rs: what nodes ask each other for. Nonces and addresses are their bytes.
use rusk.Prelude.{
  ℕ, zero, suc, ◌-◌, ◌%◌, ◌^◌, ◌≡◌, Option, none, some, List, [], ◌∷◌, ◌++◌, ◌==◌, leb,
  if◌then◌else◌, length, All,
}
use rusk.Vm.{Bytes}
use rusk.Bytes.{to_le_bytes}
use rusk.Reader.{
  Reader, Error, Result, ok, err, pure, fail, ◌>>=◌, read_bytes, read_u8, read_u16_le, read_u32_le,
  read_u64_le, IsU16, IsU32, IsU64,
}
use rusk.Reader.RoundTrip.{write_all}
use rusk.NodeData.Votes.{
  Hash, IsHash, ConsensusHeader, IsConsensusHeader, write_consensus_header, read_consensus_header,
}

pub data InvType : Type 0 where
  mempool_tx block_from_hash block_from_height : InvType
  candidate_from_hash candidate_from_iteration validation_result : InvType

abbrev pub inv_type_index : InvType → ℕ
inv_type_index mempool_tx = 0
inv_type_index block_from_hash = 1
inv_type_index block_from_height = 2
inv_type_index candidate_from_hash = 3
inv_type_index candidate_from_iteration = 4
inv_type_index validation_result = 5

pub data InvParam : Type 0 where
  by_hash : Hash → InvParam
  by_height : ℕ → InvParam
  by_iteration : ConsensusHeader → InvParam

pub record InvVect : Type 0 where
  pub inv_type : InvType
  pub param : InvParam

pub record Inv : Type 0 where
  pub inv_list : List InvVect
  pub max_entries : ℕ

unfoldable pub new_inv : ℕ → Inv
new_inv max_entries = record { inv_list = []; max_entries = max_entries }

unfoldable pub push : InvType → InvParam → Inv → Inv
push t p inv = record inv { inv_list = inv.inv_list ++ (record { inv_type = t; param = p } ∷ []) }

unfoldable pub add_tx_id : Inv → Hash → Inv
unfolding push
add_tx_id inv id = push mempool_tx (by_hash id) inv

unfoldable pub add_block_from_hash : Inv → Hash → Inv
unfolding push
add_block_from_hash inv hash = push block_from_hash (by_hash hash) inv

unfoldable pub add_block_from_height : Inv → ℕ → Inv
unfolding push
add_block_from_height inv height = push block_from_height (by_height height) inv

unfoldable pub add_candidate_from_hash : Inv → Hash → Inv
unfolding push
add_candidate_from_hash inv hash = push candidate_from_hash (by_hash hash) inv

unfoldable pub add_candidate_from_iteration : Inv → ConsensusHeader → Inv
unfolding push
add_candidate_from_iteration inv header = push candidate_from_iteration (by_iteration header) inv

unfoldable pub add_validation_result : Inv → ConsensusHeader → Inv
unfolding push
add_validation_result inv header = push validation_result (by_iteration header) inv

unfoldable pub write_param : InvParam → Bytes
write_param (by_hash hash) = hash
write_param (by_height height) = to_le_bytes 8 height
write_param (by_iteration header) = write_consensus_header header

unfoldable pub write_item : InvVect → Bytes
unfolding write_param
write_item item = inv_type_index item.inv_type ∷ write_param item.param

unfoldable pub write_inv : Inv → Bytes
unfolding write_item
write_inv inv =
    to_le_bytes 4 (length inv.inv_list % 2 ^ 32)
    ++ (write_all write_item inv.inv_list ++ to_le_bytes 2 inv.max_entries)

unfoldable pub read_added : {A : Type 0} → Reader A → (Inv → A → Inv) → Inv → Reader Inv
read_added read add inv = do a ← read; pure (add inv a)

-- One round of the loop.
unfoldable pub read_item : Inv → Reader Inv
unfolding read_added add_tx_id add_block_from_hash add_block_from_height add_candidate_from_hash
    add_candidate_from_iteration add_validation_result
read_item inv = do
  t ← read_u8
  if t == 0
      then read_added (read_bytes 32) add_tx_id inv
      else if t == 1
      then read_added (read_bytes 32) add_block_from_hash inv
      else if t == 2
      then read_added read_u64_le add_block_from_height inv
      else if t == 3
      then read_added (read_bytes 32) add_candidate_from_hash inv
      else if t == 4
      then read_added read_consensus_header add_candidate_from_iteration inv
      else if t == 5
      then read_added read_consensus_header add_validation_result inv
      else fail Error.invalid_data

unfoldable pub read_items : ℕ → Inv → Reader Inv
unfolding read_item
read_items zero inv = pure inv
read_items (suc n) inv = do more ← read_item inv; read_items n more

unfoldable pub read_inv : Reader Inv
unfolding read_items new_inv
read_inv = do
  items_len ← read_u32_le
  inv ← read_items items_len (new_inv 0)
  max_entries ← read_u16_le
  pure (record inv { max_entries = max_entries })

abbrev pub IsItemOf : InvType → InvParam → Type 0
IsItemOf mempool_tx (by_hash h) = IsHash h
IsItemOf block_from_hash (by_hash h) = IsHash h
IsItemOf block_from_height (by_height n) = IsU64 n
IsItemOf candidate_from_hash (by_hash h) = IsHash h
IsItemOf candidate_from_iteration (by_iteration header) = IsConsensusHeader header
IsItemOf validation_result (by_iteration header) = IsConsensusHeader header
IsItemOf _ _ = ⊥

-- An item whose parameter is of the kind of its type.
abbrev pub IsItem : InvVect → Type 0
IsItem item = IsItemOf item.inv_type item.param

pub record IsInv (inv : Inv) : Type 0 where
  pub items_valid : All IsItem inv.inv_list
  pub items_fit : IsU32 (length inv.inv_list)
  pub max_entries_fits : IsU16 inv.max_entries

pub record GetBlocks : Type 0 where
  pub locator : Bytes
  pub nonce : Bytes

pub record IsGetBlocks (g : GetBlocks) : Type 0 where
  pub locator_size : length g.locator ≡ 32
  pub nonce_size : length g.nonce ≡ 8

unfoldable pub write_get_blocks : GetBlocks → Bytes
write_get_blocks g = g.locator ++ g.nonce

unfoldable pub read_get_blocks : Reader GetBlocks
read_get_blocks = do
  locator ← read_bytes 32
  nonce ← read_bytes 8
  pure (record { locator = locator; nonce = nonce })

pub data SocketAddr : Type 0 where
  v4 v6 : Bytes → ℕ → SocketAddr

abbrev pub IsSocketAddr : SocketAddr → Type 0
IsSocketAddr (v4 octets port) = (length octets ≡ 4) × IsU16 port
IsSocketAddr (v6 octets port) = (length octets ≡ 16) × IsU16 port

unfoldable pub write_socket_addr : SocketAddr → Bytes
write_socket_addr (v4 octets port) = 4 ∷ (octets ++ to_le_bytes 2 port)
write_socket_addr (v6 octets port) = 6 ∷ (octets ++ to_le_bytes 2 port)

unfoldable pub read_addr : ℕ → (Bytes → ℕ → SocketAddr) → Reader SocketAddr
read_addr size addr = do octets ← read_bytes size; port ← read_u16_le; pure (addr octets port)

unfoldable pub read_socket_addr : Reader SocketAddr
unfolding read_addr
read_socket_addr = do
  ip_type ← read_u8
  if ip_type == 4
      then read_addr 4 v4
      else if ip_type == 6
      then read_addr 16 v6
      else fail Error.invalid_data

pub record GetResource : Type 0 where
  pub inventory : Inv
  pub requester_addr : Option SocketAddr
  pub ttl_as_sec : ℕ
  pub hops_limit : ℕ

-- `clone_with_hop_decrement`
unfoldable pub clone_with_hop_decrement : GetResource → Option GetResource
clone_with_hop_decrement r =
    if leb r.hops_limit 1 then none else some (record r { hops_limit = r.hops_limit - 1 })

unfoldable pub write_get_resource : GetResource → Result Bytes
write_get_resource r = elim r.requester_addr [
  | none ↦ err Error.invalid_data
  | some addr ↦ ok (
      write_inv r.inventory
      ++ (write_socket_addr addr ++ (to_le_bytes 8 r.ttl_as_sec ++ to_le_bytes 2 r.hops_limit)))
]

unfoldable pub read_get_resource : Reader GetResource
read_get_resource = do
  inventory ← read_inv
  addr ← read_socket_addr
  ttl ← read_u64_le
  hops ← read_u16_le
  pure (record {
    inventory = inventory;
    requester_addr = some addr;
    ttl_as_sec = ttl;
    hops_limit = hops;
  })

abbrev pub IsAddr : Option SocketAddr → Type 0
IsAddr none = Unit
IsAddr (some addr) = IsSocketAddr addr

pub record IsGetResource (r : GetResource) : Type 0 where
  pub inventory_valid : IsInv r.inventory
  pub addr_valid : IsAddr r.requester_addr
  pub ttl_fits : IsU64 r.ttl_as_sec
  pub hops_fit : IsU16 r.hops_limit
