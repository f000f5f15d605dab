-- ===== src/NodeData/RoundTrip/Inventory.antt =====
-- Requests are read back from what was written.
use rusk.Prelude.{ℕ, ◌%◌, ◌^◌, ◌≡◌, Option, none, some, List, [], ◌∷◌, ◌++◌, length, All, arith}
use rusk.Vm.{Bytes}
use rusk.Bytes.{to_le_bytes}
use rusk.Reader.{Reader, ok, IsU16, IsU64}
use rusk.Reader.RoundTrip.{
  ReadsBack, ReadsBack-pure, ReadsBack-bind, ReadsBack-last, ReadsBack-tag, ReadsBack-bytes,
  ReadsBack-u16, ReadsBack-u32, ReadsBack-u64, write_all,
}
use rusk.NodeData.Inventory.{
  add_tx_id, add_block_from_hash, add_block_from_height, add_candidate_from_hash,
  add_candidate_from_iteration, add_validation_result, InvType, InvParam, InvVect, Inv, push,
  write_item, write_inv, read_added, read_item, read_items, read_inv, IsItem, IsInv, new_inv,
  GetBlocks, IsGetBlocks, write_get_blocks, read_get_blocks, SocketAddr, IsSocketAddr,
  write_socket_addr, read_addr, read_socket_addr, GetResource, write_get_resource,
  read_get_resource, IsGetResource, IsAddr,
}
use rusk.NodeData.RoundTrip.Votes.{ReadsBack-consensus_header}
use mathlib.Core.List.{append-nil, append_assoc}

read_back_added :
    {A : Type 0} {r : Reader A} {bs : Bytes} {a : A} (add : Inv → A → Inv) (inv : Inv)
    → ReadsBack r bs a
    → ReadsBack (read_added r add inv) bs (add inv a)
unfolding read_added
read_back_added add inv h = ReadsBack-last _ h

read_back_item :
    (inv : Inv) (t : InvType) (p : InvParam)
    → IsItem (record { inv_type = t; param = p })
    → ReadsBack (read_item inv) (write_item (record { inv_type = t; param = p })) (push t p inv)
unfolding read_item write_item
read_back_item inv InvType.mempool_tx (InvParam.by_hash h) v =
    ReadsBack-tag _ 0 (read_back_added add_tx_id inv (ReadsBack-bytes 32 h v))
read_back_item inv InvType.block_from_hash (InvParam.by_hash h) v =
    ReadsBack-tag _ 1 (read_back_added add_block_from_hash inv (ReadsBack-bytes 32 h v))
read_back_item inv InvType.block_from_height (InvParam.by_height n) v =
    ReadsBack-tag _ 2 (read_back_added add_block_from_height inv (ReadsBack-u64 n v))
read_back_item inv InvType.candidate_from_hash (InvParam.by_hash h) v =
    ReadsBack-tag _ 3 (read_back_added add_candidate_from_hash inv (ReadsBack-bytes 32 h v))
read_back_item inv InvType.candidate_from_iteration (InvParam.by_iteration header) v =
    ReadsBack-tag _ 4
      (read_back_added add_candidate_from_iteration inv (ReadsBack-consensus_header header v))
read_back_item inv InvType.validation_result (InvParam.by_iteration header) v =
    ReadsBack-tag _ 5
      (read_back_added add_validation_result inv (ReadsBack-consensus_header header v))
read_back_item inv InvType.mempool_tx (InvParam.by_height n) v = absurd v
read_back_item inv InvType.mempool_tx (InvParam.by_iteration n) v = absurd v
read_back_item inv InvType.block_from_hash (InvParam.by_height n) v = absurd v
read_back_item inv InvType.block_from_hash (InvParam.by_iteration n) v = absurd v
read_back_item inv InvType.block_from_height (InvParam.by_hash n) v = absurd v
read_back_item inv InvType.block_from_height (InvParam.by_iteration n) v = absurd v
read_back_item inv InvType.candidate_from_hash (InvParam.by_height n) v = absurd v
read_back_item inv InvType.candidate_from_hash (InvParam.by_iteration n) v = absurd v
read_back_item inv InvType.candidate_from_iteration (InvParam.by_hash n) v = absurd v
read_back_item inv InvType.candidate_from_iteration (InvParam.by_height n) v = absurd v
read_back_item inv InvType.validation_result (InvParam.by_hash n) v = absurd v
read_back_item inv InvType.validation_result (InvParam.by_height n) v = absurd v

read_back_items :
    (items : List InvVect) (inv : Inv)
    → All IsItem items
    → ReadsBack
        (read_items (length items) inv)
        (write_all write_item items)
        (record inv { inv_list = inv.inv_list ++ items })
unfolding read_items write_all push
read_back_items [] inv h = rw (append-nil inv.inv_list) (ReadsBack-pure inv)
read_back_items (item ∷ items) inv (hi, hs) = rw (← append_assoc inv.inv_list (item ∷ []) items) (
    ReadsBack-bind _ (read_back_item inv item.inv_type item.param hi)
      (read_back_items items (push item.inv_type item.param inv) hs))

pub ReadsBack-inv : (inv : Inv) → IsInv inv → ReadsBack read_inv (write_inv inv) inv
unfolding read_inv write_inv
ReadsBack-inv inv v =
    let cut : length inv.inv_list % 2 ^ 32 ≡ length inv.inv_list = omega (arith, v.items_fit) in
    rw cut (
      ReadsBack-bind _ (ReadsBack-u32 (length inv.inv_list) v.items_fit) (
        ReadsBack-bind _ (read_back_items inv.inv_list (new_inv 0) v.items_valid)
          (ReadsBack-last _ (ReadsBack-u16 inv.max_entries v.max_entries_fits))))

pub ReadsBack-get_blocks :
    (g : GetBlocks) → IsGetBlocks g → ReadsBack read_get_blocks (write_get_blocks g) g
unfolding read_get_blocks write_get_blocks
ReadsBack-get_blocks g v =
    ReadsBack-bind _ (ReadsBack-bytes 32 g.locator v.locator_size)
      (ReadsBack-last _ (ReadsBack-bytes 8 g.nonce v.nonce_size))

ReadsBack-socket_addr :
    (a : SocketAddr) → IsSocketAddr a → ReadsBack read_socket_addr (write_socket_addr a) a
unfolding read_socket_addr write_socket_addr read_addr
ReadsBack-socket_addr (SocketAddr.v4 octets port) (ho, hp) =
    ReadsBack-tag _ 4
      (ReadsBack-bind _ (ReadsBack-bytes 4 octets ho) (ReadsBack-last _ (ReadsBack-u16 port hp)))
ReadsBack-socket_addr (SocketAddr.v6 octets port) (ho, hp) =
    ReadsBack-tag _ 6
      (ReadsBack-bind _ (ReadsBack-bytes 16 octets ho) (ReadsBack-last _ (ReadsBack-u16 port hp)))

with_addr :
    (inv : Inv) (ttl hops : ℕ) (o : Option SocketAddr) (bs : Bytes)
    → IsInv inv
    → IsAddr o
    → IsU64 ttl
    → IsU16 hops
    → write_get_resource
        (record { inventory = inv; requester_addr = o; ttl_as_sec = ttl; hops_limit = hops })
      ≡ ok bs
    → ReadsBack read_get_resource bs
        (record { inventory = inv; requester_addr = o; ttl_as_sec = ttl; hops_limit = hops })
unfolding write_get_resource read_get_resource
with_addr inv ttl hops none bs hi ha ht hh e = absurd (cc)
with_addr inv ttl hops (some addr) bs hi ha ht hh e =
    let written : write_inv inv
          ++ (write_socket_addr addr ++ (to_le_bytes 8 ttl ++ to_le_bytes 2 hops))
        ≡ bs =
      cc in
    rw (← written) (
      ReadsBack-bind _ (ReadsBack-inv inv hi) (
        ReadsBack-bind _ (ReadsBack-socket_addr addr ha)
          (ReadsBack-bind _ (ReadsBack-u64 ttl ht) (ReadsBack-last _ (ReadsBack-u16 hops hh)))))

pub ReadsBack-get_resource :
    (r : GetResource) (bs : Bytes)
    → IsGetResource r
    → write_get_resource r ≡ ok bs
    → ReadsBack read_get_resource bs r
ReadsBack-get_resource r bs v e =
    with_addr r.inventory r.ttl_as_sec r.hops_limit r.requester_addr bs v.inventory_valid
      v.addr_valid v.ttl_fits v.hops_fit e
