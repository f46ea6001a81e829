-- ===== src/Pool/Resolve/Faults.antt =====
-- source/peer/socket_pool.c, resolve_address_and_id: where it leaves an array.
use peer.Prelude.{
  ℕ, ◌+◌, ◌<◌, ◌≡◌, ap, ap₂, ◌∙◌, true, false, List, [], ◌∷◌, Option, none, some, ◌>>=◌, bind-none,
  bind-bind-none, arith, length, length-take, get_elem?, take, of_cells, Cells,
}
use peer.Prelude.Int.{pos}
use peer.Options.{Status, kit_ok}
use peer.Serial.Layout.{memcpy-none}
use peer.Serial.{Bytes, at, memcpy}
use peer.Kit.{Kit}
use peer.Sockets.{Sockets}
use peer.Peer.{Endpoint, Slot, Peer}
use peer.Pool.{Node, Pool, node_of}
use peer.Pool.Resolve.{
  port_bytes, is_unresolved, set_local_address, set_remote_node, resolve_address, resolve_slot,
  resolve_slots, resolve,
}

-- Three bytes and an address do not fit an array that is shorter.
address_too_long :
    (a b c : ℕ) (address : Bytes)
    → Cells 3 λ bs.
      length bs < 3 + length address → (memcpy (a ∷ b ∷ c ∷ []) bs >>= at 3 (memcpy address)) ≡ none
unfolding memcpy at
address_too_long a b c address x y z bs h = rw (memcpy-none address bs (omega arith))

-- The address of the node does not fit behind its port in so short an array.
abbrev TooLong : Node → Bytes → Bytes → Type 0
TooLong node address bs =
    length bs < 3 + length address
    → (memcpy (port_bytes node.protocol node.remote_port) bs >>= at 3 (memcpy address)) ≡ none

set_remote_node-none :
    (node : Node) (e : Endpoint)
    → node.remote_address_size ≡ 62
    → length node.remote_address ≡ 62
    → length e.address_data ≡ 64
    → set_remote_node node e ≡ none
unfolding set_remote_node
set_remote_node-none node e size whole room =
    let address = take node.remote_address_size node.remote_address in
    let long : length address ≡ 62 =
      omega (arith, length-take node.remote_address_size node.remote_address, size, whole) in
    bind-bind-none (memcpy (port_bytes node.protocol node.remote_port) e.address_data)
      (at 3 (memcpy address)) _
      (of_cells 3 (TooLong node address) (address_too_long _ _ _ address) e.address_data
        (omega (arith, room)) (omega (arith, room, long)))

resolve_address-none :
    (set : Node → Endpoint → Option Endpoint) (pool : Pool) (e : Endpoint) (i : ℕ) (node : Node)
    → e.id ≡ pos i
    → e.is_address_resolved ≡ false
    → get_elem? pool i ≡ some node
    → set node e ≡ none
    → resolve_address set pool e ≡ none
unfolding resolve_address
resolve_address-none set pool e i node id unresolved here fails =
    let found : node_of pool e.id ≡ some node = ap (node_of pool) id ∙ here in
    let due : is_unresolved e.is_address_resolved e.id ≡ true =
      ap₂ is_unresolved unresolved id ∙ ground arith in
    rw (due, found, resolve_address, fails)

module _ {W : Type 0} (kit : Kit) (sys : Sockets W) where
  resolve_slot-none :
      (pool : Pool) (slot : Slot)
      → resolve_address set_remote_node pool slot.remote ≡ none
      → resolve_slot kit sys pool slot ≡ none
  unfolding resolve_slot
  resolve_slot-none pool slot fails =
      bind-none (resolve_address set_local_address pool slot.local) _ (λ a. rw fails)

  resolve_slots-none :
      (pool : Pool) (slot : Slot) (rest : List Slot) (status : Status)
      → resolve_address set_remote_node pool slot.remote ≡ none
      → resolve_slots kit sys pool (slot ∷ rest) status ≡ none
  unfolding resolve_slots
  resolve_slots-none pool slot rest status fails = rw (resolve_slot-none pool slot fails)

  -- resolve_address_and_id writes past the 64 bytes of `address_data` where the first slot's remote
  -- id is that of a node with an address of 62 bytes, which peer_pool_connect takes, and its
  -- address is not resolved yet.
  pub resolve-overflow :
      {R : Type 0} (pool : Pool) (peer : Peer R) (slot : Slot) (rest : List Slot) (i : ℕ)
      (node : Node)
      → peer.slots ≡ slot ∷ rest
      → slot.remote.id ≡ pos i
      → slot.remote.is_address_resolved ≡ false
      → get_elem? pool i ≡ some node
      → node.remote_address_size ≡ 62
      → length node.remote_address ≡ 62
      → length slot.remote.address_data ≡ 64
      → resolve kit sys pool peer ≡ none
  unfolding resolve
  resolve-overflow pool peer slot rest i node slots id unresolved here size whole room =
      let over = set_remote_node-none node slot.remote size whole room in
      let none_there : resolve_slots kit sys pool peer.slots kit_ok ≡ none =
        ap (λ s. resolve_slots kit sys pool s kit_ok) slots
        ∙ resolve_slots-none pool slot rest kit_ok (
            resolve_address-none set_remote_node pool slot.remote i node id unresolved here over) in
      rw none_there
