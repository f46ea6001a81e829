-- ===== src/Pool/Resolve.antt =====
-- source/peer/socket_pool.c: resolve_address_and_id.
pub mod Kept
pub mod Faults
use peer.Prelude.{
  ℕ, ◌+◌, ◌-◌, ◌/◌, ◌%◌, ◌^◌, Bool, true, false, not, ◌&&◌, List, [], ◌∷◌, ◌++◌, Option, none, some,
  ◌>>=◌, bit_or, ltb, ◌==◌, if◌then◌else◌, length, take, drop,
}
use peer.Prelude.Int.{ℤ, pos, negsuc, ◌==ℤ◌}
use peer.Options.{Status, kit_ok, undefined}
use peer.Options.Error
use peer.Serial.{Bytes, u8, at, memcpy, read_u8, read_u16}
use peer.Kit.{Kit}
use peer.Sockets.{Sockets}
use peer.Packet.{read_bytes}
use peer.Peer.{Endpoint, Slot, Peer}
use peer.Pool.{Node, Pool, Remote, node_of, find_pool_node}

-- `(uint8_t) protocol`
abbrev pub protocol_byte : ℤ → ℕ
protocol_byte (pos n) = u8 n
protocol_byte (negsuc n) = 2 ^ 8 - 1 - n % 2 ^ 8

-- The bytes that stand for a protocol and a port in an address.
abbrev pub port_bytes : ℤ → ℕ → Bytes
port_bytes protocol port = protocol_byte protocol ∷ u8 port ∷ u8 (port / 2 ^ 8) ∷ []

abbrev pub is_unresolved : Bool → ℤ → Bool
is_unresolved resolved id = not resolved && not (id ==ℤ undefined)

-- A local endpoint gets its address from its node, and a remote one too.
unfoldable pub set_local_address : Node → Endpoint → Option Endpoint
set_local_address node e = do
  address_data ← memcpy (port_bytes node.protocol node.local_port) e.address_data
  some (record e { address_size = 3; address_data = address_data; is_address_resolved = true })

unfoldable pub set_remote_node : Node → Endpoint → Option Endpoint
set_remote_node node e = do
  d0 ← memcpy (port_bytes node.protocol node.remote_port) e.address_data
  address_data ← at 3 (memcpy (take node.remote_address_size node.remote_address)) d0
  some (record e {
    address_size = 3 + node.remote_address_size;
    address_data = address_data;
    is_address_resolved = true;
  })

-- An endpoint by the node of its id, with the update `set`.
unfoldable pub resolve_address :
    (Node → Endpoint → Option Endpoint) → Pool → Endpoint → Option (Status × Endpoint)
resolve_address set pool e =
    if is_unresolved e.is_address_resolved e.id
    then elim (node_of pool e.id) [
      | none ↦ some (Error.invalid_id, e)
      | some node ↦ (do e' ← set node e; some (kit_ok, e'))
    ]
    else some (kit_ok, e)

-- The protocol and the port in the data of an address.
unfoldable pub read_protocol : Bytes → Option ℤ
read_protocol address_data = do p ← read_u8 address_data; some (pos p)

unfoldable pub read_port : Bytes → Option ℕ
read_port address_data = read_u16 (drop 1 address_data)

module _ {W : Type 0} (kit : Kit) (sys : Sockets W) where
  -- The id that is found for an address is the endpoint's.
  unfoldable pub identify : Pool → Remote → Endpoint → Option (Status × Pool × Endpoint)
  identify pool r e = do
    (s, id, pool') ← find_pool_node kit sys pool r
    some (s, pool', if s == kit_ok then record e { id = id; is_id_resolved = true } else e)

  -- The remote id by a port and the previous id. The address is that of a node of the pool.
  unfoldable pub resolve_port : Pool → Endpoint → Option (Status × Pool × Endpoint)
  resolve_port pool e =
      if not e.is_id_resolved && (e.address_size == 3) && not (e.id ==ℤ undefined)
      then elim (node_of pool e.id) [
        | none ↦ some (Error.invalid_id, pool, e)
        | some node ↦ (do
          protocol ← read_protocol e.address_data
          port ← read_port e.address_data
          let address = take node.remote_address_size node.remote_address
          identify pool
              (record { protocol = protocol; port = port; address = address; inside = true }) e)
      ]
      else some (kit_ok, pool, e)

  -- The remote id by an address and a port.
  unfoldable pub resolve_id : Pool → Endpoint → Option (Status × Pool × Endpoint)
  resolve_id pool e =
      if not e.is_id_resolved && ltb 3 e.address_size
      then (do
        protocol ← read_protocol e.address_data
        port ← read_port e.address_data
        address ← read_bytes (e.address_size - 3) (drop 3 e.address_data)
        identify pool
            (record { protocol = protocol; port = port; address = address; inside = false }) e)
      else some (kit_ok, pool, e)

  unfoldable pub resolve_slot : Pool → Slot → Option (Status × Pool × Slot)
  resolve_slot pool slot = do
    (s0, local) ← resolve_address set_local_address pool slot.local
    (s1, r1) ← resolve_address set_remote_node pool slot.remote
    (s2, pool2, r2) ← resolve_port pool r1
    (s3, pool3, r3) ← resolve_id pool2 r2
    some (bit_or (bit_or (bit_or s0 s1) s2) s3, pool3, record slot { local = local; remote = r3 })

  unfoldable pub resolve_slots : Pool → List Slot → Status → Option (Status × Pool × List Slot)
  resolve_slots pool [] status = some (status, pool, [])
  resolve_slots pool (slot ∷ slots) status = do
    (s, pool', slot') ← resolve_slot pool slot
    (status', pool'', slots') ← resolve_slots pool' slots (bit_or status s)
    some (status', pool'', slot' ∷ slots')

  -- resolve_address_and_id
  unfoldable pub resolve : {R : Type 0} → Pool → Peer R → Option (Status × Pool × Peer R)
  resolve pool peer = do
    (status, pool', slots) ← resolve_slots pool peer.slots kit_ok
    some (status, pool', record peer { slots = slots })
