-- ===== src/Pool.antt =====
-- source/peer/socket_pool.h and socket_pool.c: the nodes of a pool, and how one is found.
pub mod Find
mod Tests
pub mod Outcome
pub mod Resolve
pub mod Open
pub mod Tick
pub mod Session
use peer.Prelude.{
  find_index, ℕ, zero, suc, ◌+◌, Bool, true, false, not, ◌&&◌, List, [], ◌∷◌, ◌++◌, Option, none,
  some, ◌>>=◌, ◌==◌, if◌then◌else◌, length, get_elem?, take, replicate,
}
use peer.Prelude.Int.{ℤ, pos, negsuc, ◌==ℤ◌}
use peer.Options.{Status, kit_ok, undefined}
use peer.Options.Error
use peer.Serial.{Bytes, memcpy}
use peer.Kit
use peer.Kit.{Kit}
use peer.Sockets.{Socket, Sockets, invalid_socket}

-- The protocols of `int protocol` and PEER_ANY_PORT.
abbrev pub udp_ipv4 : ℤ
udp_ipv4 = pos 1

abbrev pub udp_ipv6 : ℤ
udp_ipv6 = pos 2

abbrev pub tcp_ipv4 : ℤ
tcp_ipv4 = pos 3

abbrev pub tcp_ipv6 : ℤ
tcp_ipv6 = pos 4

abbrev pub any_port : ℕ
any_port = 0

-- The size of `remote_address`.
abbrev pub remote_capacity : ℕ
remote_capacity = 62

-- `peer_node_t`: a socket of this side, or, where there is none, an address of another.
pub record Node : Type 0 where
  pub socket : Socket
  pub protocol : ℤ
  pub local_port : ℕ
  pub remote_port : ℕ
  pub remote_address_size : ℕ
  pub remote_address : Bytes

-- `peer_socket_pool_t`, but for its allocator.
abbrev pub Pool : Type 0
Pool = List Node

abbrev pub pool_init : Pool
pool_init = []

-- A node that `memset` has cleared.
abbrev pub cleared_node : Node
cleared_node = record {
  socket = pos 0;
  protocol = pos 0;
  local_port = any_port;
  remote_port = any_port;
  remote_address_size = 0;
  remote_address = replicate remote_capacity 0;
}

-- The node with an id that a peer knows it by.
abbrev pub node_of : Pool → ℤ → Option Node
node_of pool (pos i) = get_elem? pool i
node_of pool (negsuc n) = none

-- The address that a node is looked for by. It may stand in a node of the pool itself, as `inside`
-- tells.
pub record Remote : Type 0 where
  pub protocol : ℤ
  pub port : ℕ
  pub address : Bytes
  pub inside : Bool

-- The test of the search.
unfoldable pub is_remote : {W : Type 0} → Sockets W → Remote → Node → Bool
is_remote sys r node =
    (node.socket ==ℤ invalid_socket)
    && (node.protocol ==ℤ r.protocol)
    && (node.local_port == any_port)
    && (node.remote_port == r.port)
    && sys.equal (take node.remote_address_size node.remote_address) r.address

-- A new node for the address.
unfoldable pub remote_node : Remote → Option Node
remote_node r = do
  address ← memcpy r.address (replicate remote_capacity 0)
  some (record {
    socket = invalid_socket;
    protocol = r.protocol;
    local_port = any_port;
    remote_port = r.port;
    remote_address_size = length r.address;
    remote_address = address;
  })

module _ {W : Type 0} (kit : Kit) (sys : Sockets W) where
  -- find_pool_node from the end of its search on. An address inside the pool is read after the
  -- nodes may have been moved and their old memory freed, if it has any bytes.
  unfoldable pub add_node : Pool → Remote → Option (Status × ℤ × Pool)
  add_node pool r =
      if not (kit.fits Kit.nodes (length pool + 1))
      then some (Error.bad_alloc, undefined, pool)
      else (if (r.inside && sys.moves (length pool + 1)) && not (length r.address == 0)
          then none
          else (do node ← remote_node r; some (kit_ok, pos (length pool), pool ++ node ∷ [])))

  -- The status and the id that find_pool_node gives, and the pool after.
  unfoldable pub find_pool_node : Pool → Remote → Option (Status × ℤ × Pool)
  find_pool_node pool r =
      if not (r.protocol ==ℤ udp_ipv4)
      then some (Error.unknown_protocol, kit.word, pool)
      else elim (find_index (is_remote sys r) 0 pool) [
        | some i ↦ some (kit_ok, pos i, pool)
        | none ↦ add_node pool r
      ]
