-- ===== src/Pool/Tick.antt =====
-- source/peer/socket_pool.c: peer_pool_tick.
pub mod Packets
pub mod Receive
pub mod Kept
use peer.Prelude.{
  ℕ, zero, suc, ◌+◌, ◌*◌, Bool, true, false, not, ◌&&◌, ◌||◌, List, [], ◌∷◌, ◌++◌, Option, none,
  some, ◌>>=◌, bit_or, ◌==◌, if◌then◌else◌, length, get_elem?, replicate,
}
use peer.Prelude.Int.{ℤ, pos, negsuc, ◌==ℤ◌, ltb_ℤ}
use peer.Options.{Status, kit_ok, packet_size}
use peer.Options.Error
use peer.Serial.{Bytes, memcpy}
use peer.Kit
use peer.Kit.{Kit}
use peer.Sockets.{Socket, Sockets, SocketName, Received, invalid_socket}
use peer.Packet.{Packet, read_bytes}
use peer.Peer.{Peer}
use peer.Peer.Input.{input}
use peer.Peer.Tick.{tick}
use peer.Pool.{Node, Pool, udp_ipv4, node_of, find_pool_node}
use peer.Pool.Resolve.{resolve}

module _ {W : Type 0} (kit : Kit) (sys : Sockets W) where
  -- The status after recvfrom.
  abbrev pub receive_status : Received → Status
  receive_status r =
      if (r.size ==ℤ negsuc 0) && not (r.error ==ℤ sys.eagain) && not (r.error ==ℤ pos 0)
      then Error.socket_receive_failed
      else kit_ok

  -- A packet of `n` bytes that has come, from the node `id` to the node `i`.
  unfoldable pub received_packet : ℤ → ℕ → ℕ → Bytes → Option Packet
  received_packet id i n buf = do
    bytes ← read_bytes n buf
    body ← memcpy bytes (replicate packet_size 0)
    some (record { source_id = id; destination_id = pos i; size = pos n; body = body })

  -- What is done with `n` bytes that have come for the node `i`.
  unfoldable pub receive_bytes :
      ℕ → Node → Received → ℕ → Pool → Status → List Packet → Option (Status × Pool × List Packet)
  receive_bytes i node r n pool status packets = do
    (s, id, pool') ← find_pool_node kit sys pool (record {
      protocol = node.protocol;
      port = sys.ntohs r.remote.port;
      address = sys.inet_ntop r.remote.address;
      inside = false;
    })
    if not (s == kit_ok)
        then some (bit_or status s, pool', packets)
        else (if not (kit.fits Kit.packets (length packets + 1))
            then some (bit_or status Error.bad_alloc, pool', packets)
            else (do p ← received_packet id i n r.buf; some (status, pool', packets ++ p ∷ [])))

  -- By the size that recvfrom returns.
  unfoldable pub receive_size :
      ℕ → Node → Received → ℤ → Pool → Status → List Packet → Option (Status × Pool × List Packet)
  receive_size i node r (negsuc n) pool status packets = some (status, pool, packets)
  receive_size i node r (pos n) pool status packets =
      if n == 0 then some (status, pool, packets) else receive_bytes i node r n pool status packets

  unfoldable pub receive_node :
      ℕ → Node → Pool → Status → List Packet → W → Option (Status × Pool × List Packet × W)
  receive_node i node pool status packets w =
      if (node.socket ==ℤ invalid_socket) || not (node.protocol ==ℤ udp_ipv4)
      then some (status, pool, packets, w)
      else (do
        let (r, w') = sys.recvfrom w node.socket
        (status', pool', packets') ←
            receive_size i node r r.size pool (bit_or status (receive_status r)) packets
        some (status', pool', packets', w'))

  -- The loop over the nodes from the one with the number `i` on, those that it adds included; on
  -- fuel.
  unfoldable pub receive_nodes :
      ℕ → ℕ → Pool → Status → List Packet → W → Option (Status × Pool × List Packet × W)
  receive_nodes zero i pool status packets w = none
  receive_nodes (suc fuel) i pool status packets w = elim (get_elem? pool i) [
    | none ↦ some (status, pool, packets, w)
    | some node ↦ (do
      (status', pool', packets', w') ← receive_node i node pool status packets w
      receive_nodes fuel (i + 1) pool' status' packets' w')
  ]

  -- A node adds one more at most, and that has no socket to receive from.
  unfoldable pub receive : Pool → Status → W → Option (Status × Pool × List Packet × W)
  receive pool status w = receive_nodes (2 * length pool + 1) 0 pool status [] w

  -- The bytes of a packet that sendto is given.
  abbrev pub packet_bytes : ℤ → Bytes → Option Bytes
  packet_bytes (pos n) body = read_bytes n body
  packet_bytes (negsuc n) body = none

  unfoldable pub send_from : Node → Node → Packet → W → Option (Status × W)
  send_from src dst p w =
      let (r, address) = sys.inet_pton dst.remote_address 0 in
      if r ==ℤ negsuc 0 then some (Error.get_socket_name_failed, w) else (do
        bytes ← packet_bytes p.size p.body
        let name : SocketName = record { port = sys.htons dst.remote_port; address = address }
        let (n, w') = sys.sendto w src.socket bytes name
        some (if n ==ℤ p.size then kit_ok else Error.socket_send_failed, w'))

  -- By the nodes of the packet's ids.
  unfoldable pub send_between : Option Node → Option Node → Packet → W → Option (Status × W)
  send_between none dst p w = some (Error.invalid_id, w)
  send_between (some src) none p w = some (Error.invalid_id, w)
  send_between (some src) (some dst) p w =
      if src.socket ==ℤ invalid_socket
      then some (Error.invalid_socket, w)
      else (if not (src.protocol ==ℤ dst.protocol) || not (src.protocol ==ℤ udp_ipv4)
          then some (Error.unknown_protocol, w)
          else send_from src dst p w)

  unfoldable pub send_packets : Pool → List Packet → Status → W → Option (Status × W)
  send_packets pool [] status w = some (status, w)
  send_packets pool (p ∷ packets) status w = do
    (s, w') ← send_between (node_of pool p.source_id) (node_of pool p.destination_id) p w
    send_packets pool packets (bit_or status s) w'

  module _ {R : Type 0} (generate : R → ℕ × R) where
    -- peer_pool_tick for a time that is not negative.
    unfoldable pub pool_tick_on : Pool → Peer R → ℤ → W → Option (Status × Pool × Peer R × W)
    pool_tick_on pool peer elapsed w = do
      (s0, pool0, peer0) ← resolve kit sys pool peer
      (s1, pool1, packets, w1) ← receive pool0 s0 w
      (s2, peer1) ← input kit peer0 packets
      (s3, peer2, sent) ← tick kit generate peer1 elapsed
      (s4, w2) ← send_packets pool1 sent (bit_or s1 s2) w1
      some (bit_or s4 s3, pool1, peer2, w2)

    -- peer_pool_tick
    unfoldable pub pool_tick : Pool → Peer R → ℤ → W → Option (Status × Pool × Peer R × W)
    pool_tick pool peer elapsed w =
        if ltb_ℤ elapsed (pos 0)
        then some (Error.invalid_time_elapsed, pool, peer, w)
        else pool_tick_on pool peer elapsed w
