-- ===== src/Pool/Open.antt =====
-- source/peer/socket_pool.c: peer_pool_open, peer_pool_connect and peer_pool_destroy.
pub mod Outcome
pub mod Faults
use peer.Prelude.{
  ℕ, zero, suc, ◌+◌, Bool, true, false, not, ◌||◌, List, [], ◌∷◌, ◌++◌, Option, none, some, ◌>>=◌,
  bit_or, ltb, ◌==◌, if◌then◌else◌, length, take, drop, replicate,
}
use peer.Prelude.Int.{ℤ, pos, negsuc, ◌==ℤ◌}
use peer.Options.{Status, kit_ok}
use peer.Options.Error
use peer.Serial.{Bytes}
use peer.Kit
use peer.Kit.{Kit}
use peer.Sockets.{Socket, Sockets, SocketName, invalid_socket, set_nonblocking}
use peer.Peer.{Peer, open_slots, connect}
use peer.Pool.{
  Node, Pool, cleared_node, udp_ipv4, udp_ipv6, tcp_ipv4, tcp_ipv6, any_port, remote_capacity,
  find_pool_node,
}

-- The ids `i`, `i + 1`, and so on, of new nodes.
abbrev pub ids_from : ℕ → ℕ → List ℤ
ids_from i zero = []
ids_from i (suc n) = pos i ∷ ids_from (i + 1) n

module _ {W : Type 0} (sys : Sockets W) where
  -- Each step of an iteration of the loop goes on with the next one, or leaves the loop with its
  -- error. The node is the one of the iteration.
  unfoldable pub name_node : W → Socket → SocketName → Status × Node × W
  name_node w s name =
      let node = record cleared_node { socket = s } in
      let (r, name', w') = sys.getsockname w s name in
      if r ==ℤ negsuc 0 then (Error.get_socket_name_failed, node, w') else (
        kit_ok,
        record node {
          protocol = udp_ipv4;
          local_port = sys.ntohs name'.port;
          remote_port = any_port;
        },
        w',
      )

  unfoldable pub bind_node : W → Socket → ℕ → Status × Node × W
  bind_node w s port =
      let name : SocketName = record { port = sys.htons port; address = sys.any_address } in
      let (r, w') = sys.bind w s name in
      if r ==ℤ negsuc 0
      then (Error.bind_socket_failed, record cleared_node { socket = s }, w')
      else name_node w' s name

  unfoldable pub open_node : W → ℕ → Status × Node × W
  open_node w port =
      let (s, w1) = sys.socket w in
      let node = record cleared_node { socket = s } in
      if s ==ℤ invalid_socket
      then (Error.create_socket_failed, node, w1)
      else (let (r, w2) = set_nonblocking sys w1 s in
          if not (r ==ℤ pos 0)
          then (Error.make_socket_nonblocking_failed, node, w2)
          else bind_node w2 s port)

  -- The loop over the new nodes. Those that it does not come to stay cleared.
  unfoldable pub open_nodes : W → ℕ → ℕ → Status × List Node × W
  open_nodes w port zero = (kit_ok, [], w)
  open_nodes w port (suc n) =
      let (s, node, w') = open_node w port in
      elim (s == kit_ok) [
        | false ↦ (s, node ∷ replicate n cleared_node, w')
        | true ↦ (let (s', nodes, w'') = open_nodes w' port n in (s', node ∷ nodes, w''))
      ]

  -- Closes the sockets of nodes, but not INVALID_SOCKET; and of all nodes.
  unfoldable pub close_valid : W → List Node → W
  close_valid w [] = w
  close_valid w (node ∷ nodes) =
      close_valid
        (if not (node.socket ==ℤ invalid_socket) then sys.closesocket w node.socket else w) nodes

  unfoldable pub pool_destroy : W → Pool → W
  pool_destroy w [] = w
  pool_destroy w (node ∷ nodes) = pool_destroy (sys.closesocket w node.socket) nodes

module _ {W : Type 0} (kit : Kit) (sys : Sockets W) where
  -- The `switch` on the protocol.
  unfoldable pub open_protocol : Pool → ℤ → ℕ → ℕ → W → Status × Pool × W
  open_protocol pool protocol port count w =
      if protocol ==ℤ udp_ipv4
      then (if not (kit.fits Kit.nodes (length pool + count))
          then (Error.bad_alloc, pool, w)
          else (let (s, nodes, w') = open_nodes sys w port count in (s, pool ++ nodes, w')))
      else (if (protocol ==ℤ udp_ipv6) || (protocol ==ℤ tcp_ipv4) || (protocol ==ℤ tcp_ipv6)
          then (Error.not_implemented, pool, w)
          else (Error.unknown_protocol, pool, w))

  -- The ids of the new nodes are given to the peer.
  unfoldable pub open_peer : {R : Type 0} → ℕ → ℕ → Status → Peer R → Status × Peer R
  open_peer first count status peer =
      if not (status == kit_ok)
      then (status, peer)
      else (if not (kit.fits Kit.ids count)
          then (Error.bad_alloc, peer)
          else open_slots kit peer (ids_from first count))

  -- The end: with an error, the pool is as it was.
  unfoldable pub close_failed : ℕ → Status → Pool → W → Pool × W
  close_failed n status pool w =
      if status == kit_ok then (pool, w) else (take n pool, close_valid sys w (drop n pool))

  unfoldable pub open_count :
      {R : Type 0} → Pool → Peer R → ℤ → ℕ → ℕ → W → Status × Pool × Peer R × W
  open_count pool peer protocol port count w =
      let (s, pool1, w1) = open_protocol pool protocol port count w in
      let (s', peer') = open_peer (length pool) count s peer in
      let (pool2, w2) = close_failed (length pool) s' pool1 w1 in (s', pool2, peer', w2)

  -- peer_pool_open
  unfoldable pub pool_open :
      {R : Type 0} → Pool → Peer R → ℤ → ℕ → ℤ → W → Status × Pool × Peer R × W
  pool_open pool peer protocol port (negsuc n) w = (Error.invalid_count, pool, peer, w)
  pool_open pool peer protocol port (pos count) w =
      if count == 0
      then (Error.invalid_count, pool, peer, w)
      else open_count pool peer protocol port count w

  -- peer_pool_connect from the id of the server on.
  unfoldable pub connect_to : {R : Type 0} → Pool → Peer R → ℤ → ℤ → W → Status × Pool × Peer R × W
  connect_to pool peer protocol remote_id w =
      let (s, peer1) = connect peer remote_id in
      if not (s == Error.no_free_slots)
      then (s, pool, peer1, w)
      else (let (s', pool', peer2, w') = pool_open pool peer1 protocol any_port (pos 1) w in
          if not (s' == kit_ok)
          then (s', pool', peer2, w')
          else (let (s'', peer3) = connect peer2 remote_id in (s'', pool', peer3, w')))

  -- peer_pool_connect
  unfoldable pub pool_connect :
      {R : Type 0} → Pool → Peer R → ℤ → Bytes → ℕ → W → Option (Status × Pool × Peer R × W)
  pool_connect pool peer protocol address port w =
      if (length address == 0) || ltb remote_capacity (length address)
      then some (Error.invalid_address, pool, peer, w)
      else (if port == any_port then some (Error.invalid_port, pool, peer, w) else (do
        (s, id, pool') ←
            find_pool_node kit sys pool
              (record { protocol = protocol; port = port; address = address; inside = false })
        some (
            if not (s == kit_ok)
            then (s, pool', peer, w)
            else connect_to pool' peer protocol id w)))
