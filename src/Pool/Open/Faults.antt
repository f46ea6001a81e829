-- ===== src/Pool/Open/Faults.antt =====
-- source/peer/socket_pool.c, peer_pool_open: what is closed where a socket cannot be had.
use peer.Prelude.{
  ℕ, zero, suc, ◌+◌, ◌≡◌, refl, ap, true, false, ◌∷◌, arith, ==-false, ◌==◌, length,
  take-append_length, drop-append_length, replicate,
}
use peer.Prelude.Int.{pos}
use peer.Options.{Status, kit_ok}
use peer.Options.Error
use peer.Kit
use peer.Kit.{Kit}
use peer.Sockets.{Sockets, invalid_socket}
use peer.Peer.{Peer}
use peer.Pool.{Node, Pool, cleared_node, udp_ipv4}
use peer.Pool.Open.{
  open_node, open_nodes, close_valid, open_protocol, open_peer, close_failed, open_count, pool_open,
}

module _ {W : Type 0} (sys : Sockets W) where
  -- The socket 0 is closed `n` times.
  unfoldable pub close_zero : ℕ → W → W
  close_zero zero w = w
  close_zero (suc n) w = close_zero n (sys.closesocket w (pos 0))

  close_valid-cleared :
      (n : ℕ) (w : W) → close_valid sys w (replicate n cleared_node) ≡ close_zero n w
  unfolding close_valid close_zero
  close_valid-cleared zero w = refl
  close_valid-cleared (suc n) w = close_valid-cleared n (sys.closesocket w (pos 0))

  open_node-refused :
      (w : W) (port : ℕ)
      → (sys.socket w).0 ≡ invalid_socket
      → open_node sys w port ≡ (
        Error.create_socket_failed,
        record cleared_node { socket = invalid_socket },
        (sys.socket w).1,
      )
  unfolding open_node
  open_node-refused w port e = rw e

  open_nodes-refused :
      (w : W) (port n : ℕ)
      → (sys.socket w).0 ≡ invalid_socket
      → open_nodes sys w port (suc n) ≡ (
        Error.create_socket_failed,
        record cleared_node { socket = invalid_socket } ∷ replicate n cleared_node,
        (sys.socket w).1,
      )
  unfolding open_nodes
  open_nodes-refused w port n e =
      let refused = open_node-refused w port e in
      let left : ((open_node sys w port).0 == kit_ok) ≡ false =
        ap (λ (r : Status × Node × W). r.0 == kit_ok) refused in
      rw (left, open_nodes, refused)

  -- Where the first socket of n + 1 cannot be had, peer_pool_open fails and closes the socket 0,
  -- which it has not opened, n times: the nodes that its loop has not come to hold 0 and not
  -- INVALID_SOCKET.
  pub pool_open-closes_zero :
      {R : Type 0} (kit : Kit) (pool : Pool) (peer : Peer R) (port n : ℕ) (w : W)
      → kit.fits Kit.nodes (length pool + suc n) ≡ true
      → (sys.socket w).0 ≡ invalid_socket
      → pool_open kit sys pool peer udp_ipv4 port (pos (suc n)) w
        ≡ (Error.create_socket_failed, pool, peer, close_zero n (sys.socket w).1)
  unfolding pool_open open_count open_protocol open_peer close_failed close_valid
  pool_open-closes_zero kit pool peer port n w room refused =
      let nodes = record cleared_node { socket = invalid_socket } ∷ replicate n cleared_node in
      rw (
        ==-false (suc n) 0 (λ e. absurd (omega arith)),
        room,
        open_nodes-refused w port n refused,
        take-append_length pool nodes (length pool) refl,
        drop-append_length pool nodes (length pool) refl,
        close_valid-cleared n (sys.socket w).1,
      )
