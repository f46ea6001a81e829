-- ===== src/Pool/Open/Outcome.antt =====
-- source/peer/socket_pool.c: everything that peer_pool_open may return and leave.
use peer.Prelude.{
  ℕ, zero, suc, ◌+◌, ◌<◌, ◌≡◌, ◌≢◌, refl, sym, ap, ◌∙◌, false, not, ◌||◌, Bool-cases, inl, inr,
  List, [], ◌++◌, append-nil, arith, ◌==◌, ==_iff, length, length-replicate, take-append_length,
  All,
}
use peer.Prelude.Int.{ℤ, pos, negsuc, ◌==ℤ◌, ==ℤ_eq}
use peer.Prelude.Post.{if_cases}
use peer.Options.{Status, kit_ok}
use peer.Options.Error
use peer.Kit
use peer.Kit.{Kit}
use peer.Sockets.{Sockets, SocketName, invalid_socket, set_nonblocking}
use peer.Peer.{Peer, new_slots, open_slots}
use peer.Pool.{Node, Pool, cleared_node, udp_ipv4, udp_ipv6, tcp_ipv4, tcp_ipv6, any_port}
use peer.Pool.Open.{
  ids_from, name_node, bind_node, open_node, open_nodes, open_protocol, open_peer, close_failed,
  open_count, pool_open,
}

-- The name that a new socket is to have.
abbrev pub any_name : {W : Type 0} → Sockets W → ℕ → SocketName
any_name sys port = record { port = sys.htons port; address = sys.any_address }

-- A node whose socket the system has made, in the state `from`, and then made non-blocking, bound to
-- the port and named, each with success; of UDP, with the port of its name, and no remote address.
pub record IsOpened {W : Type 0} (sys : Sockets W) (port : ℕ) (node : Node) : Type 0 where
  pub from : W
  pub socket_is : node.socket ≡ (sys.socket from).0
  pub valid : (node.socket ==ℤ invalid_socket) ≡ false
  pub unblocked : W
  pub unblocked_is : set_nonblocking sys (sys.socket from).1 node.socket ≡ (pos 0, unblocked)
  pub bound : ((sys.bind unblocked node.socket (any_name sys port)).0 ==ℤ negsuc 0) ≡ false
  pub name : ℤ × SocketName × W
  pub name_is :
      name
      ≡ sys.getsockname
          (sys.bind unblocked node.socket (any_name sys port)).1
          node.socket
          (any_name sys port)
  pub named : (name.0 ==ℤ negsuc 0) ≡ false
  pub local_port_is : node.local_port ≡ sys.ntohs name.1.port
  pub protocol_is : node.protocol ≡ udp_ipv4
  pub remote_port_is : node.remote_port ≡ any_port
  pub remote_size_is : node.remote_address_size ≡ 0

-- The result of peer_pool_open: an error with nothing changed, or as many open nodes as were asked
-- for, whose ids the peer has slots for.
pub data OpenOutcome {W R : Type 0} (sys : Sockets W) (port : ℕ) (pool : Pool) (peer : Peer R)
    (count : ℤ) (result : Status × Pool × Peer R × W) : Type 0 where
  failed :
      result.0 ≢ kit_ok
      → result.1 ≡ pool
      → result.2 ≡ peer
      → OpenOutcome sys port pool peer count result
  opened :
      (nodes : List Node)
      → result.0 ≡ kit_ok
      → count ≡ pos (length nodes)
      → 0 < length nodes
      → All (IsOpened sys port) nodes
      → result.1 ≡ pool ++ nodes
      → result.2 ≡ record peer {
        slots = peer.slots ++ new_slots peer.mode 0 (ids_from (length pool) (length nodes));
      }
      → OpenOutcome sys port pool peer count result

module _ {W : Type 0} (sys : Sockets W) where
  -- The node of an iteration that does not leave the loop.
  abbrev Opens : ℕ → Status × Node × W → Type 0
  Opens port r = r.0 ≡ kit_ok → IsOpened sys port r.1

  name_node-Opens :
      (from w2 : W) (port : ℕ)
      → ((sys.socket from).0 ==ℤ invalid_socket) ≡ false
      → set_nonblocking sys (sys.socket from).1 (sys.socket from).0 ≡ (pos 0, w2)
      → ((sys.bind w2 (sys.socket from).0 (any_name sys port)).0 ==ℤ negsuc 0) ≡ false
      → Opens port (
          name_node sys
            (sys.bind w2 (sys.socket from).0 (any_name sys port)).1
            (sys.socket from).0
            (any_name sys port))
  unfolding name_node
  name_node-Opens from w2 port valid unblocked bound =
      let s = (sys.socket from).0 in
      let name = sys.getsockname (sys.bind w2 s (any_name sys port)).1 s (any_name sys port) in
      if_cases (Opens port) (name.0 ==ℤ negsuc 0) _ _ (λ _ e. absurd (omega arith))
        λ named _. record {
          from = from;
          socket_is = refl;
          valid = valid;
          unblocked = w2;
          unblocked_is = unblocked;
          bound = bound;
          name = name;
          name_is = refl;
          named = named;
          local_port_is = refl;
          protocol_is = refl;
          remote_port_is = refl;
          remote_size_is = refl;
        }

  open_node-Opens : (w : W) (port : ℕ) → Opens port (open_node sys w port)
  unfolding open_node bind_node
  open_node-Opens w port =
      let (s, w1) = sys.socket w in
      let (r, w2) = set_nonblocking sys w1 s in
      if_cases (Opens port) (s ==ℤ invalid_socket) _ _ (λ _ e. absurd (omega arith))
        λ valid.
          if_cases (Opens port) (not (r ==ℤ pos 0)) _ _ (λ _ e. absurd (omega arith))
            λ fine.
              if_cases (Opens port) ((sys.bind w2 s (any_name sys port)).0 ==ℤ negsuc 0) _ _
                (λ _ e. absurd (omega arith))
                λ bound.
                  name_node-Opens w w2 port valid
                    (ap (λ x. (x, w2)) (==ℤ_eq r (pos 0) (ground arith))) bound

  -- All nodes of a loop that ends by itself.
  abbrev OpensAll : ℕ → ℕ → Status × List Node × W → Type 0
  OpensAll port n r = (length r.1 ≡ n) × (r.0 ≡ kit_ok → All (IsOpened sys port) r.1)

  open_nodes-OpensAll : (w : W) (port n : ℕ) → OpensAll port n (open_nodes sys w port n)
  unfolding open_nodes
  open_nodes-OpensAll w port zero = (refl, λ _. tt)
  open_nodes-OpensAll w port (suc n) =
      let (s, node, w') = open_node sys w port in
      let (size, ok) = open_nodes-OpensAll w' port n in
      elim (Bool-cases (s == kit_ok)) [
        | inl went ↦
            rw (went, open_nodes)
              (ap suc size, λ e. (open_node-Opens w port ((==_iff s kit_ok).0 went), ok e))
        | inr left ↦
            rw (left, open_nodes)
              (ap suc (length-replicate n cleared_node), λ e. absurd (ground arith))
      ]

length-ids_from : (i n : ℕ) → length (ids_from i n) ≡ n
length-ids_from i zero = refl
length-ids_from i (suc n) = ap suc (length-ids_from (i + 1) n)

module _ {W : Type 0} (kit : Kit) (sys : Sockets W) where
  -- The nodes that the switch adds, with an error or without.
  record Added (port : ℕ) (pool : Pool) (count : ℕ) (r : Status × Pool × W) : Type 0 where
    nodes : List Node
    grown : r.1 ≡ pool ++ nodes
    ok : r.0 ≡ kit_ok → (length nodes ≡ count) × All (IsOpened sys port) nodes

  no_nodes :
      (port : ℕ) (pool : Pool) (count : ℕ) (s : Status) (w : W)
      → s ≢ kit_ok
      → Added port pool count (s, pool, w)
  no_nodes port pool count s w bad = record {
    nodes = [];
    grown = sym (append-nil pool);
    ok = λ e. absurd (bad e);
  }

  open_protocol-Added :
      (pool : Pool) (protocol : ℤ) (port count : ℕ) (w : W)
      → Added port pool count (open_protocol kit sys pool protocol port count w)
  unfolding open_protocol
  open_protocol-Added pool protocol port count w =
      let all = open_nodes-OpensAll sys w port count in
      if_cases (Added port pool count) (protocol ==ℤ udp_ipv4) _ _
        (λ _.
          if_cases (Added port pool count) (not (kit.fits Kit.nodes (length pool + count))) _ _
            (λ _. no_nodes port pool count Error.bad_alloc w (λ e. absurd (omega arith)))
            λ _. record {
              nodes = (open_nodes sys w port count).1;
              grown = refl;
              ok = λ e. (all.0, all.1 e);
            })
        λ _.
          if_cases (Added port pool count)
            ((protocol ==ℤ udp_ipv6) || (protocol ==ℤ tcp_ipv4) || (protocol ==ℤ tcp_ipv6)) _ _
            (λ _. no_nodes port pool count Error.not_implemented w (λ e. absurd (omega arith)))
            λ _. no_nodes port pool count Error.unknown_protocol w (λ e. absurd (omega arith))

  module _ {R : Type 0} (peer : Peer R) where
    -- The peer's slots for the new nodes, or an error.
    data Given (first count : ℕ) (s : Status) (r : Status × Peer R) : Type 0 where
      refused : r.0 ≢ kit_ok → r.1 ≡ peer → Given first count s r
      given :
          s ≡ kit_ok
          → r.0 ≡ kit_ok
          → r.1 ≡ record peer { slots = peer.slots ++ new_slots peer.mode 0 (ids_from first count) }
          → Given first count s r

    open_peer-Given :
        (first count : ℕ) (s : Status)
        → 0 < count
        → Given first count s (open_peer kit sys first count s peer)
    unfolding open_peer open_slots
    open_peer-Given first count s some_count =
        let ids = ids_from first count in
        let size = length-ids_from first count in
        if_cases (Given first count s) (not (s == kit_ok)) _ _
          (λ bad. refused (λ e. absurd (ground arith)) refl)
          λ fine.
            if_cases (Given first count s) (not (kit.fits Kit.ids count)) _ _
              (λ _. refused (λ e. absurd (omega arith)) refl)
              λ _.
                if_cases (Given first count s) (length ids == 0) _ _
                  (λ nothing. absurd (ground arith))
                  λ _.
                    if_cases (Given first count s)
                      (not (kit.fits Kit.slots (length peer.slots + length ids))) _ _
                      (λ _. refused (λ e. absurd (omega arith)) refl)
                      λ _. given (ground arith) refl refl

    close_failed-ok :
        (n : ℕ) (s : Status) (pool : Pool) (w : W)
        → s ≡ kit_ok
        → (close_failed kit sys n s pool w).0 ≡ pool
    unfolding close_failed
    close_failed-ok n s pool w e = rw e

    close_failed-bad :
        (s : Status) (pool more : Pool) (w : W)
        → s ≢ kit_ok
        → (close_failed kit sys (length pool) s (pool ++ more) w).0 ≡ pool
    unfolding close_failed
    close_failed-bad s pool more w bad =
        if_cases (λ (r : Pool × W). r.0 ≡ pool) (s == kit_ok) _ _ (λ e. absurd (bad (ground arith)))
          λ _. take-append_length pool more (length pool) refl

    -- In a build without asserts, peer_pool_open, of any protocol and count, whatever the system
    -- does and whatever memory there is: either it returns an error, and the pool and the peer are
    -- as they were; or the count is positive, and the pool has that many more nodes, and the peer
    -- has slots for just their ids, in order. Each of the nodes is one of UDP with no remote
    -- address, whose socket is one that the system has given, made non-blocking, bound to the port
    -- at any address, and named, all with success, and whose local port is the port of that name.
    pub pool_open-OpenOutcome :
        (pool : Pool) (protocol : ℤ) (port : ℕ) (count : ℤ) (w : W)
        → OpenOutcome sys port pool peer count (pool_open kit sys pool peer protocol port count w)
    unfolding pool_open open_count
    pool_open-OpenOutcome pool protocol port (negsuc n) w =
        failed (λ e. absurd (omega arith)) refl refl
    pool_open-OpenOutcome pool protocol port (pos count) w =
        if_cases (OpenOutcome sys port pool peer (pos count)) (count == 0) _ _
          (λ _. failed (λ e. absurd (omega arith)) refl refl) λ some_count. opens (ground arith)
      where
        opens :
            0 < count
            → OpenOutcome sys port pool peer
                (pos count)
                (open_count kit sys pool peer protocol port count w)
        opens positive =
            let r = open_protocol kit sys pool protocol port count w in
            let a = open_protocol-Added pool protocol port count w in
            let q = open_peer kit sys (length pool) count r.0 peer in
            elim (open_peer-Given (length pool) count r.0 positive) [
              | refused bad same ↦
                  failed bad
                    (ap (λ p. (close_failed kit sys (length pool) q.0 p r.2).0) a.grown
                      ∙ close_failed-bad q.0 pool a.nodes r.2 bad)
                    same
              | given ok fine same ↦
                  let (size, all) = a.ok ok in
                  opened a.nodes fine (ap pos (sym size)) (omega (arith, size, positive)) all
                    (close_failed-ok (length pool) q.0 r.1 r.2 fine ∙ a.grown) (rw size same)
            ]
