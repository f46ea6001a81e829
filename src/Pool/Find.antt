-- ===== src/Pool/Find.antt =====
-- source/peer/socket_pool.c: find_pool_node gives an address one id, and keeps the nodes.
use peer.Prelude.{
  get_elem?-last, All, find_index, find_index-some, find_index-append, find_index-last, ℕ, ◌+◌, ◌≤◌,
  ◌≡◌, ◌↔◌, refl, sym, ap, ◌∙◌, Bool, true, false, ◌&&◌, inl, inr, List, [], ◌∷◌, ◌++◌,
  append_assoc, append-nil, none, some, Option-cases, arith, length, get_elem?, take, drop,
  replicate, take-append_length, eq→==, ==_iff,
}
use peer.Prelude.Int.{pos, ◌==ℤ◌, ==ℤ_eq, ==ℤ_refl}
use peer.Options.{kit_ok}
use peer.Serial.{Bytes}
use peer.Serial.Layout.{memcpy_lem}
use peer.Kit
use peer.Kit.{Kit}
use peer.Sockets.{Sockets, invalid_socket}
use peer.Pool.{
  Node, Pool, Remote, udp_ipv4, any_port, remote_capacity, is_remote, remote_node, add_node,
  find_pool_node,
}

-- The comparison of strings tells whether they are equal.
abbrev pub IsExact : {W : Type 0} → Sockets W → Type 0
IsExact sys = (a b : Bytes) → (sys.equal a b ≡ true) ↔ (a ≡ b)

-- The node stands for the address.
pub record IsFor (r : Remote) (node : Node) : Type 0 where
  pub socket_is : node.socket ≡ invalid_socket
  pub protocol_is : node.protocol ≡ r.protocol
  pub local_port_is : node.local_port ≡ any_port
  pub remote_port_is : node.remote_port ≡ r.port
  pub address_is : take node.remote_address_size node.remote_address ≡ r.address

and_true : (a b : Bool) → (a && b) ≡ true → (a ≡ true) × (b ≡ true)
and_true true b h = (refl, h)
and_true false b h = absurd (cc)

and_of : (a b : Bool) → a ≡ true → b ≡ true → (a && b) ≡ true
and_of a b h k = ground arith

module _ {W : Type 0} (sys : Sockets W) (exact : IsExact sys) where
  pub is_remote-IsFor : (r : Remote) (node : Node) → is_remote sys r node ≡ true → IsFor r node
  unfolding is_remote
  is_remote-IsFor r node h =
      let (h0, k0) = and_true _ _ h in
      let (h1, k1) = and_true _ _ h0 in
      let (h2, k2) = and_true _ _ h1 in
      let (h3, k3) = and_true _ _ h2 in
      record {
        socket_is = ==ℤ_eq node.socket invalid_socket h3;
        protocol_is = ==ℤ_eq node.protocol r.protocol k3;
        local_port_is = (==_iff node.local_port any_port).0 k2;
        remote_port_is = (==_iff node.remote_port r.port).0 k1;
        address_is = (exact _ _).0 k0;
      }

  IsFor-is_remote : (r : Remote) (node : Node) → IsFor r node → is_remote sys r node ≡ true
  unfolding is_remote
  IsFor-is_remote r node h = rw (
    h.socket_is,
    h.protocol_is,
    h.local_port_is,
    h.remote_port_is,
    ==ℤ_refl r.protocol,
    eq→== r.port r.port refl,
    (exact _ _).1 h.address_is,
  )

-- A new node stands for its address.
pub remote_node-IsFor :
    (r : Remote)
    → length r.address ≤ 62
    → (node : Node) × (remote_node r ≡ some node) × IsFor r node
unfolding remote_node
remote_node-IsFor r small =
    let rest = drop (length r.address) (replicate remote_capacity 0) in
    (
      record {
        socket = invalid_socket;
        protocol = r.protocol;
        local_port = any_port;
        remote_port = r.port;
        remote_address_size = length r.address;
        remote_address = r.address ++ rest;
      },
      rw (memcpy_lem r.address (replicate remote_capacity 0) (omega arith)),
      record {
        socket_is = refl;
        protocol_is = refl;
        local_port_is = refl;
        remote_port_is = refl;
        address_is = take-append_length r.address rest (length r.address) refl;
      },
    )

-- A pool that has got more nodes.
abbrev pub Extends : Pool → Pool → Type 0
Extends pool pool' = (more : List Node) × (pool' ≡ pool ++ more)

pub Extends-refl : (pool : Pool) → Extends pool pool
Extends-refl pool = ([], sym (append-nil pool))

pub Extends-trans : (p q r : Pool) → Extends p q → Extends q r → Extends p r
Extends-trans p q r (a, e) (b, f) = (a ++ b, f ∙ ap (λ x. x ++ b) e ∙ append_assoc p a b)

-- The answer of find_pool_node: the id of a node for the address, in a pool with the same nodes.
pub record Found (pool : Pool) (r : Remote) (index : ℕ) (pool' : Pool) : Type 0 where
  pub extends : Extends pool pool'
  pub few : length extends.0 ≤ 1
  pub closed : All (λ n. n.socket ≡ invalid_socket) extends.0
  pub node : Node
  pub here : get_elem? pool' index ≡ some node
  pub is_for : IsFor r node

module _ {W : Type 0} (kit : Kit) (sys : Sockets W) (exact : IsExact sys) where
  add_node-last :
      (pool : Pool) (r : Remote)
      → length r.address ≤ 62
      → kit.fits Kit.nodes (length pool + 1) ≡ true
      → (r.inside && sys.moves (length pool + 1)) ≡ false
      → find_index (is_remote sys r) 0 pool ≡ none
      → (pool' : Pool) × (add_node kit sys pool r ≡ some (kit_ok, pos (length pool), pool'))
        × Found pool r (length pool) pool'
        × (find_index (is_remote sys r) 0 pool' ≡ some (length pool))
  unfolding add_node
  add_node-last pool r small room still new =
      let (node, made, is_for) = remote_node-IsFor r small in
      let z : 0 + length pool ≡ length pool = omega arith in
      (
        pool ++ node ∷ [],
        rw (room, still, made),
        record {
          extends = (node ∷ [], refl);
          few = omega arith;
          closed = (is_for.socket_is, tt);
          node = node;
          here = get_elem?-last pool node;
          is_for = is_for;
        },
        find_index-last (is_remote sys r) 0 pool node new (IsFor-is_remote sys exact r node is_for)
            ∙ ap some z,
      )

  -- With an exact comparison of strings, memory for a node, and an address of UDP that fits a node
  -- and is not moved while it is looked for, find_pool_node succeeds. It gives the id of a node for
  -- that address, in a pool that has the nodes it had, each with its id. However many nodes are
  -- added then, it gives the same id for the address again and adds none.
  pub find_pool_node_lem :
      (pool : Pool) (r : Remote)
      → r.protocol ≡ udp_ipv4
      → length r.address ≤ 62
      → kit.fits Kit.nodes (length pool + 1) ≡ true
      → (r.inside && sys.moves (length pool + 1)) ≡ false
      → (index : ℕ) × (pool' : Pool) × (find_pool_node kit sys pool r
          ≡ some (kit_ok, pos index, pool'))
        × Found pool r index pool'
        × ((more : List Node)
            → find_pool_node kit sys (pool' ++ more) r ≡ some (kit_ok, pos index, pool' ++ more))
  unfolding find_pool_node
  find_pool_node_lem pool r udp small room still =
      elim (Option-cases (find_index (is_remote sys r) 0 pool)) [
        | inr (i, found) ↦
            let (k, node, at_k, here, passes) = find_index-some (is_remote sys r) 0 pool i found in
            let same : i ≡ k = omega (arith, at_k) in
            (
              i,
              pool,
              rw (is_udp, found, find_pool_node),
              record {
                extends = ([], sym (append-nil pool));
                few = omega arith;
                closed = tt;
                node = node;
                here = rw same here;
                is_for = is_remote-IsFor sys exact r node passes;
              },
              again pool i found,
            )
        | inl new ↦
            let (pool', added, found, kept) = add_node-last pool r small room still new in
            (
              length pool,
              pool',
              rw (is_udp, new, find_pool_node, added),
              found,
              again pool' (length pool) kept,
            )
      ]
    where
      is_udp : (r.protocol ==ℤ udp_ipv4) ≡ true
      is_udp = ap (λ p. p ==ℤ udp_ipv4) udp ∙ ==ℤ_refl udp_ipv4

      again :
          (p : Pool) (i : ℕ)
          → find_index (is_remote sys r) 0 p ≡ some i
          → (more : List Node)
          → find_pool_node kit sys (p ++ more) r ≡ some (kit_ok, pos i, p ++ more)
      again p i e more =
          let e' = find_index-append (is_remote sys r) 0 p more i e in
          rw (is_udp, e', find_pool_node)
