-- ===== src/Pool/Tick/Receive.antt =====
-- source/peer/socket_pool.c, peer_pool_tick: the packets that are received, and that the loop ends.
use peer.Prelude.{
  drop-get_elem?, drop-append_le, get_elem?-lt, ℕ, zero, suc, ◌+◌, ◌*◌, ◌≤◌, ◌<◌, ◌≡◌, refl, sym,
  ap, ◌∙◌, false, not, ◌||◌, inl, inr, List, [], ◌∷◌, ◌++◌, append-nil, some, Option-cases, arith,
  if◌then◌else◌, bit_or, length, get_elem?, drop, All,
}
use peer.Prelude.Int.{◌==ℤ◌}
use peer.Prelude.Post.{Returns, Returns-bind, Returns-cases}
use peer.Options.{Status}
use peer.Kit.{Kit}
use peer.Sockets.{Sockets, invalid_socket}
use peer.Packet.{Packet}
use peer.Pool.{Node, Pool, udp_ipv4}
use peer.Pool.Find.{Extends-refl, Extends-trans, Extends}
use peer.Pool.Tick.{receive_status, receive_node, receive_nodes, receive}
use peer.Pool.Tick.Packets.{IsSystem, IsReceived, receive_size-Round}

-- The rounds that the loop takes for nodes at most, with those that they add.
weight : List Node → ℕ
weight [] = 0
weight (node ∷ nodes) = (if node.socket ==ℤ invalid_socket then 1 else 2) + weight nodes

weight-append : (xs ys : List Node) → weight (xs ++ ys) ≡ weight xs + weight ys
unfolding weight
weight-append [] ys = omega arith
weight-append (x ∷ xs) ys = omega (arith, weight-append xs ys)

weight-le : (nodes : List Node) → weight nodes ≤ 2 * length nodes
unfolding weight
weight-le [] = omega arith
weight-le (node ∷ nodes) = ground (arith, weight-le nodes)

weight_closed :
    (nodes : List Node) → All (λ n. n.socket ≡ invalid_socket) nodes → weight nodes ≡ length nodes
unfolding weight
weight_closed [] h = refl
weight_closed (node ∷ nodes) h = rw h.0 (omega (arith, weight_closed nodes h.1))

module _ {W : Type 0} (kit : Kit) (sys : Sockets W) (known : IsSystem sys) where
  -- A round for a node, and what it takes off the rounds that are left.
  record NodeRound (i : ℕ) (node : Node) (pool : Pool) (packets : List Packet)
      (result : Status × Pool × List Packet × W) : Type 0 where
    more : List Node
    grown : result.1 ≡ pool ++ more
    less : weight more < weight (node ∷ [])
    received : All (IsReceived pool) packets → All (IsReceived result.1) result.2

  receive_node-NodeRound :
      (i : ℕ) (node : Node) (pool : Pool) (status : Status) (packets : List Packet) (w : W)
      → get_elem? pool i ≡ some node
      → Returns (NodeRound i node pool packets) (receive_node kit sys i node pool status packets w)
  unfolding receive_node weight
  receive_node-NodeRound i node pool status packets w here =
      Returns-cases ((node.socket ==ℤ invalid_socket) || not (node.protocol ==ℤ udp_ipv4)) _ _
        (λ _. (
          _,
          refl,
          record {
            more = [];
            grown = sym (append-nil pool);
            less = ground arith;
            received = λ h. h;
          },
        ))
        λ e.
          let valid : (node.socket ==ℤ invalid_socket) ≡ false = ground arith in
          let r = (sys.recvfrom w node.socket).0 in
          Returns-bind _ _
            (receive_size-Round kit sys known i node r r.size pool
              (bit_or status (receive_status kit sys r)) packets (node, here, valid)
              (known.names r.remote.address) (known.buffer w node.socket)
              (known.fits w node.socket))
            λ a round. (
              _,
              refl,
              record {
                more = round.more;
                grown = round.grown;
                less = rw valid (omega (arith, weight_closed round.more round.closed, round.few));
                received = round.received;
              },
            )

  -- What the loop leaves.
  record Rounds (pool : Pool) (packets : List Packet) (result : Status × Pool × List Packet × W)
      : Type 0 where
    grown : Extends pool result.1
    received : All (IsReceived pool) packets → All (IsReceived result.1) result.2

  receive_nodes-Rounds :
      (fuel i : ℕ) (pool : Pool) (status : Status) (packets : List Packet) (w : W)
      → weight (drop i pool) < fuel
      → Returns (Rounds pool packets) (receive_nodes kit sys fuel i pool status packets w)
  unfolding receive_nodes
  receive_nodes-Rounds zero i pool status packets w enough = absurd (omega arith)
  receive_nodes-Rounds (suc fuel) i pool status packets w enough =
      elim (Option-cases (get_elem? pool i)) [
        | inl end ↦ (
          (status, pool, packets, w),
          rw (end, receive_nodes),
          record { grown = Extends-refl pool; received = λ h. h },
        )
        | inr (node, here) ↦
            let (a, ran, round) = receive_node-NodeRound i node pool status packets w here in
            let rest =
              receive_nodes-Rounds fuel (i + 1) a.1 a.0 a.2 a.3
                (lighter node here a.1 round.more round.grown round.less) in
            (
              rest.0,
              rw (here, receive_nodes, ran) rest.1,
              record {
                grown = Extends-trans pool a.1 rest.0.1 (round.more, round.grown) rest.2.grown;
                received = λ h. rest.2.received (round.received h);
              },
            )
      ]
    where
      lighter :
          (node : Node)
          → get_elem? pool i ≡ some node
          → (pool' : Pool) (more : List Node) → pool' ≡ pool ++ more
          → weight more < weight (node ∷ [])
          → weight (drop (i + 1) pool') < fuel
      lighter node here pool' more grown less =
          let inside = get_elem?-lt pool i node here in
          let after : weight (drop (i + 1) pool') ≡ weight (drop (i + 1) pool) + weight more =
            ap (λ p. weight (drop (i + 1) p)) grown
            ∙ ap weight (drop-append_le (i + 1) pool more (omega (arith, inside)))
            ∙ weight-append (drop (i + 1) pool) more in
          let before : weight (drop i pool) ≡ weight (node ∷ []) + weight (drop (i + 1) pool) =
            ap weight (drop-get_elem? pool i node here)
            ∙ weight-append (node ∷ []) (drop (i + 1) pool) in
          omega (arith, enough, after, before, less)

  -- Where the system keeps to what it promises, the loop of peer_pool_tick over the nodes ends,
  -- whatever comes and whatever memory there is: the fuel is enough. The pool keeps its nodes,
  -- each with its id, and each packet comes from a node without a socket, for a node with one, and
  -- has from 1 to 400 bytes.
  pub receive_total :
      (pool : Pool) (status : Status) (w : W)
      → (status' : Status) × (pool' : Pool) × (packets : List Packet) × (w' : W) × (receive kit sys
            pool status w
          ≡ some (status', pool', packets, w'))
        × Extends pool pool'
        × All (IsReceived pool') packets
  unfolding receive
  receive_total pool status w =
      let (a, e, rounds) =
        receive_nodes-Rounds (2 * length pool + 1) 0 pool status [] w
          (omega (arith, weight-le pool)) in
      (a.0, a.1, a.2, a.3, e, rounds.grown, rounds.received tt)
