-- ===== src/Pool/Tick/Packets.antt =====
-- source/peer/socket_pool.c, peer_pool_tick: a packet that is received, from a socket of the pool.
use peer.Prelude.{
  ℕ, ◌+◌, ◌≤◌, ◌<◌, ◌≡◌, refl, sym, ◌∙◌, false, not, List, [], ◌∷◌, ◌++◌, append-nil, some, ◌>>=◌,
  arith, ◌==◌, if◌then◌else◌, bit_or, length, length-append, length-take, get_elem?, take, drop,
  length-drop, replicate, All, All-append,
}
use peer.Prelude.Int.{ℤ, pos, negsuc, ◌==ℤ◌, ◌≤ℤ◌}
use peer.Prelude.Post.{Returns, Returns-bind, Returns-if, Returns-cases}
use peer.Options.{Status, kit_ok, packet_size}
use peer.Options.Error
use peer.Serial.{Bytes}
use peer.Serial.Layout.{memcpy_lem}
use peer.Kit
use peer.Kit.{Kit}
use peer.Sockets.{Sockets, Received, invalid_socket}
use peer.Packet.{Packet}
use peer.Packet.Unpack.{read_bytes-some}
use peer.Pool.{Node, Pool, Remote}
use peer.Pool.Find.{IsExact, Extends, Found}
use peer.Pool.Outcome.{Outcome, failed, found, find_pool_node-Returns, get_elem?-Extends}
use peer.Pool.Tick.{received_packet, receive_bytes, receive_size}

-- What recvfrom and inet_ntop promise: no more bytes than the buffer holds, whose 400 bytes stay,
-- and a text of an IPv4 address.
pub record IsSystem {W : Type 0} (sys : Sockets W) : Type 0 where
  pub exact : IsExact sys
  pub fits : (w : W) (s : ℤ) → (sys.recvfrom w s).0.size ≤ℤ pos 400
  pub buffer : (w : W) (s : ℤ) → length (sys.recvfrom w s).0.buf ≡ 400
  pub names : (a : ℕ) → length (sys.inet_ntop a) ≤ 15

-- A node with a socket.
abbrev pub IsOpen : Pool → ℕ → Type 0
IsOpen pool i =
    (node : Node) × (get_elem? pool i ≡ some node) × ((node.socket ==ℤ invalid_socket) ≡ false)

-- A packet that has come: between a node without a socket and one with a socket, of 1 to 400 bytes
-- in a buffer of 400.
pub record IsReceived (pool : Pool) (p : Packet) : Type 0 where
  pub to : ℕ
  pub destination_is : p.destination_id ≡ pos to
  pub to_open : IsOpen pool to
  pub from : ℕ
  pub source_is : p.source_id ≡ pos from
  pub sender : Node
  pub sender_is : get_elem? pool from ≡ some sender
  pub sender_closed : sender.socket ≡ invalid_socket
  pub bytes : ℕ
  pub size_is : p.size ≡ pos bytes
  pub size_low : 0 < bytes
  pub size_high : bytes ≤ 400
  pub body_is : length p.body ≡ 400

IsReceived-Extends :
    (pool pool' : Pool) (p : Packet) → Extends pool pool' → IsReceived pool p → IsReceived pool' p
IsReceived-Extends pool pool' p ext h =
    let (node, here, ok) = h.to_open in
    record {
      to = h.to;
      destination_is = h.destination_is;
      to_open = (node, get_elem?-Extends pool pool' h.to node ext here, ok);
      from = h.from;
      source_is = h.source_is;
      sender = h.sender;
      sender_is = get_elem?-Extends pool pool' h.from h.sender ext h.sender_is;
      sender_closed = h.sender_closed;
      bytes = h.bytes;
      size_is = h.size_is;
      size_low = h.size_low;
      size_high = h.size_high;
      body_is = h.body_is;
    }

All-IsReceived :
    (pool pool' : Pool) (ps : List Packet)
    → Extends pool pool'
    → All (IsReceived pool) ps
    → All (IsReceived pool') ps
All-IsReceived pool pool' [] ext h = tt
All-IsReceived pool pool' (p ∷ ps) ext h =
    (IsReceived-Extends pool pool' p ext h.0, All-IsReceived pool pool' ps ext h.1)

-- What a round of the loop leaves: at most one more node, with no socket.
pub record Round (pool : Pool) (packets : List Packet) (result : Status × Pool × List Packet)
    : Type 0 where
  pub more : List Node
  pub grown : result.1 ≡ pool ++ more
  pub few : length more ≤ 1
  pub closed : All (λ n. n.socket ≡ invalid_socket) more
  pub received : All (IsReceived pool) packets → All (IsReceived result.1) result.2

unchanged :
    (pool : Pool) (status : Status) (packets : List Packet)
    → Round pool packets (status, pool, packets)
unchanged pool status packets = record {
  more = [];
  grown = sym (append-nil pool);
  few = omega arith;
  closed = tt;
  received = λ h. h;
}

-- A pool in which an address has been found, and the packets as they were.
searched :
    (pool pool' : Pool) (r : Remote) (id : ℕ) (status : Status) (packets : List Packet)
    → Found pool r id pool'
    → Round pool packets (status, pool', packets)
searched pool pool' r id status packets f = record {
  more = f.extends.0;
  grown = f.extends.1;
  few = f.few;
  closed = f.closed;
  received = All-IsReceived pool pool' packets f.extends;
}

-- The same, and a packet from that address.
taken_in :
    (pool pool' : Pool) (r : Remote) (id i n : ℕ) (status : Status) (packets : List Packet)
    (p : Packet)
    → Found pool r id pool'
    → IsOpen pool i
    → 0 < n
    → n ≤ 400
    → (p.source_id ≡ pos id) × (p.destination_id ≡ pos i) × (p.size ≡ pos n) × (length p.body ≡ 400)
    → Round pool packets (status, pool', packets ++ p ∷ [])
taken_in pool pool' r id i n status packets p f (node, here, ok) low high (src, dst, size, body) =
    record {
      more = f.extends.0;
      grown = f.extends.1;
      few = f.few;
      closed = f.closed;
      received = λ h.
          All-append (IsReceived pool') packets (p ∷ [])
            (All-IsReceived pool pool' packets f.extends h) (new, tt);
    }
  where
    new : IsReceived pool' p
    new = record {
      to = i;
      destination_is = dst;
      to_open = (node, get_elem?-Extends pool pool' i node f.extends here, ok);
      from = id;
      source_is = src;
      sender = f.node;
      sender_is = f.here;
      sender_closed = f.is_for.socket_is;
      bytes = n;
      size_is = size;
      size_low = low;
      size_high = high;
      body_is = body;
    }

module _ {W : Type 0} (kit : Kit) (sys : Sockets W) (known : IsSystem sys) where
  received_packet-some :
      (id : ℤ) (i n : ℕ) (buf : Bytes)
      → n ≤ 400
      → length buf ≡ 400
      → Returns
          (λ p.
            (p.source_id ≡ id)
            × (p.destination_id ≡ pos i)
            × (p.size ≡ pos n)
            × (length p.body ≡ 400))
          (received_packet kit sys id i n buf)
  unfolding received_packet
  received_packet-some id i n buf le whole =
      let size : length (take n buf) ≡ n = omega (arith, length-take n buf) in
      let zeros = replicate packet_size 0 in
      (
        record {
          source_id = id;
          destination_id = pos i;
          size = pos n;
          body = take n buf ++ drop (length (take n buf)) zeros;
        },
        rw (
          read_bytes-some n buf (omega arith),
          memcpy_lem (take n buf) zeros (omega (arith, size)),
        ),
        (
          refl,
          refl,
          refl,
          omega (
            arith,
            size,
            length-append (take n buf) (drop (length (take n buf)) zeros),
            length-drop (length (take n buf)) zeros,
          ),
        ),
      )

  receive_bytes-Round :
      (i : ℕ) (node : Node) (r : Received) (n : ℕ) (pool : Pool) (status : Status)
      (packets : List Packet)
      → IsOpen pool i
      → length (sys.inet_ntop r.remote.address) ≤ 15
      → length r.buf ≡ 400
      → 0 < n
      → n ≤ 400
      → Returns (Round pool packets) (receive_bytes kit sys i node r n pool status packets)
  unfolding receive_bytes
  receive_bytes-Round i node r n pool status packets open_i name whole low high =
      let who : Remote = record {
        protocol = node.protocol;
        port = sys.ntohs r.remote.port;
        address = sys.inet_ntop r.remote.address;
        inside = false;
      } in
      Returns-bind _ _
        (find_pool_node-Returns kit sys known.exact who (omega (arith, name)) pool refl) (go who)
    where
      go :
          (who : Remote) (a : Status × ℤ × Pool)
          → Outcome pool who a
          → Returns (Round pool packets) (
              if not (a.0 == kit_ok)
              then some (bit_or status a.0, a.2, packets)
              else (if not (kit.fits Kit.packets (length packets + 1))
                  then some (bit_or status Error.bad_alloc, a.2, packets)
                  else (received_packet kit sys a.1 i n r.buf >>= λ p.
                      some (status, a.2, packets ++ p ∷ []))))
      go who a (failed bad same) =
          Returns-cases (not (a.0 == kit_ok)) _ _
            (λ _. (_, refl, rw same (unchanged pool (bit_or status a.0) packets)))
            (λ e. absurd (bad (ground arith)))
      go who a (found id ok is f) =
          Returns-cases (not (a.0 == kit_ok)) _ _ (λ e. absurd (ground arith))
            (λ _.
              Returns-if (not (kit.fits Kit.packets (length packets + 1))) _ _
                (_, refl, searched pool a.2 who id _ packets f)
                (Returns-bind _ _ (received_packet-some a.1 i n r.buf high whole) λ p h. (
                  _,
                  refl,
                  taken_in pool a.2 who id i n status packets p f open_i low high
                      (h.0 ∙ is, h.1, h.2, h.3),
                )))

  pub receive_size-Round :
      (i : ℕ) (node : Node) (r : Received) (size : ℤ) (pool : Pool) (status : Status)
      (packets : List Packet)
      → IsOpen pool i
      → length (sys.inet_ntop r.remote.address) ≤ 15
      → length r.buf ≡ 400
      → size ≤ℤ pos 400
      → Returns (Round pool packets) (receive_size kit sys i node r size pool status packets)
  unfolding receive_size
  receive_size-Round i node r (negsuc n) pool status packets open_i name whole le =
      (_, refl, unchanged pool status packets)
  receive_size-Round i node r (pos n) pool status packets open_i name whole le =
      Returns-cases (n == 0) _ _ (λ _. (_, refl, unchanged pool status packets))
        λ some_bytes.
          receive_bytes-Round i node r n pool status packets open_i name whole (ground arith)
            (omega arith)
