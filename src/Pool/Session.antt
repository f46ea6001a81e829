-- ===== src/Pool/Session.antt =====
-- source/peer/socket_pool.c and peer.c: a host tells a client the port that it has opened for it,
-- and the client finds the node of that port.
use peer.Prelude.{
  ℕ, ◌+◌, ◌-◌, ◌*◌, ◌/◌, ◌%◌, ◌^◌, ◌≤◌, ◌<◌, ◌≡◌, refl, ap, ◌∙◌, true, false, not, ◌&&◌, ltb, [],
  ◌∷◌, Bool, Option, ◌++◌, some, ◌>>=◌, arith, bit_or, length, length-take, length-drop, get_elem?,
  take, drop,
}
use peer.Prelude.Bits.{bit_or_high}
use peer.Prelude.Int.{ℤ, pos}
use peer.Options.{Status, kit_ok}
use peer.Serial.{Bytes, memcpy, read_u8, read_u16}
use peer.Serial.Layout.{memcpy_lem}
use peer.Serial.Message.{IsInt64}
use peer.Kit
use peer.Kit.{Kit}
use peer.Sockets.{Sockets}
use peer.Peer.{Endpoint, Slot, Peer}
use peer.Peer.Receive.{client_chunk}
use peer.Peer.Receive.Session.{joined, met, session_response_chunk-client_chunk}
use peer.Peer.Tick.{session_response_chunk}
use peer.Pool.{Node, Pool, Remote, udp_ipv4, find_pool_node}
use peer.Pool.Find.{IsExact, Found, find_pool_node_lem}
use peer.Pool.Resolve.{
  port_bytes, is_unresolved, set_local_address, set_remote_node, resolve_address, identify,
  resolve_port, read_protocol, read_port, resolve_id, resolve_slot, resolve_slots, resolve,
}

port_back : (n : ℕ) → n < 2 ^ 16 → bit_or (n % 256) (n / 256 % 256 * 2 ^ 8) ≡ n
port_back n small = bit_or_high 8 (n % 256) (n / 256 % 256) (omega arith) ∙ omega arith

-- The address of a local endpoint once it has the port of its node.
abbrev with_port : ℕ → Endpoint → Endpoint
with_port port e = record e {
  address_size = 3;
  address_data = port_bytes udp_ipv4 port ++ drop 3 e.address_data;
  is_address_resolved = true;
}

set_local_address_lem :
    (node : Node) (e : Endpoint)
    → node.protocol ≡ udp_ipv4
    → length e.address_data ≡ 64
    → set_local_address node e ≡ some (with_port node.local_port e)
unfolding set_local_address
set_local_address_lem node e udp whole =
    ap (λ p. memcpy (port_bytes p node.local_port) e.address_data >>= resolved) udp
    ∙ ap (λ d. d >>= resolved)
        (memcpy_lem (port_bytes udp_ipv4 node.local_port) e.address_data (omega (arith, whole)))
  where
    resolved : Bytes → Option Endpoint
    resolved address_data =
        some
          (record e { address_size = 3; address_data = address_data; is_address_resolved = true })

-- An address that is looked for in the node `server`, with another port.
abbrev pub at_port : Node → ℕ → Remote
at_port server port = record {
  protocol = udp_ipv4;
  port = port;
  address = take server.remote_address_size server.remote_address;
  inside = true;
}

module _ {W : Type 0} (kit : Kit) (sys : Sockets W) where
  resolve_port_lem :
      (pool pool' : Pool) (id : ℤ) (i j n : ℕ) (rest : Bytes) (resolved : Bool) (server : Node)
      → id ≡ pos i
      → get_elem? pool i ≡ some server
      → n < 2 ^ 16
      → find_pool_node kit sys pool (at_port server n) ≡ some (kit_ok, pos j, pool')
      → let e : Endpoint = record {
        id = id;
        is_id_resolved = false;
        is_address_resolved = resolved;
        address_size = 3;
        address_data = port_bytes udp_ipv4 n ++ rest;
      } in
        resolve_port kit sys pool e
        ≡ some (kit_ok, pool', record e { id = pos j; is_id_resolved = true })
  unfolding resolve_port identify read_protocol read_port read_u8 read_u16
  resolve_port_lem pool pool' id i j n rest resolved server id_is here small found =
      rw (id_is, here, port_back n small, found) (ground arith)

resolve_address_resolved :
    (set : Node → Endpoint → Option Endpoint) (pool : Pool) (e : Endpoint)
    → e.is_address_resolved ≡ true
    → resolve_address set pool e ≡ some (kit_ok, e)
unfolding resolve_address
resolve_address_resolved set pool e resolved =
    let due : is_unresolved e.is_address_resolved e.id ≡ false =
      ap (λ b. is_unresolved b e.id) resolved in
    rw due refl

module _ {W : Type 0} (kit : Kit) (sys : Sockets W) where
  resolve_id_resolved :
      (pool : Pool) (e : Endpoint)
      → e.is_id_resolved ≡ true
      → resolve_id kit sys pool e ≡ some (kit_ok, pool, e)
  unfolding resolve_id
  resolve_id_resolved pool e resolved =
      let due : (not e.is_id_resolved && ltb 3 e.address_size) ≡ false =
        ap (λ b. not b && ltb 3 e.address_size) resolved in
      rw due refl

module _ {W R : Type 0} (kit : Kit) (sys : Sockets W) where
  -- A peer of one slot, whose addresses are resolved, is resolved by the port.
  resolve_one :
      (pool pool' : Pool) (peer : Peer R) (slot : Slot) (r : Endpoint)
      → slot.local.is_address_resolved ≡ true
      → slot.remote.is_address_resolved ≡ true
      → resolve_port kit sys pool slot.remote ≡ some (kit_ok, pool', r)
      → r.is_id_resolved ≡ true
      → resolve kit sys pool (record peer { slots = slot ∷ [] })
        ≡ some (kit_ok, pool', record peer { slots = record slot { remote = r } ∷ [] })
  unfolding resolve resolve_slots resolve_slot
  resolve_one pool pool' peer slot r local remote port known =
      rw
        (
          resolve_address_resolved set_local_address pool slot.local local,
          resolve_address_resolved set_remote_node pool slot.remote remote,
          port,
          resolve_id_resolved kit sys pool' r known,
        )
        refl

module _ {W R : Type 0} (kit : Kit) (sys : Sockets W) (exact : IsExact sys) where
  -- A host gives a slot's local endpoint the port of its node, and answers the slot's session
  -- request; its client, which has that one slot, takes the answer without an error, and
  -- resolve_address_and_id looks for the port in the client's own pool: it succeeds, finds a node
  -- for that port at the address of the server that it has asked, and makes the id of that node the
  -- one of the slot's remote peer, with nothing else of the peer changed. The conditions are that
  -- the host's port is one of UDP over IPv4; that the client has resolved both addresses of its
  -- slot before, as it does from when they have ids, so that the answer's address is not written
  -- over; that the slot has the id of a node that has the server's address, of up to 62 bytes; that
  -- the arrays for addresses have 64 bytes, and the actor id and the time are ones that a message
  -- can carry; that the comparison of strings is exact; and that there is memory for a node, which
  -- does not move the others.
  pub session-resolve_port :
      (time : ℤ) (node : Node) (slot : Slot) (actor : ℕ) (status : Status) (peer : Peer R)
      (port : Slot) (pool : Pool) (i : ℕ) (server : Node)
      → node.protocol ≡ udp_ipv4
      → node.local_port < 2 ^ 16
      → length slot.local.address_data ≡ 64
      → slot.actor ≡ pos actor
      → actor < 2 ^ 32 - 1
      → IsInt64 time
      → length port.remote.address_data ≡ 64
      → port.local.is_address_resolved ≡ true
      → port.remote.is_address_resolved ≡ true
      → port.remote.id ≡ pos i
      → get_elem? pool i ≡ some server
      → server.remote_address_size ≤ 62
      → kit.fits Kit.nodes (length pool + 1) ≡ true
      → sys.moves (length pool + 1) ≡ false
      → (local : Endpoint) × (c : Bytes) × (peer' : Peer R) × (port' : Slot) × (j : ℕ)
        × (pool' : Pool) × (set_local_address node slot.local ≡ some local)
        × (session_response_chunk kit time (record slot { local = local }) ≡ some c)
        × (client_chunk kit c status peer port ≡ some (status, peer', port'))
        × (resolve kit sys pool (record peer' { slots = port' ∷ [] })
            ≡ some (
              kit_ok,
              pool',
              record peer' {
                slots =
                    record port' {
                      remote = record port'.remote { id = pos j; is_id_resolved = true };
                    }
                    ∷ [];
              },
            ))
        × Found pool (at_port server node.local_port) j pool'
  session-resolve_port time node slot actor status peer port pool i server udp low room who known
        in_time client_room local_known remote_known id_is here small fits still =
      let local = with_port node.local_port slot.local in
      let bytes = port_bytes udp_ipv4 node.local_port in
      let (c, made, taken, _) =
        session_response_chunk-client_chunk kit time (record slot { local = local }) actor status
          peer port (omega arith) (omega (arith, length-drop 3 slot.local.address_data, room)) who
          known in_time client_room in
      let (j, pool', found, is_for, _) =
        find_pool_node_lem kit sys exact pool (at_port server node.local_port) refl
          (omega (arith, length-take server.remote_address_size server.remote_address, small)) fits
          still in
      (
        local,
        c,
        joined time actor peer,
        met actor bytes port,
        j,
        pool',
        set_local_address_lem node slot.local udp room,
        made,
        taken,
        resolve_one kit sys pool pool' (joined time actor peer) (met actor bytes port) _ local_known
            remote_known
            (resolve_port_lem kit sys pool pool' port.remote.id i j node.local_port
              (drop 3 port.remote.address_data) port.remote.is_address_resolved server id_is here
              low found)
            refl,
        is_for,
      )
