-- ===== src/Pool/Tests.antt =====
-- A pool of two nodes, on a system of concrete answers.
mod Session
use peer.Prelude.{
  ℕ, ◌≡◌, refl, subst, ap₂, Bool, true, false, ◌&&◌, List, [], ◌∷◌, ◌++◌, some, none, arith, ◌==◌,
  length, replicate, All, find_index,
}
use peer.Prelude.Int.{pos, ◌+ℤ◌, ◌-ℤ◌, int_laws}
use peer.Options.{kit_ok, undefined}
use peer.Options.Error
use peer.Serial.{Bytes, memcpy}
use peer.Kit.{Kit}
use peer.Sockets.{Sockets, invalid_socket}
use peer.Packet.{Packet, read_bytes}
use peer.Queue.View.{ready}
use peer.Peer.Input.{input, input_from, input_packet}
use peer.Peer.Log.{IsHost}
use peer.Peer.Tick.{tick, tick_as, tick_host, advance, synchronize, set_times, send_all}
use peer.Peer.{Endpoint, Slot, SlotState, Peer, host}
use peer.Pool.{
  Node, Pool, Remote, any_port, udp_ipv4, is_remote, add_node, remote_node, find_pool_node,
}
use peer.Pool.Find.{IsExact, Extends, Found, find_pool_node_lem}
use peer.Pool.Outcome.{find_pool_node-separates}
use peer.Pool.Open.{pool_open}
use peer.Pool.Open.Faults.{close_zero, pool_open-closes_zero}
use peer.Pool.Open.Outcome.{OpenOutcome, pool_open-OpenOutcome}
use peer.Pool.Resolve.{resolve, resolve_slots}
use peer.Pool.Resolve.Faults.{resolve-overflow}
use peer.Pool.Tick.{
  pool_tick, pool_tick_on, receive, receive_nodes, receive_node, receive_size, receive_bytes,
  received_packet, send_packets,
}
use peer.Pool.Tick.Kept.{Served, pool_tick-Served}
use peer.Pool.Tick.Packets.{IsSystem, IsReceived}
use peer.Pool.Tick.Receive.{receive_total}

-- Memory that is never short, and that holds 0xcc where nothing has been written.
abbrev ample : Kit
ample = record { fits = λ a n. true; byte = λ i. 0xcc; word = pos 7 }

equal_bytes : Bytes → Bytes → Bool
equal_bytes [] [] = true
equal_bytes [] (y ∷ b) = false
equal_bytes (x ∷ a) [] = false
equal_bytes (x ∷ a) (y ∷ b) = (x == y) && equal_bytes a b

-- The state is the sockets that have been closed, the last one first. Every socket has a packet of
-- one byte from the port 9 of the address "1".
abbrev system : Sockets Bytes
system = record {
  socket = λ w. (pos 5, w);
  fcntl_getfl = λ w s. (pos 2, w);
  fcntl_setfl = λ w s flags. (pos 0, w);
  bind = λ w s name. (pos 0, w);
  getsockname = λ w s name. (pos 0, name, w);
  recvfrom = λ w s. (
    record {
      size = pos 1;
      error = pos 0;
      buf = replicate 400 7;
      remote = record { port = 9; address = 1 };
    },
    w,
  );
  sendto = λ w s bytes name. (pos (length bytes), w);
  closesocket = λ w s. 1 ∷ w;
  htons = λ n. n;
  ntohs = λ n. n;
  any_address = 0;
  inet_ntop = λ a. 49 ∷ [];
  inet_pton = λ bytes a. (pos 1, 1);
  o_nonblock = 2048;
  eagain = pos 11;
  equal = equal_bytes;
  moves = λ n. true;
}

equal_bytes_refl : (a : Bytes) → equal_bytes a a ≡ true
unfolding equal_bytes
equal_bytes_refl [] = refl
equal_bytes_refl (x ∷ a) = ground (arith, equal_bytes_refl a)

equal_bytes-eq : (a b : Bytes) → equal_bytes a b ≡ true → a ≡ b
unfolding equal_bytes
equal_bytes-eq [] [] h = refl
equal_bytes-eq [] (y ∷ b) h = absurd (cc)
equal_bytes-eq (x ∷ a) [] h = absurd (cc)
equal_bytes-eq (x ∷ a) (y ∷ b) h =
    let same : x ≡ y = ground arith in
    let rest : equal_bytes a b ≡ true = ground arith in ap₂ ◌∷◌ same (equal_bytes-eq a b rest)

system-IsExact : IsExact system
system-IsExact a b =
    (equal_bytes-eq a b, λ e. subst (λ c. equal_bytes a c ≡ true) e (equal_bytes_refl a))

system-IsSystem : IsSystem system
system-IsSystem = record {
  exact = system-IsExact;
  fits = λ w s. omega arith;
  buffer = λ w s. refl;
  names = λ a. omega arith;
}

-- A socket of this side, and a node for the port 9 of an address.
abbrev here : Node
here = record {
  socket = pos 5;
  protocol = udp_ipv4;
  local_port = 40;
  remote_port = any_port;
  remote_address_size = 0;
  remote_address = replicate 62 0;
}

abbrev there : Bytes → Node
there address = record {
  socket = invalid_socket;
  protocol = udp_ipv4;
  local_port = any_port;
  remote_port = 9;
  remote_address_size = length address;
  remote_address = address;
}

abbrev wanted : ℕ → Remote
wanted port = record { protocol = udp_ipv4; port = port; address = 49 ∷ []; inside = false }

find_pool_node_lem_example :
    (index : ℕ) × (pool' : Pool) × (find_pool_node ample system (here ∷ []) (wanted 9)
      ≡ some (kit_ok, pos index, pool'))
    × Found (here ∷ []) (wanted 9) index pool'
    × ((more : List Node)
        → find_pool_node ample system (pool' ++ more) (wanted 9)
          ≡ some (kit_ok, pos index, pool' ++ more))
find_pool_node_lem_example =
    find_pool_node_lem ample system system-IsExact (here ∷ []) (wanted 9) refl (omega arith) refl
      refl

abbrev with_node : Pool
with_node = here ∷ record (there (49 ∷ replicate 61 0)) { remote_address_size = 1 } ∷ []

first_time : find_pool_node ample system (here ∷ []) (wanted 9) ≡ some (kit_ok, pos 1, with_node)
unfolding find_pool_node find_index is_remote add_node remote_node memcpy equal_bytes
first_time = refl

second_time : find_pool_node ample system with_node (wanted 9) ≡ some (kit_ok, pos 1, with_node)
unfolding find_pool_node find_index is_remote add_node remote_node memcpy equal_bytes
second_time = refl

find_pool_node-separates_example :
    (udp_ipv4 ≡ udp_ipv4) × ((wanted 9).port ≡ (wanted 9).port) × ((wanted 9).address ≡ 49 ∷ [])
find_pool_node-separates_example =
    find_pool_node-separates ample system system-IsExact (here ∷ []) with_node with_node (wanted 9)
      (wanted 9) (pos 1) (omega arith) (omega arith) first_time second_time

receive_total_example :
    (status' : ℕ) × (pool' : Pool) × (packets : List Packet) × (w' : Bytes) × (receive ample system
        (here ∷ here ∷ [])
        kit_ok
        []
      ≡ some (status', pool', packets, w'))
    × Extends (here ∷ here ∷ []) pool'
    × All (IsReceived pool') packets
receive_total_example = receive_total ample system system-IsSystem (here ∷ here ∷ []) kit_ok []

abbrev ids : Endpoint
ids = record {
  id = pos 0;
  is_id_resolved = false;
  is_address_resolved = false;
  address_size = 3;
  address_data = 1 ∷ 80 ∷ 0 ∷ replicate 61 0;
}

abbrev slot : Slot
slot = record {
  state = SlotState.empty;
  local = record ids { id = undefined };
  remote = ids;
  queue = [];
  actor = pos 1;
  in_index = 0;
  out_index = 0;
  clock_heartbeat = pos 0;
}

abbrev alone : List Slot → Peer ℕ
alone slots = record {
  mode = host;
  time = pos 0;
  time_local = pos 0;
  actor = pos 0;
  slots = slots;
  queue = [];
  queue_index = 0;
  mt64 = 0;
}

pool_open-OpenOutcome_example :
    OpenOutcome system 40 with_node
      (alone [])
      (pos 2)
      (pool_open ample system with_node (alone []) udp_ipv4 40 (pos 2) [])
pool_open-OpenOutcome_example =
    pool_open-OpenOutcome ample system (alone []) with_node udp_ipv4 40 (pos 2) []

-- The same system out of sockets.
abbrev no_sockets : Sockets Bytes
no_sockets = record system { socket = λ w. (invalid_socket, w) }

pool_open-closes_zero_example :
    pool_open ample no_sockets with_node (alone []) udp_ipv4 40 (pos 3) []
    ≡ (Error.create_socket_failed, with_node, alone [], close_zero no_sockets 2 [])
pool_open-closes_zero_example =
    pool_open-closes_zero no_sockets ample with_node (alone []) 40 2 [] refl refl

abbrev long : Pool
long = there (replicate 62 49) ∷ []

resolve-overflow_example : resolve ample system long (alone (slot ∷ [])) ≡ none
resolve-overflow_example =
    resolve-overflow ample system long (alone (slot ∷ [])) slot [] 0 (there (replicate 62 49)) refl
      refl refl refl refl refl refl

-- A host with a message that waits, and the host 20 ms later.
abbrev waiting : Peer ℕ
waiting = record (alone []) { queue = ready (pos 0) (pos 0) (42 ∷ []) ∷ [] }

abbrev served : Peer ℕ
served = record (alone []) {
  time = pos 20;
  time_local = pos 20;
  queue = ready (pos 20) (pos 0) (42 ∷ []) ∷ [];
  queue_index = 1;
}

abbrev next_number : ℕ → ℕ × ℕ
next_number n = (n, n)

waiting-IsHost : IsHost waiting
waiting-IsHost = record {
  mode_is = refl;
  index_in = omega arith;
  time_in = omega int_laws;
  all_ready = (refl, tt);
}

-- A packet comes, from an address that is not known yet, for no slot of the host.
ticked :
    pool_tick ample system next_number (here ∷ []) waiting (pos 20) []
    ≡ some (kit_ok, with_node, served, [])
unfolding pool_tick pool_tick_on resolve resolve_slots receive receive_nodes receive_node
    receive_size receive_bytes received_packet find_pool_node find_index is_remote add_node
    remote_node memcpy equal_bytes read_bytes input input_from input_packet tick tick_as tick_host
    advance synchronize set_times send_all send_packets ◌+ℤ◌ ◌-ℤ◌
ticked = refl

pool_tick-Served_example : Extends (here ∷ []) with_node × Served waiting served
pool_tick-Served_example =
    pool_tick-Served ample system next_number system-IsSystem (here ∷ []) with_node waiting served
      (pos 20) kit_ok [] [] waiting-IsHost ticked
