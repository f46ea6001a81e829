-- ===== src/Peer/Tests.antt =====
-- A peer at concrete packets.
use peer.Prelude.{
  All, List, find_index, none, arith, ℕ, ◌≡◌, refl, true, [], ◌∷◌, ◌++◌, some, replicate,
}
use peer.Prelude.Int.{ℤ, negsuc, ◌+ℤ◌, ◌-ℤ◌, pos}
use peer.Options.{kit_ok, undefined}
use peer.Serial.{
  read_message_size, read_message_data_size, read_message_mode, read_message_index,
  read_message_time, read_message_actor, read_u8, read_u16, read_u32, read_u64,
}
use peer.Kit.{Kit}
use peer.Packet.{Packet, unpack, unpack_from, unpack_packet, unpack_loop, read_bytes}
use peer.Queue.{Queue, queue_append, queue_insert, insert_at}
use peer.Queue.View.{ready}
use peer.Peer.{connect, Slot, SlotState, Peer, host, client}
use peer.Peer.Kept.{PeerKept}
use peer.Peer.Setup.{IsTaken, connected, connect-first}
use peer.Peer.Tick.{
  tick_client, tick, tick_as, tick_host, advance, synchronize, set_times, collect_slots, collect,
  send_all, send_slots, send_slot,
}
use peer.Peer.Tick.Total.{CanServe, tick-some}
use peer.Peer.Tick.Faults.{tick_client-none}
use peer.Peer.Tick.Frame.{AfterTick, tick-AfterTick}
use peer.Peer.Tick.Collect.{intake, come, taken_in, synchronize_lem}
use peer.Peer.Input.{input, input_from, input_packet, process, host_chunks}
use peer.Peer.Receive.{host_chunk, read_fields, host_message, read_payload}
use peer.Peer.Input.Frame.{input-PeerKept}

-- Memory that is never short, and that holds 0xcc where nothing has been written.
abbrev ample : Kit
ample = record { fits = λ a n. true; byte = λ i. 0xcc; word = pos 7 }

-- A slot with the id 20 on this side and the peer 30 on the other, and the actor 1.
abbrev linked : Queue → Slot
linked q = record {
  state = SlotState.ready;
  local = record {
    id = pos 20;
    is_id_resolved = true;
    is_address_resolved = true;
    address_size = 4;
    address_data = replicate 64 0;
  };
  remote = record {
    id = pos 30;
    is_id_resolved = true;
    is_address_resolved = true;
    address_size = 4;
    address_data = replicate 64 0;
  };
  queue = q;
  actor = pos 1;
  in_index = 0;
  out_index = 0;
  clock_heartbeat = pos 3;
}

abbrev entry : Slot
entry = record (linked []) {
  local = record (linked []).local { id = pos 19 };
  remote = record (linked []).remote { id = undefined };
}

abbrev host_with : Queue → Peer ℕ
host_with q = record {
  mode = host;
  time = pos 100;
  time_local = pos 100;
  actor = pos 0;
  slots = entry ∷ linked q ∷ [];
  queue = [];
  queue_index = 0;
  mt64 = 0;
}

-- A packet from the peer 30 with one message, of the actor 1, the index 0 and the byte 42.
abbrev message_packet : Packet
message_packet = record {
  source_id = pos 30;
  destination_id = pos 20;
  size = pos 46;
  body =
      replicate 15 0
      ++ replicate 8 0
      ++ (31 ∷ 4 ∷ [])
      ++ replicate 16 0
      ++ (1 ∷ 0 ∷ 0 ∷ 0 ∷ 42 ∷ [])
      ++ replicate 354 0;
}

-- The host takes the message in.
abbrev host_after : Peer ℕ
host_after = host_with (ready (pos 0) (pos 1) (42 ∷ []) ∷ [])

host_input : input ample (host_with []) (message_packet ∷ []) ≡ some (kit_ok, host_after)
unfolding input input_from input_packet find_index process host_chunks unpack unpack_from
    unpack_packet unpack_loop read_bytes read_message_size read_message_data_size read_message_mode
    read_message_index read_message_time read_message_actor read_u8 read_u16 read_u32 read_u64
    host_chunk read_fields host_message read_payload queue_insert insert_at
host_input = refl

input-PeerKept_example : PeerKept (host_with []) host_after
input-PeerKept_example =
    input-PeerKept ample (host_with []) host_after (message_packet ∷ []) kit_ok host_input

-- A host with a client that nothing is sent to, and the host 20 ms later.
abbrev quiet : ℕ → ℤ → Slot
quiet n clock = record (linked (ready (pos 0) (pos 1) (42 ∷ []) ∷ [])) {
  state = SlotState.empty;
  in_index = n;
  clock_heartbeat = clock;
}

abbrev before : Peer ℕ
before = record (host_with []) { slots = entry ∷ quiet 0 (pos 3) ∷ [] }

abbrev after : Peer ℕ
after = record before {
  time = pos 120;
  time_local = pos 120;
  queue = ready (pos 120) (pos 1) (42 ∷ []) ∷ [];
  queue_index = 1;
  slots = record entry { clock_heartbeat = negsuc 16 } ∷ quiet 1 (negsuc 16) ∷ [];
}

host_tick : tick ample (λ (r : ℕ). (r, r)) before (pos 20) ≡ some (kit_ok, after, [])
unfolding tick tick_as tick_host advance synchronize collect_slots collect queue_append set_times
    send_all send_slots send_slot ◌+ℤ◌ ◌-ℤ◌
host_tick = refl

tick-AfterTick_example : AfterTick before after
tick-AfterTick_example =
    tick-AfterTick ample (λ (r : ℕ). (r, r)) before after (pos 20) kit_ok [] (omega arith)
      (omega arith) host_tick

one_new :
    ready (pos 100) (pos 1) (42 ∷ []) ∷ []
    ≡ set_times (pos 100) 0 []
      ++ intake (pos 100) (linked (ready (pos 0) (pos 1) (42 ∷ []) ∷ []) ∷ [])
unfolding set_times come
one_new = refl

-- The host takes in the message of its client.
synchronize_lem_example : synchronize ample (λ (r : ℕ). (r, r)) host_after.slots host_after ≡ (
  kit_ok,
  record host_after {
    time = pos 100;
    queue = ready (pos 100) (pos 1) (42 ∷ []) ∷ [];
    queue_index = 1;
    slots = entry ∷ taken_in (linked (ready (pos 0) (pos 1) (42 ∷ []) ∷ [])) ∷ [];
  },
)
synchronize_lem_example =
    synchronize_lem ample (λ (r : ℕ). (r, r)) host_after entry
      (linked (ready (pos 0) (pos 1) (42 ∷ []) ∷ []) ∷ []) (ready (pos 100) (pos 1) (42 ∷ []) ∷ [])
      (λ a n. refl) one_new

-- A client that has sent its one message and has nothing in its mutual queue.
abbrev lonely : Slot
lonely = record (linked (ready (pos 0) (pos 1) (42 ∷ []) ∷ [])) {
  out_index = 1;
  clock_heartbeat = pos 0;
}

abbrev lonely_client : Peer ℕ
lonely_client = record (host_with []) { mode = client; slots = lonely ∷ [] }

tick_client-none_example : tick_client ample (λ (r : ℕ). (r, r)) (lonely ∷ []) lonely_client ≡ none
tick_client-none_example =
    tick_client-none ample (λ (r : ℕ). (r, r)) lonely_client lonely [] (λ a n. refl) tt refl
      (omega arith) (omega arith)

taken : IsTaken (linked [])
taken e = absurd (cc)

-- The first slot has a remote peer, and the second gets the server's id.
abbrev two_ports : Peer ℕ
two_ports = record (host_with []) { mode = client; slots = linked [] ∷ entry ∷ [] }

connect-first_example :
    connect two_ports (pos 77)
    ≡ (kit_ok, record two_ports { slots = linked [] ∷ connected (pos 77) entry ∷ [] })
connect-first_example =
    connect-first two_ports (pos 77) (linked [] ∷ []) [] entry refl (taken, tt) refl

-- A host with a message that its client has not been sent yet.
abbrev behind : Peer ℕ
behind = record (host_with (ready (pos 0) (pos 1) (42 ∷ []) ∷ [])) {
  queue = ready (pos 90) (pos 0) (43 ∷ []) ∷ [];
  queue_index = 1;
}

behind-CanServe : All (CanServe 1) behind.slots
behind-CanServe = (
  record {
    out_index_in = omega arith;
    messages_small = tt;
    address_small = omega arith;
    address_whole = refl;
  },
  (
    record {
      out_index_in = omega arith;
      messages_small = (omega arith, tt);
      address_small = omega arith;
      address_whole = refl;
    },
    tt,
  ),
)

tick-some_example :
    (q : Peer ℕ) × (packets : List Packet) × (tick ample (λ (r : ℕ). (r, r)) behind (pos 20)
      ≡ some (kit_ok, q, packets))
unfolding ◌-ℤ◌
tick-some_example =
    tick-some ample (λ (r : ℕ). (r, r)) (λ a n. refl) behind (pos 20) refl refl refl
      (omega arith, tt) behind-CanServe
