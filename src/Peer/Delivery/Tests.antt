-- ===== src/Peer/Delivery/Tests.antt =====
-- A client that gets a packet with a message of its host twice.
mod Ticked
use peer.Prelude.{
  ℕ, ◌+◌, ◌≡◌, refl, subst, true, [], ◌∷◌, ◌++◌, some, arith, get_elem?, replicate, find_index,
}
use peer.Prelude.Int.{pos}
use peer.Options.{kit_ok}
use peer.Serial.{
  memcpy, at, write_u8, write_u16, write_u32, write_u64, read_message_size, write_message,
  write_message_size, write_message_mode,
}
use peer.Kit.{Kit}
use peer.Packet.{Packet, pack, pack_loop, open_packet, pack_end, on_last, write_header, copy_chunk}
use peer.Queue.{Message, Queue}
use peer.Queue.View.{ready, lookup}
use peer.Peer.{Slot, Peer, host, client, new_slot}
use peer.Peer.Delivery.{IsClient}
use peer.Peer.Delivery.Sent.{IsSendable, AreAmong, input-Agrees, input_complete}
use peer.Peer.Delivery.ToHost.{HasSlot, input_complete_host}
use peer.Peer.Input.{input}
use peer.Peer.Input.FromClient.{IsOf}
use peer.Peer.Input.Mutual.{Agrees}
use peer.Peer.Receive.Mutual.{IsSent}
use peer.Peer.Send.Trail.{chunk_at}
use peer.Peer.Send.{
  queue_pack, pack_with_trail, append_trail, append_scatter, message_chunks, message_chunk,
  trail_length, scatter_distance,
}

-- Memory that is never short.
abbrev ample : Kit
ample = record { fits = λ a n. true; byte = λ i. 0xcc; word = pos 7 }

abbrev counter : ℕ → ℕ × ℕ
counter r = (r, r + 1)

abbrev first : Message
first = ready (pos 10) (pos 1) (42 ∷ [])

abbrev history : Queue
history = first ∷ []

first-IsSent : IsSent 0 first
first-IsSent = record {
  is_ready = refl;
  index_in = omega arith;
  time_in = omega arith;
  actor = 1;
  actor_is = refl;
  actor_in = omega arith;
  small = omega arith;
}

history-IsSendable : IsSendable history
history-IsSendable ℕ.zero m e = let same : first ≡ m = cc in subst (IsSent 0) same first-IsSent
history-IsSendable (ℕ.suc j) m e = absurd (cc)

-- The packet that is sent.
abbrev sent : Packet
sent = record {
  source_id = pos 30;
  destination_id = pos 20;
  size = pos 46;
  body = replicate 13 0 ++ (46 ∷ 0 ∷ []) ++ chunk_at 0 first ++ replicate 354 0;
}

packed_history :
    queue_pack ample counter history 0 (pos 30) (pos 20) [] 5 ≡ some (kit_ok, sent ∷ [], 5)
unfolding queue_pack pack_with_trail append_trail append_scatter message_chunks message_chunk
    trail_length scatter_distance pack pack_loop open_packet pack_end on_last write_header
    copy_chunk memcpy at write_u8 write_u16 write_u32 write_u64 read_message_size write_message
    write_message_size write_message_mode
packed_history = refl

abbrev port : Slot
port = record (new_slot client 0 (pos 20)) {
  remote = record (new_slot client 0 (pos 20)).remote { id = pos 30 };
}

abbrev newcomer : Peer ℕ
newcomer = record {
  mode = client;
  time = pos 20;
  time_local = pos 25;
  actor = pos 1;
  slots = port ∷ [];
  queue = [];
  queue_index = 0;
  mt64 = 0;
}

newcomer-IsClient : IsClient (pos 30) (pos 20) newcomer
unfolding find_index
newcomer-IsClient = record {
  mode_is = refl;
  place = 0;
  slot = port;
  slot_is = refl;
  first = 0;
  for_us = refl;
  from_them = refl;
}

newcomer-Agrees : Agrees history newcomer.queue
unfolding lookup
newcomer-Agrees j m e = absurd (cc)

twice : AreAmong (sent ∷ []) (sent ∷ sent ∷ [])
twice = ((0, refl), ((0, refl), tt))

once : AreAmong (sent ∷ sent ∷ []) (sent ∷ [])
once = ((1, refl), tt)

input-Agrees_example :
    (peer' : Peer ℕ) × (input ample newcomer (sent ∷ sent ∷ []) ≡ some (kit_ok, peer'))
    × Agrees history peer'.queue
input-Agrees_example =
    input-Agrees ample ample counter (λ a n. refl) (λ a n. refl) history history-IsSendable 0
      (pos 30) (pos 20) 5 5 (omega arith) (sent ∷ []) packed_history (sent ∷ sent ∷ []) twice
      newcomer newcomer-IsClient newcomer-Agrees

input_complete_example :
    (peer' : Peer ℕ) × (input ample newcomer (sent ∷ sent ∷ []) ≡ some (kit_ok, peer'))
    × ((k : ℕ) → lookup peer'.queue (0 + k) ≡ get_elem? history (0 + k))
input_complete_example =
    input_complete ample ample counter (λ a n. refl) (λ a n. refl) history history-IsSendable 0
      (pos 30) (pos 20) 5 5 (omega arith) (sent ∷ []) packed_history (sent ∷ sent ∷ []) twice
      newcomer newcomer-IsClient newcomer-Agrees once

-- A message of a client, and the host that gets it.
abbrev asked : Message
asked = ready (pos 0) (pos 1) (42 ∷ [])

abbrev asking : Queue
asking = asked ∷ []

asking-IsSendable : IsSendable asking
asking-IsSendable ℕ.zero m e =
    let same : asked ≡ m = cc in
    subst (IsSent 0) same (record {
      is_ready = refl;
      index_in = omega arith;
      time_in = omega arith;
      actor = 1;
      actor_is = refl;
      actor_in = omega arith;
      small = omega arith;
    })
asking-IsSendable (ℕ.suc j) m e = absurd (cc)

asking-IsOf : IsOf (pos 1) asking
asking-IsOf ℕ.zero m e =
    let same : asked ≡ m = cc in
    subst (λ (x : Message). (x.time ≡ pos 0) × (x.actor ≡ pos 1)) same (refl, refl)
asking-IsOf (ℕ.suc j) m e = absurd (cc)

abbrev request : Packet
request = record sent {
  body = replicate 13 0 ++ (46 ∷ 0 ∷ []) ++ chunk_at 0 asked ++ replicate 354 0;
}

packed_asking :
    queue_pack ample counter asking 0 (pos 30) (pos 20) [] 5 ≡ some (kit_ok, request ∷ [], 5)
unfolding queue_pack pack_with_trail append_trail append_scatter message_chunks message_chunk
    trail_length scatter_distance pack pack_loop open_packet pack_end on_last write_header
    copy_chunk memcpy at write_u8 write_u16 write_u32 write_u64 read_message_size write_message
    write_message_size write_message_mode
packed_asking = refl

abbrev linked : Slot
linked = record port { actor = pos 1 }

abbrev server : Peer ℕ
server = record newcomer { mode = host; slots = new_slot host 0 (pos 19) ∷ linked ∷ [] }

server-HasSlot : HasSlot (pos 30) (pos 20) 1 linked server
unfolding find_index
server-HasSlot = record {
  mode_is = refl;
  slot_is = refl;
  first = 1;
  for_us = refl;
  from_them = refl;
}

linked-Agrees : Agrees asking linked.queue
unfolding lookup
linked-Agrees j m e = absurd (cc)

input_complete_host_example :
    (peer' : Peer ℕ) × (queue : Queue) × (input ample server (request ∷ request ∷ [])
      ≡ some (kit_ok, peer'))
    × (get_elem? peer'.slots 1 ≡ some (record linked { queue = queue }))
    × ((k : ℕ) → lookup queue (0 + k) ≡ get_elem? asking (0 + k))
input_complete_host_example =
    input_complete_host ample ample counter (λ a n. refl) (λ a n. refl) asking asking-IsSendable 0
      (pos 30) (pos 20) 5 5 (omega arith) (request ∷ []) packed_asking (request ∷ request ∷ [])
      ((0, refl), ((0, refl), tt)) ((1, refl), tt) server 1 linked server-HasSlot asking-IsOf
      linked-Agrees
