-- ===== src/Peer/Delivery/Tests/Ticked.antt =====
-- A host with a message of its own takes in one of its client, and sends both.
use peer.Prelude.{
  ℕ, zero, suc, ◌+◌, ◌≡◌, refl, subst, [], ◌∷◌, ◌++◌, some, arith, get_elem?, replicate,
}
use peer.Prelude.Int.{pos, ◌+ℤ◌, ◌-ℤ◌}
use peer.Options.{kit_ok}
use peer.Serial.{
  memcpy, at, write_u8, write_u16, write_u32, write_u64, read_message_size, write_message,
  write_message_size, write_message_mode,
}
use peer.Packet.{Packet, pack, pack_loop, open_packet, pack_end, on_last, write_header, copy_chunk}
use peer.Queue.{Message, Queue, queue_append}
use peer.Queue.View.{ready, lookup}
use peer.Peer.{Slot, SlotState, Peer, host, new_slot}
use peer.Peer.Delivery.Sent.{IsSendable}
use peer.Peer.Delivery.Ticked.{tick-input_complete}
use peer.Peer.Delivery.Tests.{ample, counter, first, first-IsSent, newcomer, newcomer-IsClient}
use peer.Peer.Input.{input}
use peer.Peer.Input.Mutual.{Agrees}
use peer.Peer.Receive.Mutual.{IsSent}
use peer.Peer.Send.Trail.{chunk_at}
use peer.Peer.Send.{
  queue_pack, pack_with_trail, append_trail, append_scatter, message_chunks, message_chunk,
  trail_length, scatter_distance,
}
use peer.Peer.Tick.{
  tick, tick_as, tick_host, advance, synchronize, set_times, send_all, collect_slots, collect,
  send_slots, send_slot, send_ready,
}
use peer.Peer.Tick.Collect.{come}

abbrev second : Message
second = ready (pos 30) (pos 1) (43 ∷ [])

abbrev both : Queue
both = first ∷ second ∷ []

-- The client has said 43.
abbrev slot : Slot
slot = record (new_slot host 1 (pos 30)) {
  state = SlotState.ready;
  remote = record (new_slot host 1 (pos 30)).remote { id = pos 20 };
  queue = ready (pos 0) (pos 1) (43 ∷ []) ∷ [];
}

abbrev entry : Slot
entry = new_slot host 0 (pos 19)

abbrev server : Peer ℕ
server = record {
  mode = host;
  time = pos 10;
  time_local = pos 10;
  actor = pos 0;
  slots = entry ∷ slot ∷ [];
  queue = first ∷ [];
  queue_index = 1;
  mt64 = 5;
}

-- 20 ms later.
abbrev later : Peer ℕ
later = record server {
  time = pos 30;
  time_local = pos 30;
  slots = entry ∷ record slot { in_index = 1; out_index = 2; clock_heartbeat = pos 10 } ∷ [];
  queue = both;
  queue_index = 2;
}

abbrev sent_both : Packet
sent_both = record {
  source_id = pos 30;
  destination_id = pos 20;
  size = pos 77;
  body =
      replicate 13 0 ++ (77 ∷ 0 ∷ []) ++ chunk_at 0 first ++ chunk_at 1 second ++ replicate 323 0;
}

server-tick : tick ample counter server (pos 20) ≡ some (kit_ok, later, sent_both ∷ [])
unfolding queue_pack pack_with_trail append_trail append_scatter message_chunks message_chunk
    trail_length scatter_distance pack pack_loop open_packet pack_end on_last write_header
    copy_chunk memcpy at write_u8 write_u16 write_u32 write_u64 read_message_size write_message
    write_message_size write_message_mode tick tick_as tick_host advance synchronize set_times
    send_all collect_slots collect send_slots send_slot send_ready queue_append ◌+ℤ◌ ◌-ℤ◌
server-tick = refl

second-IsSent : IsSent 1 second
second-IsSent = record {
  is_ready = refl;
  index_in = omega arith;
  time_in = omega arith;
  actor = 1;
  actor_is = refl;
  actor_in = omega arith;
  small = omega arith;
}

both-IsSendable : IsSendable both
both-IsSendable zero m e = let same : first ≡ m = cc in subst (IsSent 0) same first-IsSent
both-IsSendable (suc zero) m e = let same : second ≡ m = cc in subst (IsSent 1) same second-IsSent
both-IsSendable (suc (suc j)) m e = absurd (cc)

newcomer-Agrees : Agrees both newcomer.queue
unfolding lookup
newcomer-Agrees j m e = absurd (cc)

tick-input_complete_example :
    (both ≡ both)
    × (c' : Peer ℕ) × (input ample newcomer (sent_both ∷ []) ≡ some (kit_ok, c'))
    × ((k : ℕ) → lookup c'.queue (0 + k) ≡ get_elem? both (0 + k))
unfolding set_times come ◌+ℤ◌ ◌-ℤ◌
tick-input_complete_example =
    tick-input_complete ample ample counter (λ a n. refl) (λ a n. refl) server later (pos 20) entry
      slot both (sent_both ∷ []) (sent_both ∷ []) newcomer refl refl refl refl refl refl
      both-IsSendable (omega arith) server-tick ((0, refl), tt) ((0, refl), tt) newcomer-IsClient
      newcomer-Agrees
