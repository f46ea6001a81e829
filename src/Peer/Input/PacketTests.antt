-- ===== src/Peer/Input/PacketTests.antt =====
-- A host that is sent a message, and one that says that it has 10 bytes.
use peer.Prelude.{
  ℕ, ◌-◌, ◌^◌, ◌≡◌, refl, sym, ◌∙◌, subst, true, List, [], ◌∷◌, ◌++◌, some, none, replicate, arith,
  find_index, All,
}
use peer.Prelude.Int.{pos, ltb_ℤ}
use peer.Prelude.Post.{Post, post_some}
use peer.Options.{Status, kit_ok}
use peer.Serial.{
  Bytes, read_message_size, read_message_data_size, read_message_mode, read_message_index,
  read_message_time, read_message_actor, read_u8, read_u16, read_u32, read_u64,
}
use peer.Kit.{Kit}
use peer.Packet.{Packet, read_bytes, unpack, unpack_from, unpack_packet, unpack_loop}
use peer.Peer.{Slot, SlotState, Peer, host, new_slot}
use peer.Peer.Receive.{Fields, read_fields}
use peer.Peer.Receive.Total.{HasRoom, FitsQueue}
use peer.Peer.Input.{is_for, is_from, input}
use peer.Peer.Input.Total.{IsTakeable, AllTakeable, input_total}
use peer.Peer.Input.Faults.{input-short}

-- Memory that is never short.
abbrev ample : Kit
ample = record { fits = λ a n. true; byte = λ i. 0xcc; word = pos 7 }

-- The host's own slot, and that of the client 30 with the actor 1.
abbrev entry : Slot
entry = new_slot host 0 (pos 19)

abbrev linked : Slot
linked = record (new_slot host 1 (pos 20)) {
  state = SlotState.ready;
  remote = record (new_slot host 1 (pos 20)).remote { id = pos 30; is_id_resolved = true };
}

abbrev server : Peer ℕ
server = record {
  mode = host;
  time = pos 100;
  time_local = pos 100;
  actor = pos 0;
  slots = entry ∷ linked ∷ [];
  queue = [];
  queue_index = 0;
  mt64 = 0;
}

-- A message of the client with the index 0 and the byte 42.
abbrev message_bytes : Bytes
message_bytes = replicate 8 0 ++ (31 ∷ 4 ∷ []) ++ replicate 16 0 ++ (1 ∷ 0 ∷ 0 ∷ 0 ∷ 42 ∷ [])

abbrev from_client : Bytes → Packet
from_client bytes = record {
  source_id = pos 30;
  destination_id = pos 20;
  size = pos 46;
  body = replicate 15 0 ++ bytes ++ replicate 354 0;
}

message_chunk : unpack ample (from_client message_bytes ∷ []) [] ≡ some (kit_ok, message_bytes ∷ [])
unfolding unpack unpack_from unpack_packet unpack_loop read_bytes read_message_size read_u16
message_chunk = refl

abbrev message_fields : Fields
message_fields = record { data_size = pos 1; mode = 1; index = pos 0; time = pos 0; actor = 1 }

message_read : read_fields message_bytes ≡ some message_fields
unfolding read_fields read_message_size read_message_data_size read_message_mode read_message_index
    read_message_time read_message_actor read_u8 read_u16 read_u32 read_u64
message_read = refl

message-FitsQueue : FitsQueue message_bytes
message-FitsQueue f e sent =
    let found : some message_fields ≡ some f = sym message_read ∙ e in
    let same : message_fields ≡ f = cc in
    subst (λ (g : Fields). ltb_ℤ g.index (pos (2 ^ 63 - 1)) ≡ true) same refl

message-AllTakeable : AllTakeable ample host (from_client message_bytes)
message-AllTakeable =
    subst (Post (λ (r : Status × List Bytes). All (IsTakeable host) r.1)) (sym message_chunk)
      (post_some ((omega arith, message-FitsQueue), tt))

input_total_example :
    (status : Status) × (q : Peer ℕ) × (input ample server (from_client message_bytes ∷ [])
      ≡ some (status, q))
    × All HasRoom q.slots
input_total_example =
    input_total ample server (from_client message_bytes ∷ []) (refl, tt) (message-AllTakeable, tt)
      (refl, (refl, tt))

-- The same message with the size 10.
abbrev short_bytes : Bytes
short_bytes = replicate 8 0 ++ (10 ∷ 4 ∷ []) ++ replicate 21 0

found : find_index (is_for (from_client short_bytes)) 0 server.slots ≡ some 1
unfolding find_index
found = refl

found_from : find_index (is_from (from_client short_bytes)) 0 server.slots ≡ some 1
unfolding find_index
found_from = refl

short_size : read_message_size (short_bytes ++ replicate 354 0) ≡ some 10
unfolding read_message_size
short_size = refl

input-short_example : input ample server (from_client short_bytes ∷ []) ≡ none
input-short_example =
    input-short ample (λ a n. refl) server (from_client short_bytes) [] 1 1 46 10 linked found
      found_from refl refl (omega arith) (omega arith) refl short_size (omega arith) (omega arith)
