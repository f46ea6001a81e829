-- ===== src/Peer/Input/Tests.antt =====
-- A client that takes in two messages of its host.
use peer.Prelude.{ℕ, ◌≡◌, refl, true, [], ◌∷◌, some, none, replicate, arith, All}
use peer.Prelude.Int.{pos, negsuc}
use peer.Options.{kit_ok}
use peer.Options.MessageMode
use peer.Options.Service
use peer.Serial.Layout.{message}
use peer.Serial.{
  Bytes, read_message_size, read_message_data_size, read_message_mode, read_message_index,
  read_message_time, read_message_actor, read_u8, read_u16, read_u32, read_u64,
}
use peer.Kit.{Kit}
use peer.Queue.{Message, Queue}
use peer.Queue.View.{ready, lookup}
use peer.Peer.{Slot, Peer, client, new_slot}
use peer.Peer.Send.Trail.{chunk_at}
use peer.Peer.Receive.{Fields, read_fields, read_payload, read_service, client_chunk}
use peer.Peer.Receive.Faults.{client_chunk-none}
use peer.Peer.Receive.Mutual.{IsSent}
use peer.Peer.Receive.Payload.{read_payload-inside}
use peer.Peer.Input.{client_chunks}
use peer.Peer.Input.Mutual.{Agrees, HasCome, IsSentBy, client_chunks-Agrees}

-- Memory that is never short.
abbrev ample : Kit
ample = record { fits = λ a n. true; byte = λ i. 0xcc; word = pos 7 }

abbrev first : Message
first = ready (pos 10) (pos 1) (42 ∷ [])

abbrev second : Message
second = ready (pos 30) (pos 2) []

abbrev history : Queue
history = first ∷ second ∷ []

abbrev newcomer : Peer ℕ
newcomer = record {
  mode = client;
  time = pos 20;
  time_local = pos 25;
  actor = pos 1;
  slots = [];
  queue = [];
  queue_index = 0;
  mt64 = 0;
}

abbrev port : Slot
port = new_slot client 0 (pos 30)

first-IsSent : IsSent 0 first
first-IsSent = record {
  is_ready = refl;
  index_in = omega arith;
  time_in = omega arith;
  actor = 1;
  actor_is = refl;
  actor_in = omega arith;
  small = omega arith;
}

second-IsSent : IsSent 1 second
second-IsSent = record {
  is_ready = refl;
  index_in = omega arith;
  time_in = omega arith;
  actor = 2;
  actor_is = refl;
  actor_in = omega arith;
  small = omega arith;
}

newcomer-Agrees : Agrees history newcomer.queue
unfolding lookup
newcomer-Agrees j m e = absurd (cc)

sent : All (IsSentBy history) (chunk_at 1 second ∷ chunk_at 0 first ∷ chunk_at 1 second ∷ [])
sent = (
  (1, second, refl, second-IsSent, refl),
  ((0, first, refl, first-IsSent, refl), ((1, second, refl, second-IsSent, refl), tt)),
)

client_chunks-Agrees_example :
    (peer' : Peer ℕ) × (client_chunks ample
        (chunk_at 1 second ∷ chunk_at 0 first ∷ chunk_at 1 second ∷ [])
        kit_ok
        newcomer
        port
      ≡ some (kit_ok, peer', port))
    × Agrees history peer'.queue
    × All (HasCome peer'.queue) (chunk_at 1 second ∷ chunk_at 0 first ∷ chunk_at 1 second ∷ [])
client_chunks-Agrees_example =
    client_chunks-Agrees history ample (λ a n. refl)
      (chunk_at 1 second ∷ chunk_at 0 first ∷ chunk_at 1 second ∷ []) kit_ok newcomer port
      newcomer-Agrees sent

first_size : read_message_size (chunk_at 0 first) ≡ some 31
unfolding read_message_size
first_size = refl

first_fields :
    read_fields (chunk_at 0 first)
    ≡ some (record { data_size = pos 1; mode = 1; index = pos 0; time = pos 10; actor = 1 })
unfolding read_fields read_message_size read_message_data_size read_message_mode read_message_index
    read_message_time read_message_actor read_u8 read_u16 read_u32 read_u64
first_fields = refl

read_payload-inside_example : read_payload (pos 1) (chunk_at 0 first) ≡ some (42 ∷ [])
read_payload-inside_example =
    read_payload-inside (chunk_at 0 first) first_size
      (record { data_size = pos 1; mode = 1; index = pos 0; time = pos 10; actor = 1 }) first_fields

-- A session response with an address of 69 bytes.
abbrev long_response : Bytes
long_response =
    message MessageMode.service (negsuc 0) (pos 10) (pos 1)
      (Service.session_response ∷ replicate 69 1)

abbrev long_fields : Fields
long_fields = record {
  data_size = pos 70;
  mode = MessageMode.service;
  index = negsuc 0;
  time = pos 10;
  actor = 1;
}

long_read : read_fields long_response ≡ some long_fields
unfolding read_fields read_message_size read_message_data_size read_message_mode read_message_index
    read_message_time read_message_actor read_u8 read_u16 read_u32 read_u64
long_read = refl

long_service : read_service long_fields long_response ≡ some Service.session_response
unfolding read_service read_u8
long_service = refl

client_chunk-none_example : client_chunk ample long_response kit_ok newcomer port ≡ none
client_chunk-none_example =
    client_chunk-none ample long_response 70 (negsuc 0) (pos 10) 1 kit_ok newcomer port long_read
      long_service refl (omega arith)
