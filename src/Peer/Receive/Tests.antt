-- ===== src/Peer/Receive/Tests.antt =====
-- A client that has a message to send is told its actor and its port.
use peer.Prelude.{ℕ, ◌≡◌, refl, true, [], ◌∷◌, some, arith, replicate, length}
use peer.Prelude.Int.{pos}
use peer.Options.{kit_ok}
use peer.Serial.{Bytes}
use peer.Kit.{Kit}
use peer.Queue.View.{ready}
use peer.Peer.{Slot, Peer, host, client, init, new_slot}
use peer.Peer.Receive.{client_chunk}
use peer.Peer.Receive.Session.{joined, met, session_response_chunk-client_chunk}
use peer.Peer.Tick.{session_response_chunk}

-- Memory that is never short.
abbrev ample : Kit
ample = record { fits = λ a n. true; byte = λ i. 0xcc; word = pos 7 }

-- The port 40 as an address.
abbrev port_address : Bytes
port_address = 1 ∷ 40 ∷ 0 ∷ []

-- The host's slot for the client has the actor 2 and the port 40.
abbrev for_client : Slot
for_client = record (new_slot host 2 (pos 0)) {
  local = record (new_slot host 2 (pos 0)).local {
    address_size = 3;
    address_data = 1 ∷ 40 ∷ 0 ∷ replicate 61 0;
  };
}

abbrev for_host : Slot
for_host = record (new_slot client 0 (pos 20)) { queue = ready (pos 0) (pos 0) (42 ∷ []) ∷ [] }

abbrev newcomer : Peer ℕ
newcomer = record (init (λ n. n) (λ n. n) client) { slots = for_host ∷ [] }

session_response_chunk-client_chunk_example :
    (c : Bytes) × (session_response_chunk ample (pos 70) for_client ≡ some c)
    × (client_chunk ample c kit_ok newcomer for_host
        ≡ some (kit_ok, joined (pos 70) 2 newcomer, met 2 port_address for_host))
    × (length port_address ≡ 3)
session_response_chunk-client_chunk_example =
    session_response_chunk-client_chunk ample (pos 70) for_client 2 kit_ok newcomer for_host
      (omega arith) refl refl (omega arith) (omega arith) refl
