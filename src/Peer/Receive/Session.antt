-- ===== src/Peer/Receive/Session.antt =====
-- source/peer/peer.c, peer_tick and peer_input: the answer to a session request, as a host makes it
-- and as a client takes it.
use peer.Prelude.{
  ℕ, suc, ◌+◌, ◌-◌, ◌%◌, ◌^◌, ◌≤◌, ◌<◌, ◌≡◌, ap, subst, ◌∙◌, false, [], ◌∷◌, ◌++◌, append-nil, some,
  arith, if◌then◌else◌, length, length-take, take, drop, ltb-false,
}
use peer.Prelude.Int.{ℤ, pos, ltb_ℤ}
use peer.Options.{Status, undefined}
use peer.Options.MessageMode
use peer.Options.Service
use peer.Serial.{Bytes, read_u8}
use peer.Serial.Layout.{message, memcpy_lem}
use peer.Serial.Message.{Holds, IsInt64, message-Holds}
use peer.Kit.{Kit}
use peer.Peer.{Endpoint, Slot, Peer}
use peer.Peer.Receive.{
  Fields, read_fields, read_service, set_remote_address, set_actors, session_response,
  client_message, client_chunk,
}
use peer.Peer.Receive.Mutual.{read_bytes_all}
use peer.Peer.Tick.{session_response_chunk}
use peer.Peer.Tick.Answers.{session_response_chunk_lem}

-- The bytes of a session response.
abbrev answer : ℤ → ℕ → Bytes → Bytes
answer time actor address =
    message MessageMode.service undefined time (pos actor) (Service.session_response ∷ address)

abbrev told : ℤ → ℕ → ℕ → Fields
told time actor n = record {
  data_size = pos (suc n);
  mode = MessageMode.service;
  index = undefined;
  time = time;
  actor = actor;
}

module _ (time : ℤ) (actor : ℕ) (address : Bytes) (in_time : IsInt64 time)
    (known : actor < 2 ^ 32 - 1) (small : length address ≤ 64) where
  answer-Holds :
      Holds (answer time actor address) 0 undefined time (pos actor) (suc (length address))
  answer-Holds =
      subst (λ c. Holds c 0 undefined time (pos actor) (suc (length address)))
        (append-nil (answer time actor address))
        (message-Holds 0 undefined time (pos actor) (Service.session_response ∷ address) []
          (omega arith) (omega arith) in_time known)

  read_fields-answer :
      read_fields (answer time actor address) ≡ some (told time actor (length address))
  unfolding read_fields
  read_fields-answer =
      let h = answer-Holds in
      let low : actor % 2 ^ 32 ≡ actor = omega (arith, known) in
      rw (h.data_size, h.mode_is, h.index_is, h.time_is, h.actor_is, low)

  read_service-answer :
      read_service (told time actor (length address)) (answer time actor address)
      ≡ some Service.session_response
  unfolding read_service read_u8
  read_service-answer = rw (ltb-false (suc (length address) + 0) 1 (omega arith))

  set_remote_address-answer :
      (remote : Endpoint)
      → length remote.address_data ≡ 64
      → set_remote_address (length address) (answer time actor address) remote
        ≡ some (record remote {
          is_id_resolved = false;
          address_size = length address;
          address_data = address ++ drop (length address) remote.address_data;
        })
  unfolding set_remote_address
  set_remote_address-answer remote whole =
      rw (read_bytes_all address, memcpy_lem address remote.address_data (omega (arith, whole)))

-- A client's slot once the answer has come, and its peer.
abbrev pub met : ℕ → Bytes → Slot → Slot
met actor address port = record port {
  remote = record port.remote {
    is_id_resolved = false;
    address_size = length address;
    address_data = address ++ drop (length address) port.remote.address_data;
  };
  queue = set_actors (pos actor) port.queue;
}

abbrev pub joined : {R : Type 0} → ℤ → ℕ → Peer R → Peer R
joined time actor peer =
    if ltb_ℤ peer.time time
    then record peer { actor = pos actor; time = time }
    else record peer { actor = pos actor }

module _ {R : Type 0} (kit : Kit) where
  client_chunk-answer :
      (time : ℤ) (actor : ℕ) (address : Bytes) (status : Status) (peer : Peer R) (port : Slot)
      → IsInt64 time
      → actor < 2 ^ 32 - 1
      → length address ≤ 64
      → length port.remote.address_data ≡ 64
      → client_chunk kit (answer time actor address) status peer port
        ≡ some (status, joined time actor peer, met actor address port)
  unfolding client_chunk client_message session_response
  client_chunk-answer time actor address status peer port in_time known small whole =
      let n = length address in
      let back : suc n - 1 ≡ n = omega arith in
      rw (
        read_fields-answer time actor address in_time known small,
        read_service-answer time actor address in_time known small,
        back,
        set_remote_address-answer time actor address in_time known small port.remote whole,
      )

  -- The answer to a session request that a host makes, where its slot has an actor that 32 bits
  -- hold and an address of at most 64 bytes, is taken by every client without an error, and always
  -- tells it the same: the actor, which the messages that wait in the client's queue get too, and
  -- the bytes of the address, for the remote endpoint of the slot, whose id is then to be resolved.
  -- The client's time goes up to that of the host, and not down.
  pub session_response_chunk-client_chunk :
      (time : ℤ) (slot : Slot) (actor : ℕ) (status : Status) (peer : Peer R) (port : Slot)
      → slot.local.address_size ≤ 64
      → length slot.local.address_data ≡ 64
      → slot.actor ≡ pos actor
      → actor < 2 ^ 32 - 1
      → IsInt64 time
      → length port.remote.address_data ≡ 64
      → let address = take slot.local.address_size slot.local.address_data in
        (c : Bytes) × (session_response_chunk kit time slot ≡ some c)
        × (client_chunk kit c status peer port
            ≡ some (status, joined time actor peer, met actor address port))
        × (length address ≡ slot.local.address_size)
  session_response_chunk-client_chunk time slot actor status peer port le whole who known in_time
        room =
      let address = take slot.local.address_size slot.local.address_data in
      let size : length address ≡ slot.local.address_size =
        omega (arith, length-take slot.local.address_size slot.local.address_data, whole) in
      let (made, _) = session_response_chunk_lem kit time slot le whole in
      (
        answer time actor address,
        made
            ∙ ap
                (λ a. some (
                  message MessageMode.service undefined time a
                    (Service.session_response ∷ address)))
                who,
        client_chunk-answer time actor address status peer port in_time known (omega (arith, size))
            room,
        size,
      )
