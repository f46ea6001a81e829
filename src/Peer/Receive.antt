-- ===== src/Peer/Receive.antt =====
-- source/peer/peer.c, peer_input: what a peer does with one chunk of a packet.
pub mod Host
pub mod Client
pub mod Mutual
pub mod Payload
pub mod Faults
pub mod Session
pub mod Total
mod Tests
use peer.Prelude.{
  ℕ, suc, ◌+◌, ◌-◌, ◌^◌, Bool, true, false, not, List, [], ◌∷◌, ◌++◌, Option, none, some, ◌>>=◌,
  bit_or, leb, ltb, ◌==◌, if◌then◌else◌, map, drop,
}
use peer.Prelude.Int.{ℤ, pos, negsuc, ◌==ℤ◌, ltb_ℤ}
use peer.Options.{Status, kit_ok}
use peer.Options.Error
use peer.Options.MessageMode
use peer.Options.Service
use peer.Options.MessageOffset
use peer.Serial.{
  Bytes, to_u32, memcpy, read_u8, read_message_data_size, read_message_mode, read_message_index,
  read_message_time, read_message_actor,
}
use peer.Kit.{Kit}
use peer.Packet.{read_bytes}
use peer.Queue.{Queue, Message, queue_insert}
use peer.Peer.{Endpoint, Slot, Peer}

-- What is read from a chunk. The actor is an `uint32_t`.
pub record Fields : Type 0 where
  pub data_size : ℤ
  pub mode : ℕ
  pub index : ℤ
  pub time : ℤ
  pub actor : ℕ

unfoldable pub read_fields : Bytes → Option Fields
read_fields c = do
  data_size ← read_message_data_size c
  mode ← read_message_mode c
  index ← read_message_index c
  time ← read_message_time c
  actor ← read_message_actor c
  some (record {
    data_size = data_size;
    mode = mode;
    index = index;
    time = time;
    actor = to_u32 actor;
  })

-- The data of a chunk, copied. A negative size is none that an array can have. The source copies
-- them in queue_insert, once it is to store the message; the model reads them before, which is the
-- same for a chunk whose size field is its length.
unfoldable pub read_payload : ℤ → Bytes → Option Bytes
read_payload (pos n) c = read_bytes n (drop MessageOffset.message_data c)
read_payload (negsuc n) c = none

-- The id of a service-level message, and 0 where there is none.
unfoldable pub read_service : Fields → Bytes → Option ℕ
read_service f c =
    if ltb_ℤ f.data_size (pos 1) then some 0 else read_u8 (drop MessageOffset.message_data c)

module _ (kit : Kit) where
  -- A chunk for a host. The slot is the one of the client that sent it.
  unfoldable pub host_message : Fields → Bytes → Status → Slot → Option (Status × Slot)
  host_message f c status slot =
      if f.mode == MessageMode.service
      then (do
        service ← read_service f c
        if service == Service.heartbeat
            then some (status, slot)
            else some (bit_or status Error.unknown_service_id, slot))
      else (do
        payload ← read_payload f.data_size c
        (s, q) ← queue_insert kit slot.queue f.index f.time (pos f.actor) payload
        some (bit_or status s, record slot { queue = q }))

  unfoldable pub host_chunk : Bytes → Status → Slot → Option (Status × Slot)
  host_chunk c status slot = do
    f ← read_fields c
    if not (f.time ==ℤ pos 0)
        then some (bit_or status Error.invalid_message_time, slot)
        else (if not (pos f.actor ==ℤ slot.actor)
            then some (bit_or status Error.invalid_message_actor, slot)
            else host_message f c status slot)

-- The remote endpoint once a session response of `n` bytes of address has come.
unfoldable pub set_remote_address : ℕ → Bytes → Endpoint → Option Endpoint
set_remote_address n c remote = do
  address ← read_bytes n (drop (MessageOffset.message_data + 1) c)
  address_data ← memcpy address remote.address_data
  some (record remote { is_id_resolved = false; address_size = n; address_data = address_data })

abbrev pub set_actors : ℤ → Queue → Queue
set_actors actor = map λ (m : Message). record m { actor = actor }

module _ {R : Type 0} where
  -- PEER_M_SESSION_RESPONSE: the client's actor id, and the address of the host's port for it.
  unfoldable pub session_response :
      Fields → Bytes → Status → Peer R → Slot → Option (Status × Peer R × Slot)
  session_response f c status peer slot = elim f.data_size [
    | pos n ↦ (do
      remote ← set_remote_address (n - 1) c slot.remote
      some (
        status,
        record peer { actor = pos f.actor },
        record slot { remote = remote; queue = set_actors (pos f.actor) slot.queue },
      ))
    | negsuc n ↦ none
  ]

module _ {R : Type 0} (kit : Kit) where
  -- A chunk for a client, but for the time.
  unfoldable pub client_message :
      Fields → Bytes → Status → Peer R → Slot → Option (Status × Peer R × Slot)
  client_message f c status peer slot =
      if f.mode == MessageMode.service
      then (do
        service ← read_service f c
        if service == Service.heartbeat
            then some (status, peer, slot)
            else (if service == Service.session_response
                then session_response f c status peer slot
                else some (bit_or status Error.unknown_service_id, peer, slot)))
      else (do
        payload ← read_payload f.data_size c
        (s, q) ← queue_insert kit peer.queue f.index f.time (pos f.actor) payload
        some (bit_or status s, record peer { queue = q }, slot))

  unfoldable pub client_chunk : Bytes → Status → Peer R → Slot → Option (Status × Peer R × Slot)
  client_chunk c status peer slot = do
    f ← read_fields c
    (status', peer', slot') ← client_message f c status peer slot
    some (
      status',
      (if ltb_ℤ peer'.time f.time then record peer' { time = f.time } else peer'),
      slot',
    )
