-- ===== src/Peer/Tick.antt =====
-- source/peer/peer.c: peer_tick.
pub mod Collect
pub mod Kept
pub mod Frame
pub mod Faults
pub mod Answers
pub mod Total
use peer.Prelude.{
  ℕ, suc, ◌+◌, ◌-◌, ◌^◌, List, [], ◌∷◌, ◌++◌, Option, none, some, ◌>>=◌, bit_or, ltb, ◌==◌,
  if◌then◌else◌, length, map, take, drop,
}
use peer.Prelude.Int.{ℤ, pos, ◌-ℤ◌, ◌+ℤ◌, ltb_ℤ}
use peer.Options.{Status, kit_ok, undefined, address_size as address_capacity, timeout_heartbeat}
use peer.Options.Error
use peer.Options.MessageMode
use peer.Options.Service
use peer.Options.MessageOffset
use peer.Serial.{Bytes, memcpy, write_message}
use peer.Kit.{Kit, new_bytes}
use peer.Packet.{Packet, pack, read_bytes}
use peer.Queue.{Message, Queue, queue_append}
use peer.Peer.{Mode, Slot, SlotState, Peer, host, client}
use peer.Peer.Send.{queue_pack, heartbeat}

-- INT64_MAX
abbrev pub int64_max : ℤ
int64_max = pos (2 ^ 63 - 1)

abbrev pub run_clock : ℤ → Slot → Slot
run_clock elapsed slot =
    if ltb_ℤ (pos 0) slot.clock_heartbeat
    then record slot { clock_heartbeat = slot.clock_heartbeat -ℤ elapsed }
    else slot

abbrev pub set_time : ℤ → Message → Message
set_time time m = record m { time = time }

-- The messages that wait in the mutual queue get the current time.
unfoldable pub set_times : ℤ → ℕ → Queue → Queue
set_times time index q = take index q ++ map (set_time time) (drop index q)

-- The messages `ms` of a client that are ready go into the mutual queue, up to the first that is
-- not. The number is how many have gone. Where one finds no memory it is passed over.
unfoldable pub collect : Kit → ℤ → ℤ → List Message → Status → Queue → Status × Queue × ℕ
collect kit time actor [] status q = (status, q, 0)
collect kit time actor (m ∷ ms) status q =
    let (s, q') = queue_append kit q time actor m.payload in
    let (status', q'', n) = collect kit time actor ms (bit_or status s) q' in
    if m.is_ready then (status', q'', suc n) else (status, q, 0)

unfoldable pub collect_slots : Kit → ℤ → List Slot → Status → Queue → Status × Queue × List Slot
collect_slots kit time [] status q = (status, q, [])
collect_slots kit time (slot ∷ slots) status q =
    let (status', q', n) = collect kit time slot.actor (drop slot.in_index slot.queue) status q in
    let (status'', q'', slots') = collect_slots kit time slots status' q' in
    (status'', q'', record slot { in_index = slot.in_index + n } ∷ slots')

-- The chunk of a session response, cut out of the array `message`.
unfoldable pub session_response_chunk : Kit → ℤ → Slot → Option Bytes
session_response_chunk kit time slot = do
  address ← read_bytes slot.local.address_size slot.local.address_data
  payload ← memcpy (Service.session_response ∷ address) (new_bytes kit (1 + address_capacity))
  message ←
      write_message (new_bytes kit (MessageOffset.message_data + 1 + address_capacity))
        MessageMode.service undefined time slot.actor (take (slot.local.address_size + 1) payload)
  read_bytes (MessageOffset.message_data + 1 + slot.local.address_size) message

module _ {R : Type 0} (kit : Kit) (generate : R → ℕ × R) where
  -- What is sent to a client: its slot, the status, the packets so far and the generator after.
  abbrev pub Sent : Type 0
  Sent = Status × Slot × List Packet × R

  unfoldable pub send_ready : Peer R → Slot → List Packet → R → Option Sent
  send_ready peer slot out rng =
      if ltb slot.out_index (length peer.queue)
      then (do
        (s, out', rng') ←
            queue_pack kit generate peer.queue slot.out_index slot.local.id slot.remote.id out rng
        some (
          s,
          record slot {
            out_index = if s == kit_ok then length peer.queue else slot.out_index;
            clock_heartbeat = timeout_heartbeat;
          },
          out',
          rng',
        ))
      else (if ltb_ℤ (pos 0) slot.clock_heartbeat then some (kit_ok, slot, out, rng) else (do
        sent ←
            heartbeat kit generate peer.queue slot.out_index peer.time peer.actor slot.local.id
              slot.remote.id out rng
        elim sent [
          | none ↦ some (Error.bad_alloc, slot, out, rng)
          | some (s, out', rng') ↦
              some (s, record slot { clock_heartbeat = timeout_heartbeat }, out', rng')
        ]))

  -- `from` is the local id of the host's first slot.
  unfoldable pub send_slot : ℤ → Peer R → Slot → List Packet → R → Option Sent
  send_slot from peer slot out rng = elim slot.state [
    | SlotState.empty ↦ some (kit_ok, slot, out, rng)
    | SlotState.session_request ↦ (do
      chunk ← session_response_chunk kit peer.time slot
      (s, out') ← pack kit from slot.remote.id (chunk ∷ []) out
      some (
        s,
        record slot { clock_heartbeat = timeout_heartbeat; state = SlotState.ready },
        out',
        rng,
      ))
    | SlotState.ready ↦ send_ready peer slot out rng
  ]

  unfoldable pub send_slots :
      ℤ
      → Peer R
      → List Slot
      → Status
      → List Packet
      → R
      → Option (Status × List Slot × List Packet × R)
  send_slots from peer [] status out rng = some (status, [], out, rng)
  send_slots from peer (slot ∷ slots) status out rng = do
    (s, slot', out', rng') ← send_slot from peer slot out rng
    (status', slots', out'', rng'') ← send_slots from peer slots (bit_or status s) out' rng'
    some (status', slot' ∷ slots', out'', rng'')

  -- The mutual queue takes in what the clients have sent. The first slot is the host's own.
  unfoldable pub synchronize : List Slot → Peer R → Status × Peer R
  synchronize [] peer =
      let q = set_times peer.time_local peer.queue_index peer.queue in
      (kit_ok, record peer { time = peer.time_local; queue = q; queue_index = length q })
  synchronize (first ∷ rest) peer =
      let (status, q, slots) =
        collect_slots kit peer.time_local rest kit_ok
          (set_times peer.time_local peer.queue_index peer.queue) in
      (
        status,
        record peer {
          time = peer.time_local;
          queue = q;
          queue_index = length q;
          slots = first ∷ slots;
        },
      )

  unfoldable pub send_all : List Slot → Status → Peer R → Option (Status × Peer R × List Packet)
  send_all [] status peer = some (status, peer, [])
  send_all (first ∷ rest) status peer = do
    (status', slots, out, rng) ← send_slots first.local.id peer rest status [] peer.mt64
    some (status', record peer { slots = first ∷ slots; mt64 = rng }, out)

  unfoldable pub tick_host : Peer R → Option (Status × Peer R × List Packet)
  tick_host peer =
      let (status, peer') = synchronize peer.slots peer in send_all peer'.slots status peer'

  -- A client sends from its first slot. The trail of a heartbeat is taken from the mutual queue.
  unfoldable pub send_client : Peer R → Slot → Option Sent
  send_client peer slot =
      if ltb slot.out_index (length slot.queue)
      then (do
        (s, out, rng) ←
            queue_pack kit generate slot.queue slot.out_index slot.local.id slot.remote.id []
              peer.mt64
        some (
          s,
          record slot { out_index = if s == kit_ok then length slot.queue else slot.out_index },
          out,
          rng,
        ))
      else (if ltb_ℤ (pos 0) slot.clock_heartbeat then some (kit_ok, slot, [], peer.mt64) else (do
        sent ←
            heartbeat kit generate peer.queue slot.out_index (pos 0) peer.actor slot.local.id
              slot.remote.id [] peer.mt64
        elim sent [
          | none ↦ some (Error.bad_alloc, slot, [], peer.mt64)
          | some (s, out, rng) ↦
              some (s, record slot { clock_heartbeat = timeout_heartbeat }, out, rng)
        ]))

  unfoldable pub tick_client : List Slot → Peer R → Option (Status × Peer R × List Packet)
  tick_client [] peer = some (kit_ok, peer, [])
  tick_client (slot ∷ rest) peer = do
    (s, slot', out, rng) ← send_client peer slot
    some (s, record peer { slots = slot' ∷ rest; mt64 = rng }, out)

  unfoldable pub advance : Peer R → ℤ → Peer R
  advance peer elapsed = record peer {
    time_local = peer.time_local +ℤ elapsed;
    slots = map (run_clock elapsed) peer.slots;
  }

  unfoldable pub tick_as : Mode → Peer R → Option (Status × Peer R × List Packet)
  tick_as host peer = tick_host peer
  tick_as client peer = tick_client peer.slots peer

  unfoldable pub tick : Peer R → ℤ → Option (Status × Peer R × List Packet)
  tick peer elapsed =
      if ltb_ℤ elapsed (pos 0)
      then some (Error.invalid_time_elapsed, peer, [])
      else (if ltb_ℤ (int64_max -ℤ elapsed) peer.time_local
          then some (Error.time_overflow, peer, [])
          else tick_as peer.mode (advance peer elapsed))
