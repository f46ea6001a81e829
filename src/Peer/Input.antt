-- ===== src/Peer/Input.antt =====
-- source/peer/peer.c: peer_input.
pub mod Frame
pub mod Mutual
pub mod FromClient
pub mod Sizes
pub mod Total
pub mod Faults
mod PacketTests
mod Tests
use peer.Prelude.{
  find_index, ℕ, zero, suc, ◌+◌, Bool, true, false, not, ◌&&◌, ◌||◌, List, [], ◌∷◌, ◌++◌, Option,
  none, some, ◌>>=◌, bit_or, ltb, leb, ◌==◌, if◌then◌else◌, length, get_elem?, set,
}
use peer.Prelude.Int.{ℤ, pos, ◌==ℤ◌}
use peer.Options.{Status, kit_ok, undefined}
use peer.Options.Error
use peer.Serial.{Bytes}
use peer.Kit.{Kit}
use peer.Packet.{Packet, unpack}
use peer.Peer.{Mode, Slot, SlotState, Peer, host, client, is_host}
use peer.Peer.Receive.{host_chunk, client_chunk}

-- The packet is for this slot's port; and it comes from the slot's remote peer.
abbrev pub is_for : Packet → Slot → Bool
is_for packet slot = slot.local.id ==ℤ packet.destination_id

abbrev pub is_from : Packet → Slot → Bool
is_from packet slot = is_for packet slot && (slot.remote.id ==ℤ packet.source_id)

-- A slot that a new client can have.
abbrev pub is_free : Slot → Bool
is_free slot = (slot.remote.id ==ℤ undefined) && ltb 0 slot.local.address_size

-- The slot with the number `j`, given to the peer `source_id`.
abbrev pub assign : ℕ → ℤ → Slot → Slot
assign j source_id slot = record slot {
  state = SlotState.session_request;
  remote = record slot.remote { id = source_id; is_id_resolved = true };
  actor = pos j;
}

unfoldable pub host_chunks : Kit → List Bytes → Status → Slot → Option (Status × Slot)
host_chunks kit [] status slot = some (status, slot)
host_chunks kit (c ∷ cs) status slot = do
  (status', slot') ← host_chunk kit c status slot
  host_chunks kit cs status' slot'

module _ {R : Type 0} (kit : Kit) where
  unfoldable pub client_chunks :
      List Bytes → Status → Peer R → Slot → Option (Status × Peer R × Slot)
  client_chunks [] status peer slot = some (status, peer, slot)
  client_chunks (c ∷ cs) status peer slot = do
    (status', peer', slot') ← client_chunk kit c status peer slot
    client_chunks cs status' peer' slot'

  -- The chunks of a packet for the slot with the number `j`, in the peer's mode.
  unfoldable pub process : Mode → List Bytes → Status → Peer R → ℕ → Slot → Option (Status × Peer R)
  process host chunks status peer j slot = do
    (status', slot') ← host_chunks kit chunks status slot
    some (status', record peer { slots = set peer.slots j slot' })
  process client chunks status peer j slot = do
    (status', peer', slot') ← client_chunks chunks status peer slot
    some (status', record peer' { slots = set peer'.slots j slot' })

  -- A packet from a peer that has no slot yet: a host gives it one, if it can.
  unfoldable pub accept : Packet → Status → Peer R → List Slot → Status × Peer R
  accept packet status peer [] = (status, peer)
  accept packet status peer (first ∷ rest) =
      if not (is_host peer.mode) || not (first.remote.id ==ℤ undefined)
      then (status, peer)
      else elim (find_index is_free 1 rest) [
        | none ↦ (bit_or status Error.no_free_slots, peer)
        | some j ↦ elim (get_elem? peer.slots j) [
          | none ↦ (status, peer)
          | some slot ↦
              (status, record peer { slots = set peer.slots j (assign j packet.source_id slot) })
        ]
      ]

  unfoldable pub input_packet : Packet → Status → Peer R → Option (Status × Peer R)
  input_packet packet status peer = elim (find_index (is_for packet) 0 peer.slots) [
    | none ↦ some (status, peer)
    | some _ ↦ elim (find_index (is_from packet) 0 peer.slots) [
      | none ↦ some (accept packet status peer peer.slots)
      | some j ↦ elim (get_elem? peer.slots j) [
        | none ↦ none
        | some slot ↦ (do
          (s, chunks) ← unpack kit (packet ∷ []) []
          process peer.mode chunks (bit_or status s) peer j slot)
      ]
    ]
  ]

  unfoldable pub input_from : List Packet → Status → Peer R → Option (Status × Peer R)
  input_from [] status peer = some (status, peer)
  input_from (packet ∷ packets) status peer = do
    (status', peer') ← input_packet packet status peer
    input_from packets status' peer'

  unfoldable pub input : Peer R → List Packet → Option (Status × Peer R)
  input peer packets = input_from packets kit_ok peer
