-- ===== src/Peer.antt =====
-- source/peer/peer.h and peer.c: the state of a peer, and the operations that set it up. A pointer
-- argument of the source that must not be null is a value here.
pub mod Log
pub mod Delivery
pub mod Setup
pub mod Receive
pub mod Kept
pub mod Input
pub mod Send
pub mod Tick
pub mod Steady
pub mod Destroy
mod Tests
use peer.Prelude.{
  ℕ, zero, suc, ◌+◌, Bool, true, false, not, List, [], ◌∷◌, ◌++◌, Option, none, some, ◌==◌,
  if◌then◌else◌, length, replicate,
}
use peer.Prelude.Int.{ℤ, pos, ◌==ℤ◌}
use peer.Options.{Status, kit_ok, undefined, address_size as address_capacity}
use peer.Options.Error
use peer.Serial.{Bytes}
use peer.Kit
use peer.Kit.{Kit}
use mathlib.Core.Option
use peer.Queue.{Queue, queue_append}

-- `peer_endpoint_t`
pub record Endpoint : Type 0 where
  pub id : ℤ
  pub is_id_resolved : Bool
  pub is_address_resolved : Bool
  pub address_size : ℕ
  pub address_data : Bytes

-- `peer_slot_state_t`
pub data SlotState : Type 0 where
  empty session_request ready : SlotState

-- `peer_slot_t`
pub record Slot : Type 0 where
  pub state : SlotState
  pub local : Endpoint
  pub remote : Endpoint
  pub queue : Queue
  pub actor : ℤ
  pub in_index : ℕ
  pub out_index : ℕ
  pub clock_heartbeat : ℤ

-- `peer_mode_t`
pub data Mode : Type 0 where
  host client : Mode

abbrev pub is_host : Mode → Bool
is_host host = true
is_host client = false

-- `peer_t`, but for its allocator. `R` is the state of the random number generator.
pub record Peer (R : Type 0) : Type 0 where
  pub mode : Mode
  pub time : ℤ
  pub time_local : ℤ
  pub actor : ℤ
  pub slots : List Slot
  pub queue : Queue
  pub queue_index : ℕ
  pub mt64 : R

abbrev pub cleared_endpoint : Endpoint
cleared_endpoint = record {
  id = pos 0;
  is_id_resolved = false;
  is_address_resolved = false;
  address_size = 0;
  address_data = replicate address_capacity 0;
}

-- The generator `seeded` is mt64_init for a seed, and `rotate` is mt64_rotate.
unfoldable pub init : {R : Type 0} → (seeded : ℕ → R) → (rotate : R → R) → Mode → Peer R
init seeded rotate mode = record {
  mode = mode;
  time = pos 0;
  time_local = pos 0;
  actor = if is_host mode then pos 0 else undefined;
  slots = [];
  queue = [];
  queue_index = 0;
  mt64 = rotate (seeded 12345);
}

-- The slot that peer_open makes of the id number `i`.
abbrev pub new_slot : Mode → ℕ → ℤ → Slot
new_slot mode i id = record {
  state = empty;
  local = record cleared_endpoint { id = id; is_id_resolved = true };
  remote = record cleared_endpoint { id = undefined };
  queue = [];
  actor = if is_host mode then pos i else undefined;
  in_index = 0;
  out_index = 0;
  clock_heartbeat = pos 0;
}

unfoldable pub new_slots : Mode → ℕ → List ℤ → List Slot
new_slots mode i [] = []
new_slots mode i (id ∷ ids) = new_slot mode i id ∷ new_slots mode (i + 1) ids

-- The first slot without a remote id gets it.
unfoldable pub connect_slots : ℤ → List Slot → Option (List Slot)
connect_slots server_id [] = none
connect_slots server_id (slot ∷ slots) =
    if slot.remote.id ==ℤ undefined
    then some (
        record slot {
          remote = record slot.remote { id = server_id; is_id_resolved = true; address_size = 0 };
        }
        ∷ slots)
    else Option.map (◌∷◌ slot) (connect_slots server_id slots)

-- queue_append to the queue of the first slot; `none` where there is no slot.
unfoldable pub append_to_first : Kit → ℤ → Bytes → List Slot → Option (Status × List Slot)
append_to_first kit actor message_data [] = none
append_to_first kit actor message_data (slot ∷ slots) =
    let (status, q) = queue_append kit slot.queue (pos 0) actor message_data in
    some (status, record slot { queue = q } ∷ slots)

module _ {R : Type 0} (kit : Kit) where
  unfoldable pub open_slots : Peer R → List ℤ → Status × Peer R
  open_slots peer ids =
      if length ids == 0
      then (kit_ok, peer)
      else (if not (kit.fits Kit.slots (length peer.slots + length ids))
          then (Error.bad_alloc, peer)
          else (kit_ok, record peer { slots = peer.slots ++ new_slots peer.mode 0 ids }))

  unfoldable pub enqueue_as : Mode → Peer R → Bytes → Status × Peer R
  enqueue_as host peer message_data =
      let (status, q) = queue_append kit peer.queue (pos 0) peer.actor message_data in
      (status, record peer { queue = q })
  enqueue_as client peer message_data =
      elim (append_to_first kit peer.actor message_data peer.slots) [
        | none ↦ (Error.invalid_mode, peer)
        | some (status, slots) ↦ (status, record peer { slots = slots })
      ]

  -- peer_queue, of data whose pointer is not null.
  unfoldable pub enqueue : Peer R → Bytes → Status × Peer R
  enqueue peer message_data = enqueue_as peer.mode peer message_data

unfoldable pub connect : {R : Type 0} → Peer R → ℤ → Status × Peer R
connect peer server_id = elim (connect_slots server_id peer.slots) [
  | none ↦ (Error.no_free_slots, peer)
  | some slots ↦ (kit_ok, record peer { slots = slots })
]
