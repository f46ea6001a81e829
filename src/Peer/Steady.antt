-- ===== src/Peer/Steady.antt =====
-- source/peer/peer.c: what a host keeps whatever is done with it, so that it can always be ticked.
pub mod Queues
pub mod Chunks
pub mod Input
pub mod Tick
pub mod Run
mod Tests
use peer.Prelude.{
  ℕ, ◌+◌, ◌≤◌, ◌≡◌, refl, List, [], ◌∷◌, arith, length, All, All-replicate, replicate,
}
use peer.Prelude.Int.{ℤ}
use peer.Queue.{Queue}
use peer.Peer.{Endpoint, Slot, SlotState, Peer, Mode, host, new_slots}
use peer.Peer.Send.Trail.{IsSmall}
use peer.Peer.Tick.Total.{CanServe}

-- A host whose messages fit packets, and whose slots can all be sent to.
pub record IsSteady {R : Type 0} (p : Peer R) : Type 0 where
  pub mode_is : p.mode ≡ host
  pub queue_small : All IsSmall p.queue
  pub slots_served : All (CanServe (length p.queue)) p.slots

-- A slot can still be sent to when nothing but its queue, its state, its remote endpoint, its
-- actor and its clocks has changed, and the messages of its queue fit packets.
pub CanServe-kept :
    (n : ℕ) (slot : Slot) (state : SlotState) (remote : Endpoint) (queue : Queue) (actor : ℤ)
    (in_index : ℕ) (clock : ℤ)
    → CanServe n slot
    → All IsSmall queue
    → CanServe n (record slot {
      state = state;
      remote = remote;
      queue = queue;
      actor = actor;
      in_index = in_index;
      clock_heartbeat = clock;
    })
CanServe-kept n slot state remote queue actor in_index clock h small = record {
  out_index_in = h.out_index_in;
  messages_small = small;
  address_small = h.address_small;
  address_whole = h.address_whole;
}

-- A slot that peer_open makes can be sent to.
pub new_slots-CanServe :
    (n : ℕ) (mode : Mode) (i : ℕ) (ids : List ℤ) → All (CanServe n) (new_slots mode i ids)
unfolding new_slots
new_slots-CanServe n mode i [] = tt
new_slots-CanServe n mode i (id ∷ ids) = (
  record {
    out_index_in = omega arith;
    messages_small = tt;
    address_small = omega arith;
    address_whole = refl;
  },
  new_slots-CanServe n mode (i + 1) ids,
)
