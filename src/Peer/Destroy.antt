-- ===== src/Peer/Destroy.antt =====
-- source/peer/peer.c: queue_destroy and peer_destroy, over a memory that tells which arrays of a
-- peer are there. The result is `none` where an array is read or released that is not.
pub mod Queues
pub mod Frees
mod Tests
use peer.Prelude.{
  ℕ, ◌+◌, Bool, true, false, not, ◌&&◌, List, [], ◌∷◌, Option, none, some, ◌>>=◌, ◌==◌,
  if◌then◌else◌,
}
use peer.Options.{Status, kit_ok}
use peer.Queue.{Queue}
use peer.Peer.{Slot, Peer}

-- The mutual queue, or the queue of the slot with the number `i`.
pub data Owner : Type 0 where
  mutual_queue : Owner
  slot_queue : (i : ℕ) → Owner

-- The arrays of a peer: its slots, the messages of a queue, and the data of a message.
pub data Place : Type 0 where
  slots_array : Place
  messages : (owner : Owner) → Place
  payload : (owner : Owner) (k : ℕ) → Place

abbrev pub same_owner : Owner → Owner → Bool
same_owner mutual_queue mutual_queue = true
same_owner mutual_queue (slot_queue j) = false
same_owner (slot_queue i) mutual_queue = false
same_owner (slot_queue i) (slot_queue j) = i == j

abbrev pub same_place : Place → Place → Bool
same_place slots_array slots_array = true
same_place slots_array (messages o) = false
same_place slots_array (payload o k) = false
same_place (messages o) slots_array = false
same_place (messages o) (messages p) = same_owner o p
same_place (messages o) (payload p k) = false
same_place (payload o k) slots_array = false
same_place (payload o k) (messages p) = false
same_place (payload o k) (payload p l) = same_owner o p && (k == l)

-- Which arrays are there.
abbrev pub Live : Type 0
Live = Place → Bool

unfoldable pub reads : Place → Live → Option Live
reads x live = if live x then some live else none

-- DA_DESTROY
unfoldable pub release : Place → Live → Option Live
release x live = if live x then some (λ y. live y && not (same_place x y)) else none

-- The queue of a slot stands in the array of slots.
unfoldable pub reads_queue : Owner → Live → Option Live
reads_queue mutual_queue live = some live
reads_queue (slot_queue i) live = reads slots_array live

-- queue_destroy from the message with the index `k` on.
unfoldable pub queue_destroy : Owner → ℕ → Queue → Live → Option Live
queue_destroy o k [] live = do l ← reads_queue o live; release (messages o) l
queue_destroy o k (m ∷ q) live = do
  l0 ← reads_queue o live
  l1 ← reads (messages o) l0
  l2 ← release (payload o k) l1
  queue_destroy o (k + 1) q l2

-- The slots from the number `i` on, and their array.
unfoldable pub slots_destroy : ℕ → List Slot → Live → Option Live
slots_destroy i [] live = release slots_array live
slots_destroy i (slot ∷ slots) live = do
  l ← queue_destroy (slot_queue i) 0 slot.queue live
  slots_destroy (i + 1) slots l

-- peer_destroy
unfoldable pub destroy : {R : Type 0} → Peer R → Live → Option (Status × Live)
destroy peer live = do
  l0 ← slots_destroy 0 peer.slots live
  l1 ← queue_destroy mutual_queue 0 peer.queue l0
  some (kit_ok, l1)
