-- ===== src/Peer/Tick/Collect.antt =====
-- source/peer/peer.c, peer_tick: the messages that a host takes from its clients' queues, against a
-- plain description of them.
use peer.Prelude.{
  ℕ, ◌+◌, ◌≡◌, true, List, [], ◌∷◌, ◌++◌, append_assoc, append-nil, arith, if◌then◌else◌, length,
  map, drop,
}
use peer.Prelude.Bits.{bit_or-zero}
use peer.Prelude.Int.{ℤ}
use peer.Options.{Status, kit_ok}
use peer.Kit
use peer.Kit.{Kit, Array}
use peer.Queue.{Message, Queue, queue_append}
use peer.Queue.View.{ready}
use peer.Peer.{Slot, Peer}
use peer.Peer.Tick.{set_times, collect, collect_slots, synchronize}

-- The messages up to the first that is not ready.
unfoldable pub come : List Message → List Message
come [] = []
come (m ∷ ms) = if m.is_ready then m ∷ come ms else []

abbrev pub stamp : ℤ → ℤ → Message → Message
stamp time actor m = ready time actor m.payload

-- The messages that are new in a slot's queue.
abbrev pub news : Slot → List Message
news slot = come (drop slot.in_index slot.queue)

-- What the mutual queue takes in, slot by slot.
abbrev pub intake : ℤ → List Slot → List Message
intake time [] = []
intake time (slot ∷ slots) = map (stamp time slot.actor) (news slot) ++ intake time slots

abbrev pub taken_in : Slot → Slot
taken_in slot = record slot { in_index = slot.in_index + length (news slot) }

module _ (kit : Kit) (time : ℤ) (room : (a : Array) (n : ℕ) → kit.fits a n ≡ true) where
  queue_append_lem :
      (q : Queue) (actor : ℤ) (m : Message)
      → queue_append kit q time actor m.payload ≡ (kit_ok, q ++ stamp time actor m ∷ [])
  unfolding queue_append
  queue_append_lem q actor m =
      rw (room Kit.messages (length q + 1), room Kit.payload (length m.payload))

  collect_lem :
      (actor : ℤ) (ms : List Message) (status : Status) (q : Queue)
      → collect kit time actor ms status q
        ≡ (status, q ++ map (stamp time actor) (come ms), length (come ms))
  unfolding collect come
  collect_lem actor [] status q = rw (append-nil q)
  collect_lem actor (m ∷ ms) status q =
      rw
        (
          queue_append_lem q actor m,
          bit_or-zero status,
          collect_lem actor ms status (q ++ stamp time actor m ∷ []),
          append_assoc q (stamp time actor m ∷ []) (map (stamp time actor) (come ms)),
        )
        (ground (arith, append-nil q))

  collect_slots_lem :
      (slots : List Slot) (status : Status) (q : Queue)
      → collect_slots kit time slots status q ≡ (status, q ++ intake time slots, map taken_in slots)
  unfolding collect_slots
  collect_slots_lem [] status q = rw (append-nil q)
  collect_slots_lem (slot ∷ slots) status q = rw (
    collect_lem slot.actor (drop slot.in_index slot.queue) status q,
    collect_slots_lem slots status (q ++ map (stamp time slot.actor) (news slot)),
    append_assoc q (map (stamp time slot.actor) (news slot)) (intake time slots),
  )

module _ {R : Type 0} (kit : Kit) (generate : R → ℕ × R) where
  -- With memory to be had, the mutual queue of a host gets the messages that are new in the queues
  -- of its clients, slot by slot, each slot's in their order up to the first that has not come,
  -- with the host's time and the slot's actor, and behind the messages that are there; those of
  -- them that are past `queue_index` get the host's time too. Nothing else of the slots changes
  -- but how far their queues are taken in, and the host's own slot does not change.
  pub synchronize_lem :
      (peer : Peer R) (first : Slot) (rest : List Slot) (q : Queue)
      → ((a : Array) (n : ℕ) → kit.fits a n ≡ true)
      → q ≡ set_times peer.time_local peer.queue_index peer.queue ++ intake peer.time_local rest
      → synchronize kit generate (first ∷ rest) peer ≡ (
        kit_ok,
        record peer {
          time = peer.time_local;
          queue = q;
          queue_index = length q;
          slots = first ∷ map taken_in rest;
        },
      )
  unfolding synchronize
  synchronize_lem peer first rest q room e = rw (
    collect_slots_lem kit peer.time_local room rest kit_ok
        (set_times peer.time_local peer.queue_index peer.queue),
    e,
  )
