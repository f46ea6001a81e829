-- ===== src/Peer/Tick/Faults.antt =====
-- source/peer/peer.c, peer_tick: where a client's heartbeat reads outside an array.
use peer.Prelude.{
  bind-none, get_elem?-lt, ℕ, zero, suc, ◌+◌, ◌-◌, ◌≤◌, ◌<◌, ◌≡◌, true, false, inl, inr, List, [],
  ◌∷◌, none, arith, Option-cases, ltb-false, ◌==◌, length, get_elem?, All, All-get_elem?,
}
use peer.Prelude.Int.{ℤ, pos, ltb_ℤ, ◌≤ℤ◌}
use peer.Serial.{Bytes}
use peer.Kit
use peer.Kit.{Kit, Array}
use peer.Packet.{Packet}
use peer.Queue.{Queue}
use peer.Peer.{Slot, Peer}
use peer.Peer.Send.{trail_length, message_chunks, append_trail, heartbeat, heartbeat_chunks}
use peer.Peer.Send.Trail.{IsSmall, IsSized, all-IsSized, message_chunk_lem}
use peer.Peer.Tick.{send_client, tick_client}

trail_length-positive : (index : ℕ) → 0 < index → 0 < trail_length index
unfolding trail_length
trail_length-positive index h = ground arith

trail_length-ne-zero : (index : ℕ) → 0 < index → (trail_length index == 0) ≡ false
unfolding trail_length
trail_length-ne-zero index h = ground arith

trail_length-le : (index : ℕ) → trail_length index ≤ index
unfolding trail_length
trail_length-le index = ground arith

module _ (kit : Kit) (room : (a : Array) (n : ℕ) → kit.fits a n ≡ true) (q : Queue)
    (small : All IsSmall q) where
  message_chunks-none : (n i : ℕ) → 0 < n → length q < i + n → message_chunks kit q n i ≡ none
  unfolding message_chunks
  message_chunks-none zero i positive past = absurd (omega arith)
  message_chunks-none (suc n) i positive past = elim (Option-cases (get_elem? q i)) [
    | inl out ↦ rw out
    | inr (m, here) ↦
        let inside = get_elem?-lt q i m here in
        rw (
          here,
          room Kit.chunk (30 + length m.payload),
          message_chunk_lem kit i m (All-get_elem? IsSized q i m (all-IsSized q small) here),
          message_chunks-none n (i + 1) (omega (arith, inside)) (omega arith),
        )
  ]

  append_trail-none :
      {R : Type 0} (generate : R → ℕ × R) (index : ℕ) (chunks : List Bytes) (rng : R)
      → length q < index
      → append_trail kit generate q index chunks rng ≡ none
  unfolding append_trail
  append_trail-none generate index chunks rng past = rw (
    trail_length-ne-zero index (omega arith),
    room Kit.chunks (length chunks + trail_length index),
    message_chunks-none (trail_length index) (index - trail_length index)
        (trail_length-positive index (omega arith)) (omega (arith, trail_length-le index)),
  )

  heartbeat-none :
      {R : Type 0} (generate : R → ℕ × R) (index : ℕ) (time actor s d : ℤ) (out : List Packet)
      (rng : R)
      → length q < index
      → heartbeat kit generate q index time actor s d out rng ≡ none
  unfolding heartbeat
  heartbeat-none generate index time actor s d out rng past = rw (room Kit.chunks 1) (
      bind-none (heartbeat_chunks kit generate time actor) _
        λ r. rw (append_trail-none generate index r.1 rng past))

module _ {R : Type 0} (kit : Kit) (generate : R → ℕ × R) where
  -- A client that has sent all of its messages, more of them than its mutual queue holds, and whose
  -- heartbeat is due, reads outside the mutual queue in peer_tick, if memory is to be had for what
  -- it reads before and the messages of the mutual queue fit packets.
  pub tick_client-none :
      (peer : Peer R) (slot : Slot) (rest : List Slot)
      → ((a : Array) (n : ℕ) → kit.fits a n ≡ true)
      → All IsSmall peer.queue
      → slot.out_index ≡ length slot.queue
      → length peer.queue < length slot.queue
      → slot.clock_heartbeat ≤ℤ pos 0
      → tick_client kit generate (slot ∷ rest) peer ≡ none
  unfolding tick_client send_client
  tick_client-none peer slot rest room small all past due = rw (
    ltb-false slot.out_index (length slot.queue) (omega (arith, all)),
    not_running slot.clock_heartbeat due,
    heartbeat-none kit room peer.queue small generate slot.out_index (pos 0) peer.actor
        slot.local.id slot.remote.id [] peer.mt64 (omega (arith, all)),
  )
    where
      not_running : (clock : ℤ) → clock ≤ℤ pos 0 → ltb_ℤ (pos 0) clock ≡ false
      not_running clock h = ground arith
