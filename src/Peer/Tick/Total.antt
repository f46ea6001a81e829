-- ===== src/Peer/Tick/Total.antt =====
-- source/peer/peer.c, peer_tick: with memory to be had, a host's tick succeeds.
use peer.Prelude.{
  ℕ, ◌≤◌, ◌≡◌, refl, ap, ◌∙◌, true, false, Bool-cases, inl, inr, List, [], ◌∷◌, ◌++◌, Option, some,
  ltb, arith, length, length-append, map, take, drop, All, All-append, All-take, All-drop,
}
use peer.Prelude.Bits.{bit_or-zero}
use peer.Prelude.Int.{ℤ, pos, ltb_ℤ, ◌-ℤ◌}
use peer.Options.{Status, kit_ok, timeout_heartbeat}
use peer.Kit.{Kit, Array}
use peer.Packet.{Packet}
use peer.Packet.Pack.{pack-AllSealed}
use peer.Queue.{Queue}
use peer.Peer.{Slot, SlotState, Peer, Mode, host}
use peer.Peer.Send.Pack.{queue_pack_lem}
use peer.Peer.Send.Trail.{IsSmall}
use peer.Peer.Tick.{
  Sent, int64_max, run_clock, set_time, set_times, send_ready, send_slot, send_slots, synchronize,
  send_all, tick_host, advance, tick_as, tick,
}
use peer.Peer.Tick.Answers.{heartbeat-some, response, session_response_chunk_lem}
use peer.Peer.Tick.Collect.{come, intake, news, taken_in, stamp, synchronize_lem}
use peer.Peer.Tick.Kept.{set_times-QueueTicked}

-- A slot that can be sent to, with a mutual queue of `n` messages: it has not been sent more, its
-- messages fit packets, and so does its address.
pub record CanServe (n : ℕ) (slot : Slot) : Type 0 where
  pub out_index_in : slot.out_index ≤ n
  pub messages_small : All IsSmall slot.queue
  pub address_small : slot.local.address_size ≤ 64
  pub address_whole : length slot.local.address_data ≡ 64

module _ {R : Type 0} (kit : Kit) (generate : R → ℕ × R)
    (room : (a : Array) (n : ℕ) → kit.fits a n ≡ true) where
  -- It has a result, with no error.
  abbrev Succeeds : Option (Sent kit generate) → Type 0
  Succeeds m =
      (slot' : Slot) × (out' : List Packet) × (rng' : R) × (m ≡ some (kit_ok, slot', out', rng'))

  send_ready-some :
      (peer : Peer R) (slot : Slot) (out : List Packet) (rng : R)
      → All IsSmall peer.queue
      → slot.out_index ≤ length peer.queue
      → Succeeds (send_ready kit generate peer slot out rng)
  unfolding send_ready
  send_ready-some peer slot out rng small le =
      elim (Bool-cases (ltb slot.out_index (length peer.queue))) [
        | inl more ↦
            let (ps, _, rng', e, _, _) =
              queue_pack_lem kit generate room peer.queue small slot.out_index slot.local.id
                slot.remote.id out rng (ground arith) in
            (
              record slot { out_index = length peer.queue; clock_heartbeat = timeout_heartbeat },
              out ++ ps,
              rng',
              rw (more, e),
            )
        | inr all ↦ elim (Bool-cases (ltb_ℤ (pos 0) slot.clock_heartbeat)) [
          | inl early ↦ (slot, out, rng, rw (all, early))
          | inr due ↦
              let (out', rng', e) =
                heartbeat-some kit generate room peer.queue slot.out_index peer.time peer.actor
                  slot.local.id slot.remote.id out rng small le in
              (record slot { clock_heartbeat = timeout_heartbeat }, out', rng', rw (all, due, e))
        ]
      ]

  send_slot-some :
      (from : ℤ) (peer : Peer R) (slot : Slot) (out : List Packet) (rng : R)
      → All IsSmall peer.queue
      → CanServe (length peer.queue) slot
      → Succeeds (send_slot kit generate from peer slot out rng)
  unfolding send_slot
  send_slot-some from peer slot out rng small can =
      let (e, chunk) =
        session_response_chunk_lem kit peer.time slot can.address_small can.address_whole in
      let (added, packed, _) =
        pack-AllSealed kit from slot.remote.id room (response kit peer.time slot) [] out
          (chunk, tt) in
      by_state slot.state (slot, out, rng, refl)
        (
          record slot { clock_heartbeat = timeout_heartbeat; state = SlotState.ready },
          out ++ added,
          rng,
          rw (e, packed),
        )
        (send_ready-some peer slot out rng small can.out_index_in)
    where
      by_state :
          (state : SlotState) {x y z : Option (Sent kit generate)}
          → Succeeds x
          → Succeeds y
          → Succeeds z
          → Succeeds (elim state [
            | SlotState.empty ↦ x
            | SlotState.session_request ↦ y
            | SlotState.ready ↦ z
          ])
      by_state SlotState.empty hx hy hz = hx
      by_state SlotState.session_request hx hy hz = hy
      by_state SlotState.ready hx hy hz = hz

  send_slots-some :
      (from : ℤ) (peer : Peer R) (slots : List Slot) (status : Status) (out : List Packet) (rng : R)
      → All IsSmall peer.queue
      → All (CanServe (length peer.queue)) slots
      → (slots' : List Slot) × (out' : List Packet) × (rng' : R) × (send_slots kit generate from
            peer slots status out rng
          ≡ some (status, slots', out', rng'))
  unfolding send_slots
  send_slots-some from peer [] status out rng small can = ([], out, rng, refl)
  send_slots-some from peer (slot ∷ slots) status out rng small (can, rest) =
      let (slot', out', rng', e) = send_slot-some from peer slot out rng small can in
      let (slots', out'', rng'', f) = send_slots-some from peer slots status out' rng' small rest in
      (slot' ∷ slots', out'', rng'', rw (e, bit_or-zero status, f))

-- The messages of a host's queue and of what it takes in fit packets.
pub set_times-IsSmall : (t : ℤ) (i : ℕ) (q : Queue) → All IsSmall q → All IsSmall (set_times t i q)
unfolding set_times
set_times-IsSmall t i q h =
    All-append IsSmall (take i q) _ (All-take IsSmall i q h)
      (same (drop i q) (All-drop IsSmall i q h))
  where
    same : (ms : Queue) → All IsSmall ms → All IsSmall (map (set_time t) ms)
    same [] h = tt
    same (m ∷ ms) (a, h) = (a, same ms h)

stamp-IsSmall :
    (t actor : ℤ) (ms : Queue) → All IsSmall ms → All IsSmall (map (stamp t actor) (come ms))
unfolding come
stamp-IsSmall t actor [] h = tt
stamp-IsSmall t actor (m ∷ ms) (a, h) = elim (Bool-cases m.is_ready) [
  | inl ready ↦ rw ready (a, stamp-IsSmall t actor ms h)
  | inr gap ↦ rw gap tt
]

intake-IsSmall :
    (t : ℤ) (n : ℕ) (slots : List Slot) → All (CanServe n) slots → All IsSmall (intake t slots)
intake-IsSmall t n [] h = tt
intake-IsSmall t n (slot ∷ slots) (can, h) =
    All-append IsSmall (map (stamp t slot.actor) (news slot)) (intake t slots)
      (stamp-IsSmall t slot.actor (drop slot.in_index slot.queue)
        (All-drop IsSmall slot.in_index slot.queue can.messages_small))
      (intake-IsSmall t n slots h)

module _ (n k : ℕ) (f : Slot → Slot) (one : (a : Slot) → CanServe n a → CanServe k (f a)) where
  pub map-CanServe : (slots : List Slot) → All (CanServe n) slots → All (CanServe k) (map f slots)
  map-CanServe [] h = tt
  map-CanServe (slot ∷ slots) (a, h) = (one slot a, map-CanServe slots h)

-- A slot can still be sent to, by a longer queue, when its clock or its place in its own queue has
-- moved.
pub run_clock-CanServe : (n : ℕ) (t : ℤ) (a : Slot) → CanServe n a → CanServe n (run_clock t a)
run_clock-CanServe n t a h = elim (Bool-cases (ltb_ℤ (pos 0) a.clock_heartbeat)) [
  | inl running ↦ rw running (record {
    out_index_in = h.out_index_in;
    messages_small = h.messages_small;
    address_small = h.address_small;
    address_whole = h.address_whole;
  })
  | inr stopped ↦ rw stopped h
]

taken_in-CanServe : (n k : ℕ) → n ≤ k → (a : Slot) → CanServe n a → CanServe k (taken_in a)
taken_in-CanServe n k le a h = record {
  out_index_in = omega (arith, le, h.out_index_in);
  messages_small = h.messages_small;
  address_small = h.address_small;
  address_whole = h.address_whole;
}

module _ {R : Type 0} (kit : Kit) (generate : R → ℕ × R)
    (room : (a : Array) (n : ℕ) → kit.fits a n ≡ true) where
  abbrev TickSucceeds : Option (Status × Peer R × List Packet) → Type 0
  TickSucceeds m = (q : Peer R) × (packets : List Packet) × (m ≡ some (kit_ok, q, packets))

  send_all-some :
      (first : Slot) (rest : List Slot) (p : Peer R)
      → All IsSmall p.queue
      → All (CanServe (length p.queue)) rest
      → TickSucceeds (send_all kit generate (first ∷ rest) kit_ok p)
  unfolding send_all
  send_all-some first rest p small can =
      let (slots, out, rng, e) =
        send_slots-some kit generate room first.local.id p rest kit_ok [] p.mt64 small can in
      (record p { slots = first ∷ slots; mt64 = rng }, out, rw e)

  -- What a host's tick does once its clients' messages are in the mutual queue.
  abbrev send_from : Status × Peer R → Option (Status × Peer R × List Packet)
  send_from r = send_all kit generate r.1.slots r.0 r.1

  tick_host-some :
      (slots : List Slot) (p : Peer R)
      → p.slots ≡ slots
      → All IsSmall p.queue
      → All (CanServe (length p.queue)) slots
      → TickSucceeds (tick_host kit generate p)
  unfolding tick_host synchronize send_all
  tick_host-some [] p e small can =
      let r = synchronize kit generate [] p in
      (
        r.1,
        [],
        ap (λ x. send_from (synchronize kit generate x p)) e
            ∙ ap (λ x. send_all kit generate x kit_ok r.1) e,
      )
  tick_host-some (first ∷ rest) p e small (_, can) =
      let t = p.time_local in
      let old = set_times t p.queue_index p.queue in
      let q = old ++ intake t rest in
      let s = synchronize_lem kit generate p first rest q room refl in
      let longer : length p.queue ≤ length q = omega (
        arith,
        length-append old (intake t rest),
        (set_times-QueueTicked t p.queue_index p.queue).length_le,
      ) in
      let sent =
        send_all-some first (map taken_in rest)
          (record p {
            time = t;
            queue = q;
            queue_index = length q;
            slots = first ∷ map taken_in rest;
          })
          (All-append IsSmall old (intake t rest) (set_times-IsSmall t p.queue_index p.queue small)
            (intake-IsSmall t (length p.queue) rest can))
          (map-CanServe (length p.queue) (length q) taken_in
            (taken_in-CanServe (length p.queue) (length q) longer) rest can) in
      (
        sent.0,
        sent.1,
        ap (λ x. send_from (synchronize kit generate x p)) e ∙ ap send_from s ∙ sent.2,
      )

  tick_as-some :
      (m : Mode) (p : Peer R)
      → m ≡ host
      → All IsSmall p.queue
      → All (CanServe (length p.queue)) p.slots
      → TickSucceeds (tick_as kit generate m p)
  unfolding tick_as
  tick_as-some host p e small can = tick_host-some p.slots p refl small can
  tick_as-some Mode.client p e small can = absurd (cc)

  -- In a build without asserts and with memory to be had, a tick of a host succeeds, and never
  -- reads or writes outside an array, where the time that has passed is not negative and the clock
  -- does not get past INT64_MAX; the messages of the mutual queue and of the slots' queues fit
  -- packets; no slot has been sent more than the mutual queue holds; and the slots' own addresses
  -- fit their arrays.
  pub tick-some :
      (p : Peer R) (elapsed : ℤ)
      → p.mode ≡ host
      → ltb_ℤ elapsed (pos 0) ≡ false
      → ltb_ℤ (int64_max -ℤ elapsed) p.time_local ≡ false
      → All IsSmall p.queue
      → All (CanServe (length p.queue)) p.slots
      → (q : Peer R) × (packets : List Packet) × (tick kit generate p elapsed
          ≡ some (kit_ok, q, packets))
  unfolding tick advance
  tick-some p elapsed mode positive in_time small can =
      let (q, packets, e) = tick_as-some p.mode (advance kit generate p elapsed) mode small (
        map-CanServe (length p.queue) (length p.queue) (run_clock elapsed)
          (run_clock-CanServe (length p.queue) elapsed) p.slots can) in
      (q, packets, rw (positive, in_time) e)
