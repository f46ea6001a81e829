-- ===== src/Peer/Delivery/Ticked.antt =====
-- source/peer/peer.c: a tick of a host with one client, and peer_input of the client.
use peer.Prelude.{
  ℕ, ◌+◌, ◌<◌, ◌≡◌, refl, sym, ap, ap₂, ◌∙◌, Bool-cases, inl, inr, true, false, List, [], ◌∷◌, ◌++◌,
  some, lt→ltb, length, get_elem?,
}
use peer.Prelude.Int.{ℤ, pos, ltb_ℤ, ◌+ℤ◌, ◌-ℤ◌}
use peer.Options.{kit_ok, timeout_heartbeat}
use peer.Kit.{Kit, Array}
use peer.Packet.{Packet}
use peer.Queue.{Queue}
use peer.Queue.View.{lookup}
use peer.Peer.{Slot, SlotState, Peer, host}
use peer.Peer.Delivery.{IsClient}
use peer.Peer.Delivery.Sent.{IsSendable, AreAmong, sendable-IsSmall, input_complete}
use peer.Peer.Input.{input}
use peer.Peer.Input.Mutual.{Agrees}
use peer.Peer.Send.{queue_pack}
use peer.Peer.Send.Pack.{queue_pack_lem}
use peer.Peer.Tick.{
  int64_max, run_clock, set_times, send_ready, send_slot, send_slots, send_all, tick_host, advance,
  tick_as, tick,
}
use peer.Peer.Tick.Collect.{intake, taken_in, synchronize_lem}

-- A slot's clock is all that runs.
run_clock-clock :
    (elapsed : ℤ) (a : Slot)
    → (clock : ℤ) × (run_clock elapsed a ≡ record a { clock_heartbeat = clock })
run_clock-clock elapsed a = elim (Bool-cases (ltb_ℤ (pos 0) a.clock_heartbeat)) [
  | inl running ↦ (a.clock_heartbeat -ℤ elapsed, rw running refl)
  | inr stopped ↦ (a.clock_heartbeat, rw stopped refl)
]

module _ {R : Type 0} (kit : Kit) (generate : R → ℕ × R)
    (room : (a : Array) (n : ℕ) → kit.fits a n ≡ true) where
  -- The slot of a client that has messages to be sent.
  send_slots_lem :
      (from : ℤ) (peer : Peer R) (a : Slot) (packets : List Packet) (rng rng' : R)
      → a.out_index < length peer.queue
      → queue_pack kit generate peer.queue a.out_index a.local.id a.remote.id [] rng
        ≡ some (kit_ok, packets, rng')
      → send_slots kit generate from peer (record a { state = SlotState.ready } ∷ []) kit_ok [] rng
        ≡ some (
          kit_ok,
          record a {
            state = SlotState.ready;
            out_index = length peer.queue;
            clock_heartbeat = timeout_heartbeat;
          }
              ∷ [],
          packets,
          rng',
        )
  unfolding send_slots send_slot send_ready
  send_slots_lem from peer a packets rng rng' more packed =
      rw (lt→ltb a.out_index (length peer.queue) more, packed)

  -- A host with one client, which is ready.
  abbrev with_client : Peer R → Slot → Slot → Peer R
  with_client p first a = record p {
    mode = host;
    slots = first ∷ record a { state = SlotState.ready } ∷ [];
  }

  -- The host when the tick has packed the messages of the queue `h`.
  abbrev sent : Peer R → ℤ → Slot → Slot → Queue → R → Peer R
  sent p time first a h rng = record p {
    mode = host;
    time = time;
    time_local = time;
    queue = h;
    queue_index = length h;
    slots =
        first
        ∷ record (taken_in a) {
          state = SlotState.ready;
          out_index = length h;
          clock_heartbeat = timeout_heartbeat;
        }
        ∷ [];
    mt64 = rng;
  }

  tick_host_lem :
      (p : Peer R) (first a : Slot) (h : Queue) (packets : List Packet) (rng : R)
      → h ≡ set_times p.time_local p.queue_index p.queue ++ intake p.time_local (a ∷ [])
      → a.out_index < length h
      → queue_pack kit generate h a.out_index a.local.id a.remote.id [] p.mt64
        ≡ some (kit_ok, packets, rng)
      → tick_host kit generate (with_client p first a)
        ≡ some (kit_ok, sent p p.time_local first a h rng, packets)
  unfolding tick_host send_all
  tick_host_lem p first a h packets rng is more packed =
      let ready_slot : Slot = record a { state = SlotState.ready } in
      let synced =
        synchronize_lem kit generate (with_client p first a) first (ready_slot ∷ []) h room is in
      let peer : Peer R = record p {
        mode = host;
        time = p.time_local;
        queue = h;
        queue_index = length h;
        slots = first ∷ taken_in ready_slot ∷ [];
      } in
      rw (
        synced,
        send_slots_lem first.local.id peer (taken_in ready_slot) packets p.mt64 rng more packed,
      )

  tick_lem :
      (p : Peer R) (elapsed : ℤ) (first a : Slot) (h : Queue) (packets : List Packet) (rng : R)
      → ltb_ℤ elapsed (pos 0) ≡ false
      → ltb_ℤ (int64_max -ℤ elapsed) p.time_local ≡ false
      → h
        ≡ set_times (p.time_local +ℤ elapsed) p.queue_index p.queue
          ++ intake (p.time_local +ℤ elapsed) (a ∷ [])
      → a.out_index < length h
      → queue_pack kit generate h a.out_index a.local.id a.remote.id [] p.mt64
        ≡ some (kit_ok, packets, rng)
      → tick kit generate (with_client p first a) elapsed
        ≡ some (kit_ok, sent p (p.time_local +ℤ elapsed) (run_clock elapsed first) a h rng, packets)
  unfolding tick advance tick_as
  tick_lem p elapsed first a h packets rng positive in_time is more packed =
      let time = p.time_local +ℤ elapsed in
      let (clock, moved) = run_clock-clock elapsed (record a { state = SlotState.ready }) in
      rw (positive, in_time, moved)
        (tick_host_lem (record p { time_local = time }) (run_clock elapsed first)
          (record a { clock_heartbeat = clock }) h packets rng is more packed)

  -- What a host with one client ticks.
  ticked :
      (p : Peer R) (elapsed : ℤ) (first a : Slot) (h : Queue)
      → p.mode ≡ host
      → p.slots ≡ first ∷ a ∷ []
      → a.state ≡ SlotState.ready
      → ltb_ℤ elapsed (pos 0) ≡ false
      → ltb_ℤ (int64_max -ℤ elapsed) p.time_local ≡ false
      → h
        ≡ set_times (p.time_local +ℤ elapsed) p.queue_index p.queue
          ++ intake (p.time_local +ℤ elapsed) (a ∷ [])
      → IsSendable h
      → a.out_index < length h
      → (packets : List Packet) × (rng : R) × (queue_pack kit generate h a.out_index a.local.id
            a.remote.id [] p.mt64
          ≡ some (kit_ok, packets, rng))
        × (tick kit generate p elapsed
            ≡ some (
              kit_ok,
              sent p (p.time_local +ℤ elapsed) (run_clock elapsed first) a h rng,
              packets,
            ))
  ticked p elapsed first a h mode slots state positive in_time is sendable more =
      let (packets, _, rng, packed, _, _) =
        queue_pack_lem kit generate room h (sendable-IsSmall h sendable) a.out_index a.local.id
          a.remote.id [] p.mt64 more in
      let same_slots : p.slots ≡ first ∷ record a { state = SlotState.ready } ∷ [] =
        slots ∙ ap (λ s. first ∷ record a { state = s } ∷ []) state in
      (
        packets,
        rng,
        packed,
        ap₂ (λ m s. tick kit generate (record p { mode = m; slots = s }) elapsed) mode same_slots
            ∙ tick_lem p elapsed first a h packets rng positive in_time is more packed,
      )

module _ {R S : Type 0} (kit kit' : Kit) (generate : R → ℕ × R)
    (room : (a : Array) (n : ℕ) → kit.fits a n ≡ true)
    (room' : (a : Array) (n : ℕ) → kit'.fits a n ≡ true) where
  -- A tick of a host with one client takes what the client has sent into the mutual queue, and
  -- packs what the client has not been sent. Once its packets have come, in any order and however
  -- often, the client has taken them in without an error, and from the place on that it had been
  -- sent before, its mutual queue is that of the host after the tick. The conditions are a client
  -- that has got its session, time that can pass, memory to be had on both sides, messages that can
  -- all be sent, with one at least that the client has not been sent, and a client that agreed with
  -- the host.
  pub tick-input_complete :
      (p p' : Peer R) (elapsed : ℤ) (first a : Slot) (h : Queue) (packets arrived : List Packet)
      (c : Peer S)
      → p.mode ≡ host
      → p.slots ≡ first ∷ a ∷ []
      → a.state ≡ SlotState.ready
      → ltb_ℤ elapsed (pos 0) ≡ false
      → ltb_ℤ (int64_max -ℤ elapsed) p.time_local ≡ false
      → h
        ≡ set_times (p.time_local +ℤ elapsed) p.queue_index p.queue
          ++ intake (p.time_local +ℤ elapsed) (a ∷ [])
      → IsSendable h
      → a.out_index < length h
      → tick kit generate p elapsed ≡ some (kit_ok, p', packets)
      → AreAmong packets arrived
      → AreAmong arrived packets
      → IsClient a.local.id a.remote.id c
      → Agrees h c.queue
      → (p'.queue ≡ h)
        × (c' : Peer S) × (input kit' c arrived ≡ some (kit_ok, c'))
        × ((k : ℕ) → lookup c'.queue (a.out_index + k) ≡ get_elem? p'.queue (a.out_index + k))
  tick-input_complete p p' elapsed first a h packets arrived c mode slots state positive in_time is
        sendable more ran some_of all_of is_client agrees =
      let (ps, rng, packed, ran') =
        ticked kit generate room p elapsed first a h mode slots state positive in_time is sendable
          more in
      let after =
        sent kit generate room p (p.time_local +ℤ elapsed) (run_clock elapsed first) a h rng in
      let same : ps ≡ packets = cc in
      let same_host : after ≡ p' = cc in
      let same_queue : p'.queue ≡ h = ap (λ q. q.queue) (sym same_host) in
      let (c', took, come) =
        input_complete kit kit' generate room room' h sendable a.out_index a.local.id a.remote.id
          p.mt64 rng more packets (packed ∙ ap (λ x. some (kit_ok, x, rng)) same) arrived some_of c
          is_client agrees all_of in
      (same_queue, c', took, λ k. come k ∙ ap (λ q. get_elem? q (a.out_index + k)) (sym same_queue))
