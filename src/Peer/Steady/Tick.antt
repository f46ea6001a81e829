-- ===== src/Peer/Steady/Tick.antt =====
-- source/peer/peer.c, peer_tick: a host that can be ticked still can after a tick, whatever the
-- allocator and the generator do.
use peer.Prelude.{
  ℕ, ◌+◌, ◌≤◌, ◌≡◌, refl, sym, subst, Bool, Bool-cases, inl, inr, List, [], ◌∷◌, Option, none, some,
  arith, ltb, ◌==◌, if◌then◌else◌, bit_or, length, drop, All, All-drop,
}
use peer.Prelude.Int.{ℤ, pos, ltb_ℤ, ◌-ℤ◌}
use peer.Prelude.Post.{Post, of_post, post_some, Post-if, Post-bind, Post-then}
use peer.Options.{Status, kit_ok, timeout_heartbeat}
use peer.Options.Error
use peer.Kit.{Kit}
use peer.Packet.{Packet, pack}
use peer.Queue.{Message, Queue}
use peer.Peer.{Slot, SlotState, Peer, Mode, host}
use peer.Peer.Send.{queue_pack, heartbeat}
use peer.Peer.Send.Trail.{IsSmall}
use peer.Peer.Tick.{
  int64_max, run_clock, set_times, collect, collect_slots, session_response_chunk, Sent, send_ready,
  send_slot, send_slots, synchronize, send_all, tick_host, advance, tick_as, tick,
}
use peer.Peer.Tick.Kept.{set_times-QueueTicked, collect_slots-Ticked}
use peer.Peer.Tick.Total.{CanServe, map-CanServe, run_clock-CanServe, set_times-IsSmall}
use peer.Peer.Steady.{IsSteady, CanServe-kept}
use peer.Peer.Steady.Queues.{queue_append-IsSmall}

module _ (kit : Kit) where
  collect-IsSmall :
      (time actor : ℤ) (ms : List Message) (status : Status) (q : Queue)
      → All IsSmall ms
      → All IsSmall q
      → All IsSmall (collect kit time actor ms status q).1
  unfolding collect
  collect-IsSmall time actor [] status q small h = h
  collect-IsSmall time actor (m ∷ ms) status q (small, rest) h = elim (Bool-cases m.is_ready) [
    | inl come ↦ rw come (
        collect-IsSmall time actor ms _ _ rest
          (queue_append-IsSmall kit q time actor m.payload small h))
    | inr gap ↦ rw gap h
  ]

  collect_slots-CanServe :
      (n : ℕ) (time : ℤ) (slots : List Slot) (status : Status) (q : Queue)
      → All (CanServe n) slots
      → All IsSmall q
      → let r = collect_slots kit time slots status q in All IsSmall r.1 × All (CanServe n) r.2
  unfolding collect_slots
  collect_slots-CanServe n time [] status q can h = (h, tt)
  collect_slots-CanServe n time (a ∷ slots) status q (can, rest) h =
      let r = collect kit time a.actor (drop a.in_index a.queue) status q in
      let (h', rest') = collect_slots-CanServe n time slots r.0 r.1 rest (
        collect-IsSmall time a.actor (drop a.in_index a.queue) status q
          (All-drop IsSmall a.in_index a.queue can.messages_small) h) in
      (
        h',
        (
          CanServe-kept n a a.state a.remote a.queue a.actor (a.in_index + r.2) a.clock_heartbeat
              can can.messages_small,
          rest',
        ),
      )

pub CanServe-le :
    (n k : ℕ) → n ≤ k → (slots : List Slot) → All (CanServe n) slots → All (CanServe k) slots
CanServe-le n k le [] can = tt
CanServe-le n k le (slot ∷ slots) (can, rest) = (
  record {
    out_index_in = omega (arith, le, can.out_index_in);
    messages_small = can.messages_small;
    address_small = can.address_small;
    address_whole = can.address_whole;
  },
  CanServe-le n k le slots rest,
)

-- A slot that has been sent to, at most all of the mutual queue.
sent-CanServe :
    (n : ℕ) (a : Slot) (state : SlotState) (out_index : ℕ) (clock : ℤ)
    → out_index ≤ n
    → CanServe n a
    → CanServe n (record a { state = state; out_index = out_index; clock_heartbeat = clock })
sent-CanServe n a state out_index clock le can = record {
  out_index_in = le;
  messages_small = can.messages_small;
  address_small = can.address_small;
  address_whole = can.address_whole;
}

module _ {R : Type 0} (kit : Kit) (generate : R → ℕ × R) where
  abbrev Served : ℕ → Sent kit generate → Type 0
  Served n r = CanServe n r.1

  send_ready-CanServe :
      (peer : Peer R) (a : Slot) (out : List Packet) (rng : R)
      → CanServe (length peer.queue) a
      → Post (Served (length peer.queue)) (send_ready kit generate peer a out rng)
  unfolding send_ready
  send_ready-CanServe peer a out rng can =
      let n = length peer.queue in
      Post-if (ltb a.out_index n)
        (Post-bind (queue_pack kit generate peer.queue a.out_index a.local.id a.remote.id out rng)
          λ r. post_some (
            sent-CanServe n a a.state _ _ (sent_le (r.0 == kit_ok) a.out_index n can.out_index_in)
              can))
        (Post-if (ltb_ℤ (pos 0) a.clock_heartbeat) (post_some can) (
          Post-bind
            (heartbeat kit generate peer.queue a.out_index peer.time peer.actor a.local.id
              a.remote.id out rng)
            λ sent. beat sent))
    where
      sent_le : (b : Bool) (i n : ℕ) → i ≤ n → (if b then n else i) ≤ n
      sent_le b i n h = ground arith

      beat :
          (sent : Option (Status × List Packet × R))
          → Post (Served (length peer.queue)) (elim sent [
            | none ↦ some (Error.bad_alloc, a, out, rng)
            | some (s, out', rng') ↦
                some (s, record a { clock_heartbeat = timeout_heartbeat }, out', rng')
          ])
      beat none = post_some can
      beat (some (s, out', rng')) = post_some (
          sent-CanServe (length peer.queue) a a.state a.out_index timeout_heartbeat can.out_index_in
            can)

  send_slot-CanServe :
      (from : ℤ) (peer : Peer R) (a : Slot) (out : List Packet) (rng : R)
      → CanServe (length peer.queue) a
      → Post (Served (length peer.queue)) (send_slot kit generate from peer a out rng)
  unfolding send_slot
  send_slot-CanServe from peer a out rng can =
      by_state a.state (post_some can)
        (Post-bind (session_response_chunk kit peer.time a) λ chunk.
          Post-bind (pack kit from a.remote.id (chunk ∷ []) out) λ r. post_some (
            sent-CanServe (length peer.queue) a SlotState.ready a.out_index timeout_heartbeat
              can.out_index_in can))
        (send_ready-CanServe peer a out rng can)
    where
      by_state :
          (state : SlotState) {x y z : Option (Sent kit generate)}
          → Post (Served (length peer.queue)) x
          → Post (Served (length peer.queue)) y
          → Post (Served (length peer.queue)) z
          → Post (Served (length peer.queue)) (elim state [
            | SlotState.empty ↦ x
            | SlotState.session_request ↦ y
            | SlotState.ready ↦ z
          ])
      by_state SlotState.empty hx hy hz = hx
      by_state SlotState.session_request hx hy hz = hy
      by_state SlotState.ready hx hy hz = hz

  send_slots-CanServe :
      (from : ℤ) (peer : Peer R) (slots : List Slot) (status : Status) (out : List Packet) (rng : R)
      → All (CanServe (length peer.queue)) slots
      → Post
          (λ r. All (CanServe (length peer.queue)) r.1)
          (send_slots kit generate from peer slots status out rng)
  unfolding send_slots
  send_slots-CanServe from peer [] status out rng can = post_some tt
  send_slots-CanServe from peer (a ∷ slots) status out rng (can, rest) =
      Post-then (send_slot-CanServe from peer a out rng can) λ r h.
        Post-then (send_slots-CanServe from peer slots (bit_or status r.0) r.2 r.3 rest)
          λ rs hs. post_some (h, hs)

  synchronize-IsSteady :
      (slots : List Slot) (p : Peer R)
      → p.slots ≡ slots
      → IsSteady p
      → IsSteady (synchronize kit generate slots p).1
  unfolding synchronize
  synchronize-IsSteady [] p is h = record {
    mode_is = h.mode_is;
    queue_small = set_times-IsSmall p.time_local p.queue_index p.queue h.queue_small;
    slots_served = subst (All (CanServe _)) (sym is) tt;
  }
  synchronize-IsSteady (first ∷ rest) p is h =
      let t = p.time_local in
      let q = set_times t p.queue_index p.queue in
      let longer = set_times-QueueTicked t p.queue_index p.queue in
      let (can_first, can) = subst (All (CanServe (length p.queue))) is h.slots_served in
      let (small, served) =
        collect_slots-CanServe kit (length p.queue) t rest kit_ok q can
          (set_times-IsSmall t p.queue_index p.queue h.queue_small) in
      let grown =
        (collect_slots-Ticked kit 0 p.queue (omega arith) t rest kit_ok q
          (record { sent_is = refl; length_le = longer.length_le })).0 in
      let r = collect_slots kit t rest kit_ok q in
      record {
        mode_is = h.mode_is;
        queue_small = small;
        slots_served =
            CanServe-le (length p.queue) (length r.1) grown.length_le (first ∷ r.2)
              (can_first, served);
      }

  send_all-IsSteady :
      (slots : List Slot) (status : Status) (p : Peer R)
      → p.slots ≡ slots
      → IsSteady p
      → Post (λ r. IsSteady r.1) (send_all kit generate slots status p)
  unfolding send_all
  send_all-IsSteady [] status p is h = post_some h
  send_all-IsSteady (first ∷ rest) status p is h =
      let (can_first, can) = subst (All (CanServe (length p.queue))) is h.slots_served in
      Post-then (send_slots-CanServe first.local.id p rest status [] p.mt64 can) λ r served.
        post_some (record {
          mode_is = h.mode_is;
          queue_small = h.queue_small;
          slots_served = (can_first, served);
        })

  tick_as-IsSteady :
      (m : Mode) (p : Peer R)
      → m ≡ host
      → IsSteady p
      → Post (λ r. IsSteady r.1) (tick_as kit generate m p)
  unfolding tick_as tick_host
  tick_as-IsSteady host p e h =
      let s = synchronize kit generate p.slots p in
      send_all-IsSteady s.1.slots s.0 s.1 refl (synchronize-IsSteady p.slots p refl h)
  tick_as-IsSteady Mode.client p e h = absurd (cc)

  advance-IsSteady :
      (p : Peer R) (elapsed : ℤ) → IsSteady p → IsSteady (advance kit generate p elapsed)
  unfolding advance
  advance-IsSteady p elapsed h = record {
    mode_is = h.mode_is;
    queue_small = h.queue_small;
    slots_served =
        map-CanServe (length p.queue) (length p.queue) (run_clock elapsed)
          (run_clock-CanServe (length p.queue) elapsed) p.slots h.slots_served;
  }

  pub tick-IsSteady :
      (p q : Peer R) (elapsed : ℤ) (status : Status) (packets : List Packet)
      → IsSteady p
      → tick kit generate p elapsed ≡ some (status, q, packets)
      → IsSteady q
  unfolding tick advance
  tick-IsSteady p q elapsed status packets h e =
      of_post {P = λ r. IsSteady r.1}
        (Post-if (ltb_ℤ elapsed (pos 0)) (post_some h) (
          Post-if (ltb_ℤ (int64_max -ℤ elapsed) p.time_local) (post_some h) (
            tick_as-IsSteady p.mode (advance kit generate p elapsed) h.mode_is
              (advance-IsSteady p elapsed h))))
        e
