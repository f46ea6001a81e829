-- ===== src/Peer/Tick/Frame.antt =====
-- source/peer/peer.c, peer_tick: a tick keeps the queues' messages and moves marks only forward.
use peer.Prelude.{
  ℕ, ◌≤◌, ◌≡◌, refl, sym, subst, Bool, true, false, List, [], ◌∷◌, Option, none, some, arith, ltb,
  ◌==◌, if◌then◌else◌, bit_or, length, map,
}
use peer.Prelude.Int.{ℤ, pos, ltb_ℤ, ◌≤ℤ◌, int_laws, ◌+ℤ◌, ◌-ℤ◌}
use peer.Prelude.Post.{
  Post, of_post, post_some, Post-if, Post-cases, Post-bind, Post-then, Post-map,
}
use peer.Prelude.Pairs.{Pairwise, Pairwise-refl, Pairwise-trans}
use peer.Options.{Status, kit_ok, timeout_heartbeat}
use peer.Options.Error
use peer.Kit.{Kit}
use peer.Packet.{Packet, pack}
use peer.Peer.{Slot, SlotState, Peer, Mode, host, client}
use peer.Peer.Send.{queue_pack, heartbeat}
use peer.Peer.Tick.{
  int64_max, run_clock, set_times, collect_slots, session_response_chunk, Sent, send_ready,
  send_slot, send_slots, synchronize, send_all, tick_host, send_client, tick_client, advance,
  tick_as, tick,
}
use peer.Peer.Tick.Kept.{
  SlotTicked, SlotTicked-refl, SlotTicked-trans, SlotTicked-marks, run_clock-SlotTicked,
  map-SlotTicked, set_times-QueueTicked, collect_slots-Ticked, PeerTicked, PeerTicked-slots,
  PeerTicked-refl, PeerTicked-queue, PeerTicked-trans,
}

-- What may be sent moves the place in the mutual queue on, or leaves it.
le_of_sent : (b : Bool) (i n : ℕ) → i ≤ n → i ≤ (if b then n else i)
le_of_sent b i n h = ground arith

ltb-le : (i n : ℕ) → ltb i n ≡ true → i ≤ n
ltb-le i n e = ground arith

module _ {R : Type 0} (kit : Kit) (generate : R → ℕ × R) where
  abbrev Ticked : Slot → Sent kit generate → Type 0
  Ticked a r = SlotTicked a r.1

  heard : (a : Slot) (clock : ℤ) → SlotTicked a (record a { clock_heartbeat = clock })
  heard a clock =
      SlotTicked-marks a a.state a.in_index a.out_index clock (omega arith) (omega arith)

  send_ready-SlotTicked :
      (peer : Peer R) (a : Slot) (out : List Packet) (rng : R)
      → Post (Ticked a) (send_ready kit generate peer a out rng)
  unfolding send_ready
  send_ready-SlotTicked peer a out rng =
      Post-cases (ltb a.out_index (length peer.queue))
        (λ e.
          Post-bind (queue_pack kit generate peer.queue a.out_index a.local.id a.remote.id out rng)
            λ r. post_some (
              SlotTicked-marks a a.state a.in_index _ _ (omega arith)
                (le_of_sent (r.0 == kit_ok) a.out_index (length peer.queue) (ltb-le _ _ e))))
        (λ _. Post-if (ltb_ℤ (pos 0) a.clock_heartbeat) (post_some (SlotTicked-refl a)) (
          Post-bind
            (heartbeat kit generate peer.queue a.out_index peer.time peer.actor a.local.id
              a.remote.id out rng)
            λ sent. beat sent))
    where
      beat :
          (sent : Option (Status × List Packet × R))
          → Post (Ticked a) (elim sent [
            | none ↦ some (Error.bad_alloc, a, out, rng)
            | some (s, out', rng') ↦
                some (s, record a { clock_heartbeat = timeout_heartbeat }, out', rng')
          ])
      beat none = post_some (SlotTicked-refl a)
      beat (some (s, out', rng')) = post_some (heard a timeout_heartbeat)

  send_slot-SlotTicked :
      (from : ℤ) (peer : Peer R) (a : Slot) (out : List Packet) (rng : R)
      → Post (Ticked a) (send_slot kit generate from peer a out rng)
  unfolding send_slot
  send_slot-SlotTicked from peer a out rng =
      by_state a.state (post_some (SlotTicked-refl a))
        (Post-bind (session_response_chunk kit peer.time a) λ chunk.
          Post-bind (pack kit from a.remote.id (chunk ∷ []) out) λ r. post_some (
            SlotTicked-marks a SlotState.ready a.in_index a.out_index timeout_heartbeat
              (omega arith) (omega arith)))
        (send_ready-SlotTicked peer a out rng)
    where
      by_state :
          (state : SlotState) {x y z : Option (Sent kit generate)}
          → Post (Ticked a) x
          → Post (Ticked a) y
          → Post (Ticked a) z
          → Post (Ticked a) (elim state [
            | SlotState.empty ↦ x
            | SlotState.session_request ↦ y
            | SlotState.ready ↦ z
          ])
      by_state SlotState.empty hx hy hz = hx
      by_state SlotState.session_request hx hy hz = hy
      by_state SlotState.ready hx hy hz = hz

  send_slots-Pairwise :
      (from : ℤ) (peer : Peer R) (slots : List Slot) (status : Status) (out : List Packet) (rng : R)
      → Post
          (λ r. Pairwise SlotTicked slots r.1)
          (send_slots kit generate from peer slots status out rng)
  unfolding send_slots
  send_slots-Pairwise from peer [] status out rng = post_some tt
  send_slots-Pairwise from peer (a ∷ slots) status out rng =
      Post-then (send_slot-SlotTicked from peer a out rng) λ r h.
        Post-then (send_slots-Pairwise from peer slots (bit_or status r.0) r.2 r.3)
          λ rs hs. post_some (h, hs)

  synchronize-PeerTicked :
      (slots : List Slot) (peer : Peer R)
      → peer.slots ≡ slots
      → peer.queue_index ≤ length peer.queue
      → PeerTicked peer (synchronize kit generate slots peer).1
  unfolding synchronize
  synchronize-PeerTicked [] peer is le =
      PeerTicked-queue peer peer.time_local _ peer.slots peer.mt64 le
        (set_times-QueueTicked peer.time_local peer.queue_index peer.queue)
        (Pairwise-refl SlotTicked SlotTicked-refl peer.slots)
  synchronize-PeerTicked (first ∷ rest) peer is le =
      let (h, ticked) =
        collect_slots-Ticked kit peer.queue_index peer.queue le peer.time_local rest kit_ok
          (set_times peer.time_local peer.queue_index peer.queue)
          (set_times-QueueTicked peer.time_local peer.queue_index peer.queue) in
      let r =
        collect_slots kit peer.time_local rest kit_ok
          (set_times peer.time_local peer.queue_index peer.queue) in
      PeerTicked-queue peer peer.time_local r.1 (first ∷ r.2) peer.mt64 le h
        (subst (λ s. Pairwise SlotTicked s (first ∷ r.2)) (sym is) (SlotTicked-refl first, ticked))

  send_all-PeerTicked :
      (slots : List Slot) (status : Status) (peer : Peer R)
      → peer.slots ≡ slots
      → peer.queue_index ≤ length peer.queue
      → Post (λ r. PeerTicked peer r.1) (send_all kit generate slots status peer)
  unfolding send_all
  send_all-PeerTicked [] status peer is le = post_some (PeerTicked-refl peer le)
  send_all-PeerTicked (first ∷ rest) status peer is le =
      Post-then (send_slots-Pairwise first.local.id peer rest status [] peer.mt64) λ r h.
        post_some (
          PeerTicked-slots peer _ _ le
            (subst (λ s. Pairwise SlotTicked s (first ∷ r.1)) (sym is) (SlotTicked-refl first, h)))

  tick_host-PeerTicked :
      (peer : Peer R)
      → peer.queue_index ≤ length peer.queue
      → Post (λ r. PeerTicked peer r.1) (tick_host kit generate peer)
  unfolding tick_host
  tick_host-PeerTicked peer le =
      let h = synchronize-PeerTicked peer.slots peer refl le in
      let r = synchronize kit generate peer.slots peer in
      Post-map (λ q k. PeerTicked-trans peer r.1 q.1 h k)
        (send_all-PeerTicked r.1.slots r.0 r.1 refl h.queue_index_in)

  send_client-SlotTicked :
      (peer : Peer R) (a : Slot) → Post (Ticked a) (send_client kit generate peer a)
  unfolding send_client
  send_client-SlotTicked peer a =
      Post-cases (ltb a.out_index (length a.queue))
        (λ e.
          Post-bind
            (queue_pack kit generate a.queue a.out_index a.local.id a.remote.id [] peer.mt64)
            λ r. post_some (
              SlotTicked-marks a a.state a.in_index _ _ (omega arith)
                (le_of_sent (r.0 == kit_ok) a.out_index (length a.queue) (ltb-le _ _ e))))
        (λ _. Post-if (ltb_ℤ (pos 0) a.clock_heartbeat) (post_some (SlotTicked-refl a)) (
          Post-bind
            (heartbeat kit generate peer.queue a.out_index (pos 0) peer.actor a.local.id a.remote.id
              [] peer.mt64)
            λ sent. beat sent))
    where
      beat :
          (sent : Option (Status × List Packet × R))
          → Post (Ticked a) (elim sent [
            | none ↦ some (Error.bad_alloc, a, [], peer.mt64)
            | some (s, out, rng) ↦
                some (s, record a { clock_heartbeat = timeout_heartbeat }, out, rng)
          ])
      beat none = post_some (SlotTicked-refl a)
      beat (some (s, out, rng)) = post_some (heard a timeout_heartbeat)

  tick_client-PeerTicked :
      (slots : List Slot) (peer : Peer R)
      → peer.slots ≡ slots
      → peer.queue_index ≤ length peer.queue
      → Post (λ r. PeerTicked peer r.1) (tick_client kit generate slots peer)
  unfolding tick_client
  tick_client-PeerTicked [] peer is le = post_some (PeerTicked-refl peer le)
  tick_client-PeerTicked (a ∷ rest) peer is le = Post-then (send_client-SlotTicked peer a) λ r h.
      post_some (
        PeerTicked-slots peer _ _ le (
          subst (λ s. Pairwise SlotTicked s (r.1 ∷ rest)) (sym is)
            (h, Pairwise-refl SlotTicked SlotTicked-refl rest)))

  tick_as-PeerTicked :
      (mode : Mode) (peer : Peer R)
      → peer.queue_index ≤ length peer.queue
      → Post (λ r. PeerTicked peer r.1) (tick_as kit generate mode peer)
  unfolding tick_as
  tick_as-PeerTicked host peer le = tick_host-PeerTicked peer le
  tick_as-PeerTicked client peer le = tick_client-PeerTicked peer.slots peer refl le

in_time :
    (a e : ℤ)
    → ltb_ℤ e (pos 0) ≡ false
    → ltb_ℤ (int64_max -ℤ e) a ≡ false
    → (a ≤ℤ a +ℤ e) × (a +ℤ e ≤ℤ int64_max)
in_time a e h k = let h' = leb_of h in let k' = leb_of k in (omega int_laws, omega int_laws)
  where
    leb_of : {i n : ℕ} → ltb i n ≡ false → n ≤ i
    leb_of e = ground arith

-- A peer `q` that a tick may leave of the peer `p`.
pub record AfterTick {R : Type 0} (p q : Peer R) : Type 0 where
  pub kept : PeerTicked (record p { time_local = q.time_local }) q
  pub time_local_le : p.time_local ≤ℤ q.time_local
  pub time_local_in : q.time_local ≤ℤ int64_max

AfterTick-refl :
    {R : Type 0} (p : Peer R)
    → p.queue_index ≤ length p.queue
    → p.time_local ≤ℤ int64_max
    → AfterTick p p
AfterTick-refl p le small = record {
  kept = PeerTicked-refl p le;
  time_local_le = omega arith;
  time_local_in = small;
}

module _ {R : Type 0} (kit : Kit) (generate : R → ℕ × R) where
  advance-AfterTick :
      (p q : Peer R) (elapsed : ℤ)
      → ltb_ℤ elapsed (pos 0) ≡ false
      → ltb_ℤ (int64_max -ℤ elapsed) p.time_local ≡ false
      → PeerTicked (advance kit generate p elapsed) q
      → AfterTick p q
  unfolding advance
  advance-AfterTick p q elapsed positive fits h =
      let (le, small) = in_time p.time_local elapsed positive fits in
      record {
        kept = record {
          mode_is = h.mode_is;
          actor_is = h.actor_is;
          time_local_is = refl;
          queue = h.queue;
          queue_index_le = h.queue_index_le;
          queue_index_in = h.queue_index_in;
          slots =
              Pairwise-trans SlotTicked SlotTicked-trans p.slots (map (run_clock elapsed) p.slots)
                q.slots (map-SlotTicked (run_clock elapsed) p.slots (run_clock-SlotTicked elapsed))
                h.slots;
        };
        time_local_le = subst (λ t. p.time_local ≤ℤ t) (sym h.time_local_is) le;
        time_local_in = subst (λ t. t ≤ℤ int64_max) (sym h.time_local_is) small;
      }

-- Where a peer's `queue_index` is in its mutual queue and its `time_local` is at most INT64_MAX,
-- peer_tick keeps them so, whatever memory there is and whatever the generator gives. It keeps the
-- messages below it as they are, and never makes the mutual queue shorter. It keeps the slots in
-- number and order, each with its endpoints, actor and queue, and moves the places in the queues
-- and `time_local` only forward.
pub tick-AfterTick :
    {R : Type 0} (kit : Kit) (generate : R → ℕ × R) (peer peer' : Peer R) (elapsed : ℤ)
    (status : Status) (packets : List Packet)
    → peer.queue_index ≤ length peer.queue
    → peer.time_local ≤ℤ int64_max
    → tick kit generate peer elapsed ≡ some (status, peer', packets)
    → AfterTick peer peer'
unfolding tick advance
tick-AfterTick kit generate peer peer' elapsed status packets le small e =
    of_post {P = λ r. AfterTick peer r.1}
      (Post-cases (ltb_ℤ elapsed (pos 0)) (λ _. post_some (AfterTick-refl peer le small))
        λ positive.
          Post-cases (ltb_ℤ (int64_max -ℤ elapsed) peer.time_local)
            (λ _. post_some (AfterTick-refl peer le small))
            λ fits.
              Post-map (λ r h. advance-AfterTick kit generate peer r.1 elapsed positive fits h)
                (tick_as-PeerTicked kit generate peer.mode (advance kit generate peer elapsed) le))
      e
