-- ===== src/Peer/Log/Tick.antt =====
-- source/peer/peer.c, peer_tick: a tick of a host appends to its log.
use peer.Prelude.{
  ℕ, ◌+◌, ◌≡◌, refl, sym, ap, subst, ◌∙◌, true, Bool-cases, inl, inr, List, [], ◌∷◌, ◌++◌,
  append_assoc, append-nil, some, arith, All, All-append, All-take, All-drop, take_all, length, map,
  take, drop, bit_or,
}
use peer.Prelude.Int.{ℤ, pos, ltb_ℤ, ◌-ℤ◌, int_laws}
use peer.Prelude.Post.{Post, of_post, post_some, Post-cases, Post-bind, Post-map}
use peer.Options.{Status, kit_ok}
use peer.Kit
use peer.Kit.{Kit}
use peer.Packet.{Packet}
use peer.Queue.{Message, Queue, queue_append}
use peer.Peer.{Slot, Peer, Mode, host}
use peer.Peer.Tick.{
  int64_max, set_time, set_times, collect, collect_slots, send_slots, synchronize, send_all,
  tick_host, advance, tick_as, tick,
}
use peer.Peer.Tick.Frame.{AfterTick, tick-AfterTick}
use peer.Peer.Log.{LogStep, IsStamped, IsHost, log_of}
use peer.Peer.Log.Order.{stamped-ready}

-- A queue with more messages at its end, all with the time `t`.
record Grown (t : ℤ) (q q' : Queue) : Type 0 where
  more : List Message
  is : q' ≡ q ++ more
  stamped : All (IsStamped t) more

Grown-refl : (t : ℤ) (q : Queue) → Grown t q q
Grown-refl t q = record { more = []; is = sym (append-nil q); stamped = tt }

Grown-trans : (t : ℤ) (p q r : Queue) → Grown t p q → Grown t q r → Grown t p r
Grown-trans t p q r h k = record {
  more = h.more ++ k.more;
  is = k.is ∙ ap (λ x. x ++ k.more) h.is ∙ append_assoc p h.more k.more;
  stamped = All-append (IsStamped t) h.more k.more h.stamped k.stamped;
}

module _ (kit : Kit) (t : ℤ) where
  queue_append-Grown :
      (q : Queue) (actor : ℤ) (m : Message) → Grown t q (queue_append kit q t actor m.payload).1
  unfolding queue_append
  queue_append-Grown q actor m = elim (Bool-cases (kit.fits Kit.messages (length q + 1))) [
    | inr full ↦ rw full (Grown-refl t q)
    | inl fits ↦ elim (Bool-cases (kit.fits Kit.payload (length m.payload))) [
      | inr full ↦ rw (fits, full) (Grown-refl t q)
      | inl small ↦
          rw (fits, small)
            (record {
              more = record { is_ready = true; time = t; actor = actor; payload = m.payload } ∷ [];
              is = refl;
              stamped = ((refl, refl), tt);
            })
    ]
  ]

  collect-Grown :
      (actor : ℤ) (ms : List Message) (status : Status) (q : Queue)
      → Grown t q (collect kit t actor ms status q).1
  unfolding collect
  collect-Grown actor [] status q = Grown-refl t q
  collect-Grown actor (m ∷ ms) status q = elim (Bool-cases m.is_ready) [
    | inl come ↦
        let r = queue_append kit q t actor m.payload in
        rw come (
          Grown-trans t q r.1 _ (queue_append-Grown q actor m)
            (collect-Grown actor ms (bit_or status r.0) r.1))
    | inr gap ↦ rw gap (Grown-refl t q)
  ]

  collect_slots-Grown :
      (slots : List Slot) (status : Status) (q : Queue)
      → Grown t q (collect_slots kit t slots status q).1
  unfolding collect_slots
  collect_slots-Grown [] status q = Grown-refl t q
  collect_slots-Grown (slot ∷ slots) status q =
      let r = collect kit t slot.actor (drop slot.in_index slot.queue) status q in
      Grown-trans t q r.1 _ (collect-Grown slot.actor (drop slot.in_index slot.queue) status q)
        (collect_slots-Grown slots r.0 r.1)

-- The messages that wait get the time and are behind what has been sent.
set_times-Grown :
    (t : ℤ) (i : ℕ) (q : Queue)
    → All (λ m. m.is_ready ≡ true) q
    → Grown t (take i q) (set_times t i q)
unfolding set_times
set_times-Grown t i q all = record {
  more = map (set_time t) (drop i q);
  is = refl;
  stamped = stamps (drop i q) (All-drop (λ m. m.is_ready ≡ true) i q all);
}
  where
    stamps :
        (ms : Queue) → All (λ m. m.is_ready ≡ true) ms → All (IsStamped t) (map (set_time t) ms)
    stamps [] h = tt
    stamps (m ∷ ms) (r, h) = ((r, refl), stamps ms h)

-- What a tick does to the mutual queue of a host: all of it is sent then.
record Taken {R : Type 0} (t : ℤ) (p q : Peer R) : Type 0 where
  queue : Grown t (take p.queue_index p.queue) q.queue
  index_is : q.queue_index ≡ length q.queue
  time_is : q.time_local ≡ t

module _ {R : Type 0} (kit : Kit) (generate : R → ℕ × R) where
  synchronize-Taken :
      (slots : List Slot) (p : Peer R)
      → All (λ m. m.is_ready ≡ true) p.queue
      → Taken p.time_local p (synchronize kit generate slots p).1
  unfolding synchronize
  synchronize-Taken [] p all = record {
    queue = set_times-Grown p.time_local p.queue_index p.queue all;
    index_is = refl;
    time_is = refl;
  }
  synchronize-Taken (first ∷ rest) p all = record {
    queue =
        Grown-trans p.time_local (take p.queue_index p.queue) _ _
          (set_times-Grown p.time_local p.queue_index p.queue all)
          (collect_slots-Grown kit p.time_local rest kit_ok
            (set_times p.time_local p.queue_index p.queue));
    index_is = refl;
    time_is = refl;
  }

  send_all-Taken :
      (t : ℤ) (p : Peer R) (slots : List Slot) (status : Status) (q : Peer R)
      → Taken t p q
      → Post (λ r. Taken t p r.1) (send_all kit generate slots status q)
  unfolding send_all
  send_all-Taken t p [] status q h = post_some h
  send_all-Taken t p (first ∷ rest) status q h =
      Post-bind (send_slots kit generate first.local.id q rest status [] q.mt64)
        λ r. post_some (record { queue = h.queue; index_is = h.index_is; time_is = h.time_is })

  tick_as-Taken :
      (m : Mode) (p : Peer R)
      → m ≡ host
      → All (λ x. x.is_ready ≡ true) p.queue
      → Post (λ r. Taken p.time_local p r.1) (tick_as kit generate m p)
  unfolding tick_as tick_host
  tick_as-Taken host p e all =
      let r = synchronize kit generate p.slots p in
      send_all-Taken p.time_local p r.1.slots r.0 r.1 (synchronize-Taken p.slots p all)
  tick_as-Taken Mode.client p e all = absurd (cc)

  -- What a tick leaves of a host.
  data Ended (p q : Peer R) : Type 0 where
    refused : q ≡ p → Ended p q
    taken : (t : ℤ) → Taken t p q → Ended p q

  tick-Ended :
      (p : Peer R) (elapsed : ℤ) → IsHost p → Post (λ r. Ended p r.1) (tick kit generate p elapsed)
  unfolding tick advance
  tick-Ended p elapsed h =
      Post-cases (ltb_ℤ elapsed (pos 0)) (λ _. post_some (refused refl))
        λ _.
          Post-cases (ltb_ℤ (int64_max -ℤ elapsed) p.time_local) (λ _. post_some (refused refl))
            λ _.
              let p' = advance kit generate p elapsed in
              Post-map
                (λ r k.
                  taken p'.time_local
                    (record { queue = k.queue; index_is = k.index_is; time_is = k.time_is }))
                (tick_as-Taken p.mode p' h.mode_is h.all_ready)

  ended :
      (p q : Peer R)
      → IsHost p
      → AfterTick p q
      → Ended p q
      → LogStep (log_of p) (log_of q) × All (λ m. m.is_ready ≡ true) q.queue
  ended p q h after (refused e) =
      subst (λ (x : Peer R). LogStep (log_of p) (log_of x) × All (λ m. m.is_ready ≡ true) x.queue)
        (sym e)
        (
          record {
            more = [];
            clock_le = omega int_laws;
            grown = sym (append-nil (take p.queue_index p.queue));
            stamped = tt;
          },
          h.all_ready,
        )
  ended p q h after (taken t k) =
      let more = k.queue.more in
      (
        record {
          more = more;
          clock_le = after.time_local_le;
          grown = take_all q.queue_index q.queue (omega (arith, k.index_is)) ∙ k.queue.is;
          stamped = subst (λ x. All (IsStamped x) more) (sym k.time_is) k.queue.stamped;
        },
        subst (All (λ m. m.is_ready ≡ true)) (sym k.queue.is) (
            All-append _ (take p.queue_index p.queue) more
              (All-take (λ m. m.is_ready ≡ true) p.queue_index p.queue h.all_ready)
              (stamped-ready t more k.queue.stamped)),
      )

  pub tick-LogStep :
      (p q : Peer R) (elapsed : ℤ) (status : Status) (packets : List Packet)
      → IsHost p
      → tick kit generate p elapsed ≡ some (status, q, packets)
      → IsHost q × LogStep (log_of p) (log_of q)
  tick-LogStep p q elapsed status packets h e =
      let after = tick-AfterTick kit generate p q elapsed status packets h.index_in h.time_in e in
      let (step, all) = ended p q h after (of_post (tick-Ended p elapsed h) e) in
      (
        record {
          mode_is = after.kept.mode_is ∙ h.mode_is;
          index_in = after.kept.queue_index_in;
          time_in = after.time_local_in;
          all_ready = all;
        },
        step,
      )
