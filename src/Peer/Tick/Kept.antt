-- ===== src/Peer/Tick/Kept.antt =====
-- source/peer/peer.c, peer_tick: what a tick keeps of a peer, and how far it moves its marks.
use peer.Prelude.{
  ℕ, zero, suc, ◌+◌, ◌≤◌, ◌≡◌, refl, sym, ap, ◌∙◌, Bool-cases, inl, inr, List, [], ◌∷◌, ◌++◌, arith,
  length, length-append, map, take, take-append_le, drop,
}
use peer.Prelude.Int.{ℤ, pos, ltb_ℤ}
use peer.Prelude.Pairs.{Pairwise, Pairwise-refl, Pairwise-trans}
use peer.Options.{Status}
use peer.Kit
use peer.Kit.{Kit}
use peer.Queue.{Message, Queue, queue_append}
use peer.Peer.{Slot, SlotState, Peer}
use peer.Peer.Tick.{run_clock, set_time, set_times, collect, collect_slots}

-- A slot keeps its endpoints, its actor and the messages of its queue; its places in the queues do
-- not go back.
pub record SlotTicked (a b : Slot) : Type 0 where
  pub local_is : b.local ≡ a.local
  pub remote_is : b.remote ≡ a.remote
  pub actor_is : b.actor ≡ a.actor
  pub queue_is : b.queue ≡ a.queue
  pub in_index_le : a.in_index ≤ b.in_index
  pub out_index_le : a.out_index ≤ b.out_index

pub SlotTicked-refl : (a : Slot) → SlotTicked a a
SlotTicked-refl a = record {
  local_is = refl;
  remote_is = refl;
  actor_is = refl;
  queue_is = refl;
  in_index_le = omega arith;
  out_index_le = omega arith;
}

pub SlotTicked-trans : (a b c : Slot) → SlotTicked a b → SlotTicked b c → SlotTicked a c
SlotTicked-trans a b c h k = record {
  local_is = k.local_is ∙ h.local_is;
  remote_is = k.remote_is ∙ h.remote_is;
  actor_is = k.actor_is ∙ h.actor_is;
  queue_is = k.queue_is ∙ h.queue_is;
  in_index_le = omega (arith, h.in_index_le, k.in_index_le);
  out_index_le = omega (arith, h.out_index_le, k.out_index_le);
}

-- A slot of which only the state, the clock and the places in the queues change, and those forward.
pub SlotTicked-marks :
    (a : Slot) (state : SlotState) (i o : ℕ) (clock : ℤ)
    → a.in_index ≤ i
    → a.out_index ≤ o
    → SlotTicked a
        (record a { state = state; in_index = i; out_index = o; clock_heartbeat = clock })
SlotTicked-marks a state i o clock hi ho = record {
  local_is = refl;
  remote_is = refl;
  actor_is = refl;
  queue_is = refl;
  in_index_le = hi;
  out_index_le = ho;
}

pub run_clock-SlotTicked : (elapsed : ℤ) (a : Slot) → SlotTicked a (run_clock elapsed a)
run_clock-SlotTicked elapsed a = elim (Bool-cases (ltb_ℤ (pos 0) a.clock_heartbeat)) [
  | inl running ↦
      rw running (SlotTicked-marks a a.state a.in_index a.out_index _ (omega arith) (omega arith))
  | inr stopped ↦ rw stopped (SlotTicked-refl a)
]

pub map-SlotTicked :
    (f : Slot → Slot) (slots : List Slot)
    → ((a : Slot) → SlotTicked a (f a))
    → Pairwise SlotTicked slots (map f slots)
map-SlotTicked f [] h = tt
map-SlotTicked f (a ∷ slots) h = (h a, map-SlotTicked f slots h)

-- The mutual queue keeps what has been sent of it, and only gets longer.
pub record QueueTicked (n : ℕ) (q q' : Queue) : Type 0 where
  pub sent_is : take n q' ≡ take n q
  pub length_le : length q ≤ length q'

QueueTicked-refl : (n : ℕ) (q : Queue) → QueueTicked n q q
QueueTicked-refl n q = record { sent_is = refl; length_le = omega arith }

-- Messages that are added behind all that have been sent.
QueueTicked-append :
    (n : ℕ) (q q' : Queue) (m : Message)
    → n ≤ length q
    → QueueTicked n q q'
    → QueueTicked n q (q' ++ m ∷ [])
QueueTicked-append n q q' m le h = record {
  sent_is = take-append_le n q' (m ∷ []) (omega (arith, h.length_le)) ∙ h.sent_is;
  length_le = omega (arith, h.length_le, length-append q' (m ∷ []));
}

pub set_times-QueueTicked : (time : ℤ) (n : ℕ) (q : Queue) → QueueTicked n q (set_times time n q)
unfolding set_times
set_times-QueueTicked time zero q = record { sent_is = refl; length_le = same q }
  where
    same : (xs : Queue) → length xs ≤ length (map (set_time time) xs)
    same [] = omega arith
    same (x ∷ xs) = omega (arith, same xs)
set_times-QueueTicked time (suc n) [] = record { sent_is = refl; length_le = omega arith }
set_times-QueueTicked time (suc n) (x ∷ q) =
    let h = set_times-QueueTicked time n q in
    record { sent_is = ap (◌∷◌ x) h.sent_is; length_le = omega (arith, h.length_le) }

module _ (kit : Kit) (n : ℕ) (start : Queue) (le : n ≤ length start) where
  queue_append-QueueTicked :
      (q : Queue) (time actor : ℤ) (m : Message)
      → QueueTicked n start q
      → QueueTicked n start (queue_append kit q time actor m.payload).1
  unfolding queue_append
  queue_append-QueueTicked q time actor m h =
      elim (Bool-cases (kit.fits Kit.messages (length q + 1))) [
        | inr full ↦ rw full h
        | inl fits ↦ elim (Bool-cases (kit.fits Kit.payload (length m.payload))) [
          | inr full ↦ rw (fits, full) h
          | inl small ↦ rw (fits, small) (QueueTicked-append n start q _ le h)
        ]
      ]

  collect-QueueTicked :
      (time actor : ℤ) (ms : List Message) (status : Status) (q : Queue)
      → QueueTicked n start q
      → QueueTicked n start (collect kit time actor ms status q).1
  unfolding collect
  collect-QueueTicked time actor [] status q h = h
  collect-QueueTicked time actor (m ∷ ms) status q h = elim (Bool-cases m.is_ready) [
    | inl come ↦
        rw come (collect-QueueTicked time actor ms _ _ (queue_append-QueueTicked q time actor m h))
    | inr gap ↦ rw gap h
  ]

  pub collect_slots-Ticked :
      (time : ℤ) (slots : List Slot) (status : Status) (q : Queue)
      → QueueTicked n start q
      → let r = collect_slots kit time slots status q in
        QueueTicked n start r.1 × Pairwise SlotTicked slots r.2
  unfolding collect_slots
  collect_slots-Ticked time [] status q h = (h, tt)
  collect_slots-Ticked time (a ∷ slots) status q h =
      let r = collect kit time a.actor (drop a.in_index a.queue) status q in
      let (h', rest) =
        collect_slots-Ticked time slots r.0 r.1
          (collect-QueueTicked time a.actor (drop a.in_index a.queue) status q h) in
      (
        h',
        (
          SlotTicked-marks a a.state (a.in_index + r.2) a.out_index a.clock_heartbeat (omega arith)
              (omega arith),
          rest,
        ),
      )

-- What a tick keeps of a peer.
pub record PeerTicked {R : Type 0} (p q : Peer R) : Type 0 where
  pub mode_is : q.mode ≡ p.mode
  pub actor_is : q.actor ≡ p.actor
  pub time_local_is : q.time_local ≡ p.time_local
  pub queue : QueueTicked p.queue_index p.queue q.queue
  pub queue_index_le : p.queue_index ≤ q.queue_index
  pub queue_index_in : q.queue_index ≤ length q.queue
  pub slots : Pairwise SlotTicked p.slots q.slots

module _ {R : Type 0} where
  pub PeerTicked-slots :
      (p : Peer R) (slots : List Slot) (rng : R)
      → p.queue_index ≤ length p.queue
      → Pairwise SlotTicked p.slots slots
      → PeerTicked p (record p { slots = slots; mt64 = rng })
  PeerTicked-slots p slots rng le h = record {
    mode_is = refl;
    actor_is = refl;
    time_local_is = refl;
    queue = QueueTicked-refl p.queue_index p.queue;
    queue_index_le = omega arith;
    queue_index_in = le;
    slots = h;
  }

  pub PeerTicked-refl : (p : Peer R) → p.queue_index ≤ length p.queue → PeerTicked p p
  PeerTicked-refl p le =
      PeerTicked-slots p p.slots p.mt64 le (Pairwise-refl SlotTicked SlotTicked-refl p.slots)

  -- A host that has the queue `q` and has sent all of it.
  pub PeerTicked-queue :
      (p : Peer R) (t : ℤ) (q : Queue) (slots : List Slot) (rng : R)
      → p.queue_index ≤ length p.queue
      → QueueTicked p.queue_index p.queue q
      → Pairwise SlotTicked p.slots slots
      → PeerTicked p
          (record p { time = t; queue = q; queue_index = length q; slots = slots; mt64 = rng })
  PeerTicked-queue p t q slots rng le h k = record {
    mode_is = refl;
    actor_is = refl;
    time_local_is = refl;
    queue = h;
    queue_index_le = omega (arith, le, h.length_le);
    queue_index_in = omega arith;
    slots = k;
  }

  pub PeerTicked-trans : (p q r : Peer R) → PeerTicked p q → PeerTicked q r → PeerTicked p r
  PeerTicked-trans p q r h k = record {
    mode_is = k.mode_is ∙ h.mode_is;
    actor_is = k.actor_is ∙ h.actor_is;
    time_local_is = k.time_local_is ∙ h.time_local_is;
    queue = record {
      sent_is =
          sym (take-take p.queue_index q.queue_index r.queue h.queue_index_le)
          ∙ ap (take p.queue_index) k.queue.sent_is
          ∙ take-take p.queue_index q.queue_index q.queue h.queue_index_le
          ∙ h.queue.sent_is;
      length_le = omega (arith, h.queue.length_le, k.queue.length_le);
    };
    queue_index_le = omega (arith, h.queue_index_le, k.queue_index_le);
    queue_index_in = k.queue_index_in;
    slots = Pairwise-trans SlotTicked SlotTicked-trans p.slots q.slots r.slots h.slots k.slots;
  }
    where
      take-take : (i j : ℕ) (xs : Queue) → i ≤ j → take i (take j xs) ≡ take i xs
      take-take zero j xs l = refl
      take-take (suc i) zero xs l = absurd (omega arith)
      take-take (suc i) (suc j) [] l = refl
      take-take (suc i) (suc j) (x ∷ xs) l = ap (◌∷◌ x) (take-take i j xs (omega arith))
