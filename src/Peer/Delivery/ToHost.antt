-- ===== src/Peer/Delivery/ToHost.antt =====
-- source/peer/peer.c: what queue_pack packs for a host gets to the slot of the client.
use peer.Prelude.{
  get_elem?-drop, ℕ, zero, suc, ◌+◌, ◌<◌, ◌≡◌, refl, ap, ap₂, subst, ◌∙◌, Bool, true, ◌&&◌, List,
  [], ◌∷◌, some, length, get_elem?, set, get_elem?-set_self, get_elem?-lt, drop, All, find_index,
}
use peer.Prelude.Int.{ℤ, ◌==ℤ◌}
use peer.Options.{kit_ok}
use peer.Serial.{Bytes}
use peer.Kit.{Kit, Array}
use peer.Packet.{Packet}
use peer.Queue.{Message, Queue}
use peer.Queue.View.{lookup}
use peer.Peer.{Slot, Peer, Mode, host}
use peer.Peer.Delivery.{Sends, Came, Sealed-unique, unpack_one}
use peer.Peer.Delivery.Sent.{
  IsSendable, AreAmong, All-among, All-split, all_come, chunks_from-all, come_at, lookup-get_elem?,
  packed-Sends,
}
use peer.Peer.Input.{is_for, is_from, host_chunks, process, input_packet, input_from, input}
use peer.Peer.Input.FromClient.{IsOf, TakenIn, host_chunks-TakenIn}
use peer.Peer.Input.Mutual.{Agrees, HasCome}
use peer.Peer.Send.{queue_pack}
use peer.Peer.Send.Trail.{chunks_from}

find_index-set :
    (test : Slot → Bool) (i : ℕ) (xs : List Slot) (k : ℕ) (x y : Slot)
    → get_elem? xs k ≡ some x
    → test y ≡ test x
    → find_index test i (set xs k y) ≡ find_index test i xs
unfolding find_index
find_index-set test i [] k x y e same = refl
find_index-set test i (z ∷ xs) zero x y e same = let eq : x ≡ z = cc in rw (same, eq)
find_index-set test i (z ∷ xs) (suc k) x y e same = rw (find_index-set test (i + 1) xs k x y e same)

-- What has come stays, where what stands in the queue does.
come_on :
    (q q' : Queue) (cs : List Bytes)
    → ((j : ℕ) (m : Message) → lookup q j ≡ some m → lookup q' j ≡ some m)
    → All (HasCome q) cs
    → All (HasCome q') cs
come_on q q' [] stay come = tt
come_on q q' (c ∷ cs) stay ((j, m, e, is), come) =
    ((j, m, stay j m e, is), come_on q q' cs stay come)

-- A host whose slot at `place` is for the peer `s`, with the id `d` on this side.
pub record HasSlot {R : Type 0} (s d : ℤ) (place : ℕ) (slot : Slot) (p : Peer R) : Type 0 where
  pub mode_is : p.mode ≡ host
  pub slot_is : get_elem? p.slots place ≡ some slot
  pub first : ℕ
  pub for_us : find_index (λ x. x.local.id ==ℤ d) 0 p.slots ≡ some first
  pub from_them : find_index (λ x. (x.local.id ==ℤ d) && (x.remote.id ==ℤ s)) 0 p.slots ≡ some place

module _ {R : Type 0} (s d : ℤ) (place : ℕ) (h : Queue) (actor : ℤ) (own : IsOf actor h) (kit : Kit)
    (room : (a : Array) (n : ℕ) → kit.fits a n ≡ true) where
  with_queue :
      (slot : Slot) (q : Queue) (p : Peer R)
      → HasSlot s d place slot p
      → HasSlot s d place
          (record slot { queue = q })
          (record p { slots = set p.slots place (record slot { queue = q }) })
  with_queue slot q p has =
      let new : Slot = record slot { queue = q } in
      record {
        mode_is = has.mode_is;
        slot_is =
            get_elem?-set_self p.slots place new (get_elem?-lt p.slots place slot has.slot_is);
        first = has.first;
        for_us = find_index-set _ 0 p.slots place slot new has.slot_is refl ∙ has.for_us;
        from_them = find_index-set _ 0 p.slots place slot new has.slot_is refl ∙ has.from_them;
      }

  process_host :
      (m : Mode) (cs : List Bytes) (p : Peer R) (slot slot' : Slot)
      → m ≡ host
      → host_chunks kit cs kit_ok slot ≡ some (kit_ok, slot')
      → process kit m cs kit_ok p place slot
        ≡ some (kit_ok, record p { slots = set p.slots place slot' })
  unfolding process
  process_host host cs p slot slot' e took = rw took
  process_host Mode.client cs p slot slot' e took = absurd (cc)

  input_packet-TakenIn :
      (packet : Packet) (p : Peer R) (slot : Slot)
      → HasSlot s d place slot p
      → (v : Sends h s d packet) → (t : TakenIn kit room h actor own v.chunks kit_ok slot)
      → input_packet kit packet kit_ok p
        ≡ some (kit_ok, record p { slots = set p.slots place (record slot { queue = t.queue }) })
  unfolding input_packet
  input_packet-TakenIn packet p slot has v t =
      let to_us : find_index (is_for packet) 0 p.slots ≡ some has.first =
        ap (λ x. find_index (λ y. y.local.id ==ℤ x) 0 p.slots) v.sealed.carries.to ∙ has.for_us in
      let from_them : find_index (is_from packet) 0 p.slots ≡ some place =
        ap₂ (λ x z. find_index (λ y. (y.local.id ==ℤ x) && (y.remote.id ==ℤ z)) 0 p.slots)
          v.sealed.carries.to v.sealed.carries.from
        ∙ has.from_them in
      rw (to_us, from_them, input_packet, has.slot_is, unpack_one kit room packet v.chunks v.sealed)
        (process_host p.mode v.chunks p slot _ has.mode_is t.result)

  -- What packets leave of a host and of the slot.
  record Received (ps : List Packet) (p : Peer R) (slot : Slot) : Type 0 where
    after : Peer R
    queue : Queue
    ran : input kit p ps ≡ some (kit_ok, after)
    has : HasSlot s d place (record slot { queue = queue }) after
    agrees : Agrees h queue
    came : All (Came s d queue) ps
    stay : (j : ℕ) (m : Message) → lookup slot.queue j ≡ some m → lookup queue j ≡ some m

  input-Received :
      (ps : List Packet) (p : Peer R) (slot : Slot)
      → HasSlot s d place slot p
      → slot.actor ≡ actor
      → Agrees h slot.queue
      → All (Sends h s d) ps
      → Received ps p slot
  unfolding input input_from
  input-Received [] p slot has who agrees vs = record {
    after = p;
    queue = slot.queue;
    ran = refl;
    has = has;
    agrees = agrees;
    came = tt;
    stay = λ j m e. e;
  }
  input-Received (packet ∷ ps) p slot has who agrees (v, vs) =
      let t = host_chunks-TakenIn kit room h actor own v.chunks kit_ok slot who agrees v.sent in
      let r =
        input-Received ps _ (record slot { queue = t.queue }) (with_queue slot t.queue p has) who
          t.agrees vs in
      record {
        after = r.after;
        queue = r.queue;
        ran = rw (input_packet-TakenIn packet p slot has v t, r.ran);
        has = r.has;
        agrees = r.agrees;
        came = (
          λ cs u.
              let same = Sealed-unique kit room packet v.chunks cs v.sealed u in
              come_on t.queue r.queue cs r.stay (subst (All (HasCome t.queue)) same t.come),
          r.came,
        );
        stay = λ j m e. r.stay j m (t.stay j m e);
      }

module _ {R S : Type 0} (kit kit' : Kit) (generate : R → ℕ × R)
    (room : (a : Array) (n : ℕ) → kit.fits a n ≡ true)
    (room' : (a : Array) (n : ℕ) → kit'.fits a n ≡ true) (h : Queue) (sendable : IsSendable h)
    (index : ℕ) (s d : ℤ) (rng rng' : R) (inside : index < length h) (packets : List Packet)
    (packed : queue_pack kit generate h index s d [] rng ≡ some (kit_ok, packets, rng'))
    (arrived : List Packet) (among : AreAmong packets arrived) (all : AreAmong arrived packets)
    (peer : Peer S) (place : ℕ) (slot : Slot) (has_slot : HasSlot s d place slot peer)
    (own : IsOf slot.actor h) (agrees : Agrees h slot.queue) where
  -- Once every packet that queue_pack makes of a client's queue has come, in any order and however
  -- often, the host has taken them in without an error, and in its slot for the client only the
  -- queue has changed: from the index on it is that of the client, the message of every place in
  -- its place and none behind the last. The conditions are memory to be had, an index below the
  -- size of the queue, messages that can all be sent and have the time 0 and the slot's actor, and
  -- a slot whose queue agreed with the client's.
  pub input_complete_host :
      (peer' : Peer S) × (queue : Queue) × (input kit' peer arrived ≡ some (kit_ok, peer'))
      × (get_elem? peer'.slots place ≡ some (record slot { queue = queue }))
      × ((k : ℕ) → lookup queue (index + k) ≡ get_elem? h (index + k))
  input_complete_host =
      let (older, seals, sends) =
        packed-Sends kit generate room h sendable index s d rng rng' inside packets packed in
      let r =
        input-Received s d place h slot.actor own kit' room' arrived peer slot has_slot refl agrees
          (All-among (Sends h s d) packets arrived sends among) in
      let chunks = chunks_from index (drop index h) in
      let come : All (HasCome r.queue) chunks =
        (All-split (HasCome r.queue) chunks older (
          all_come s d r.queue seals
            (All-among (Came s d r.queue) arrived packets r.came all))).0 in
      (
        r.after,
        r.queue,
        r.ran,
        r.has.slot_is,
        λ k. lookup-get_elem? h sendable r.queue (index + k) r.agrees λ m e.
            come_at h sendable r.queue (index + k) m r.agrees e (
              chunks_from-all (HasCome r.queue) index (drop index h) k m come
                (get_elem?-drop index h k ∙ e)),
      )
