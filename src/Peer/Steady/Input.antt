-- ===== src/Peer/Steady/Input.antt =====
-- source/peer/peer.c, peer_input: whatever packets come, the messages of a host's slots fit packets.
use peer.Prelude.{
  ℕ, ◌≡◌, refl, sym, subst, not, ◌||◌, List, [], ◌∷◌, Option, none, some, ◌>>=◌, ◌==◌, length,
  get_elem?, set, find_index, All, All-get_elem?, All-set, bit_or,
}
use peer.Prelude.Int.{pos, ◌==ℤ◌}
use peer.Prelude.Post.{Post, of_post, post_some, post_none, Post-if, Post-bind, Post-then, if_cases}
use peer.Options.{Status, kit_ok, undefined}
use peer.Options.Error
use peer.Options.MessageMode
use peer.Options.Service
use peer.Serial.{Bytes}
use peer.Kit.{Kit}
use peer.Packet.{Packet, unpack}
use peer.Peer.{Slot, Peer, Mode, host, is_host}
use peer.Peer.Receive.{Fields, read_fields, read_service, host_message, host_chunk}
use peer.Peer.Input.{
  is_for, is_from, is_free, assign, host_chunks, process, accept, input_packet, input_from, input,
}
use peer.Peer.Send.Trail.{IsSmall}
use peer.Peer.Tick.Total.{CanServe}
use peer.Peer.Log.Input.{input-SameLog}
use peer.Peer.Steady.{IsSteady, CanServe-kept}
use peer.Peer.Steady.Chunks.{Fitting, unpack-Fitting, read_payload-small}
use peer.Peer.Steady.Queues.{queue_insert-IsSmall}

module _ (kit : Kit) (n : ℕ) where
  abbrev Served : Status × Slot → Type 0
  Served r = CanServe n r.1

  host_message-CanServe :
      (f : Fields) (c : Bytes) (status : Status) (slot : Slot)
      → Fitting c
      → CanServe n slot
      → Post Served (host_message kit f c status slot)
  unfolding host_message
  host_message-CanServe f c status slot small can =
      Post-if (f.mode == MessageMode.service)
        (Post-bind (read_service f c)
          λ service. Post-if (service == Service.heartbeat) (post_some can) (post_some can))
        (Post-then (read_payload-small f.data_size c small) λ payload small_payload.
          Post-then
            (queue_insert-IsSmall kit slot.queue f.index f.time (pos f.actor) payload small_payload
              can.messages_small)
            λ r small_queue. post_some (
              CanServe-kept n slot slot.state slot.remote _ slot.actor slot.in_index
                slot.clock_heartbeat can small_queue))

  host_chunk-CanServe :
      (c : Bytes) (status : Status) (slot : Slot)
      → Fitting c
      → CanServe n slot
      → Post Served (host_chunk kit c status slot)
  unfolding host_chunk
  host_chunk-CanServe c status slot small can = Post-bind (read_fields c) λ f.
      Post-if (not (f.time ==ℤ pos 0)) (post_some can) (
        Post-if (not (pos f.actor ==ℤ slot.actor)) (post_some can)
          (host_message-CanServe f c status slot small can))

  host_chunks-CanServe :
      (cs : List Bytes) (status : Status) (slot : Slot)
      → All Fitting cs
      → CanServe n slot
      → Post Served (host_chunks kit cs status slot)
  unfolding host_chunks
  host_chunks-CanServe [] status slot small can = post_some can
  host_chunks-CanServe (c ∷ cs) status slot (small, rest) can =
      Post-then (host_chunk-CanServe c status slot small can)
        λ r served. host_chunks-CanServe cs r.0 r.1 rest served

module _ {R : Type 0} (kit : Kit) (n : ℕ) where
  -- A host all of whose slots can be sent to.
  abbrev AllServed : Status × Peer R → Type 0
  AllServed r = (r.1.mode ≡ host) × All (CanServe n) r.1.slots

  process-AllServed :
      (m : Mode) (chunks : List Bytes) (status : Status) (p : Peer R) (j : ℕ) (slot : Slot)
      → m ≡ host
      → p.mode ≡ host
      → All Fitting chunks
      → CanServe n slot
      → All (CanServe n) p.slots
      → Post AllServed (process kit m chunks status p j slot)
  unfolding process
  process-AllServed host chunks status p j slot e mode small can h =
      Post-then (host_chunks-CanServe kit n chunks status slot small can)
        λ r served. post_some (mode, All-set (CanServe n) p.slots j r.1 served h)
  process-AllServed Mode.client chunks status p j slot e mode small can h = absurd (cc)

  accept-AllServed :
      (packet : Packet) (status : Status) (p : Peer R) (slots : List Slot)
      → p.mode ≡ host
      → All (CanServe n) p.slots
      → AllServed (accept kit packet status p slots)
  unfolding accept
  accept-AllServed packet status p [] mode h = (mode, h)
  accept-AllServed packet status p (first ∷ rest) mode h =
      if_cases AllServed (not (is_host p.mode) || not (first.remote.id ==ℤ undefined)) _ _
        (λ _. (mode, h)) (λ _. free (find_index is_free 1 rest))
    where
      given :
          (j : ℕ) (o : Option Slot)
          → get_elem? p.slots j ≡ o
          → AllServed (elim o [
            | none ↦ (status, p)
            | some slot ↦
                (status, record p { slots = set p.slots j (assign j packet.source_id slot) })
          ])
      given j none e = (mode, h)
      given j (some slot) e =
          let can = All-get_elem? (CanServe n) p.slots j slot h e in
          (
            mode,
            All-set (CanServe n) p.slots j (assign j packet.source_id slot)
                (CanServe-kept n slot _ _ slot.queue _ slot.in_index slot.clock_heartbeat can
                  can.messages_small)
                h,
          )

      free :
          (o : Option ℕ)
          → AllServed (elim o [
            | none ↦ (bit_or status Error.no_free_slots, p)
            | some j ↦ elim (get_elem? p.slots j) [
              | none ↦ (status, p)
              | some slot ↦
                  (status, record p { slots = set p.slots j (assign j packet.source_id slot) })
            ]
          ])
      free none = (mode, h)
      free (some j) = given j (get_elem? p.slots j) refl

  input_packet-AllServed :
      (packet : Packet) (status : Status) (p : Peer R)
      → p.mode ≡ host
      → All (CanServe n) p.slots
      → Post AllServed (input_packet kit packet status p)
  unfolding input_packet
  input_packet-AllServed packet status p mode h =
      known (find_index (is_for packet) 0 p.slots) (find_index (is_from packet) 0 p.slots)
    where
      taken :
          (j : ℕ) (o : Option Slot)
          → get_elem? p.slots j ≡ o
          → Post AllServed (elim o [
            | none ↦ none
            | some slot ↦ (do
              (s, chunks) ← unpack kit (packet ∷ []) []
              process kit p.mode chunks (bit_or status s) p j slot)
          ])
      taken j none e = post_none
      taken j (some slot) e = Post-then (unpack-Fitting kit (packet ∷ [])) λ r small.
          process-AllServed p.mode r.1 (bit_or status r.0) p j slot mode mode small
            (All-get_elem? (CanServe n) p.slots j slot h e) h

      known :
          (o r : Option ℕ)
          → Post AllServed (elim o [
            | none ↦ some (status, p)
            | some _ ↦ elim r [
              | none ↦ some (accept kit packet status p p.slots)
              | some j ↦ elim (get_elem? p.slots j) [
                | none ↦ none
                | some slot ↦ (do
                  (s, chunks) ← unpack kit (packet ∷ []) []
                  process kit p.mode chunks (bit_or status s) p j slot)
              ]
            ]
          ])
      known none r = post_some (mode, h)
      known (some i) none = post_some (accept-AllServed packet status p p.slots mode h)
      known (some i) (some j) = taken j (get_elem? p.slots j) refl

  input_from-AllServed :
      (packets : List Packet) (status : Status) (p : Peer R)
      → p.mode ≡ host
      → All (CanServe n) p.slots
      → Post AllServed (input_from kit packets status p)
  unfolding input_from
  input_from-AllServed [] status p mode h = post_some (mode, h)
  input_from-AllServed (packet ∷ packets) status p mode h =
      Post-then (input_packet-AllServed packet status p mode h)
        λ r served. input_from-AllServed packets r.0 r.1 served.0 served.1

-- Whatever packets come, and whatever memory there is, a host stays steady.
pub input-IsSteady :
    {R : Type 0} (kit : Kit) (p q : Peer R) (packets : List Packet) (status : Status)
    → IsSteady p
    → input kit p packets ≡ some (status, q)
    → IsSteady q
unfolding input
input-IsSteady kit p q packets status h e =
    let (mode, served) =
      of_post (input_from-AllServed kit (length p.queue) packets kit_ok p h.mode_is h.slots_served)
        e in
    let same = input-SameLog kit p q packets status h.mode_is e in
    record {
      mode_is = mode;
      queue_small = subst (All IsSmall) (sym same.queue_is) h.queue_small;
      slots_served = subst (λ x. All (CanServe (length x)) q.slots) (sym same.queue_is) served;
    }
