-- ===== src/Peer/Receive/Client.antt =====
-- source/peer/peer.c, peer_input: what a chunk changes for a client.
use peer.Prelude.{
  ℕ, ◌-◌, ◌≡◌, refl, ◌∙◌, Bool-cases, inl, inr, some, ◌==◌, if◌then◌else◌, arith, drop,
}
use peer.Prelude.Int.{ℤ, pos, ℤ-cases, ltb_ℤ}
use peer.Prelude.Post.{Post, post_some, post_none, Post-if, Post-bind, Post-then}
use peer.Prelude.Pairs.{Pairwise, Pairwise-refl}
use peer.Options.{Status}
use peer.Options.MessageMode
use peer.Options.Service
use peer.Packet.{read_bytes}
use peer.Serial.{Bytes, memcpy}
use peer.Kit.{Kit}
use peer.Peer.{Endpoint, Slot, Peer}
use peer.Peer.Kept.{
  Stays-refl, set_actors-Stays, SlotKept, SlotKept-refl, SlotKept-remote, PeerKept, PeerKept-refl,
  PeerKept-fields, PeerKept-trans,
}
use peer.Peer.Receive.{
  Fields, read_fields, read_service, read_payload, set_remote_address, session_response,
  client_message, client_chunk,
}
use peer.Peer.Receive.Host.{queue_insert-Stays}

set_remote_address-id :
    (n : ℕ) (c : Bytes) (remote : Endpoint)
    → Post (λ r. r.id ≡ remote.id) (set_remote_address n c remote)
unfolding set_remote_address
set_remote_address-id n c remote =
    Post-bind (read_bytes n (drop 31 c))
      λ address. Post-bind (memcpy address remote.address_data) λ bytes. post_some refl

module _ {R : Type 0} (kit : Kit) (peer : Peer R) (slot : Slot) where
  abbrev Kept : Status × Peer R × Slot → Type 0
  Kept r = PeerKept peer r.1 × SlotKept slot r.2 × (r.1.slots ≡ peer.slots)

  unchanged : (status : Status) → Post Kept (some (status, peer, slot))
  unchanged status = post_some (PeerKept-refl peer, SlotKept-refl slot, refl)

  same_slots : Pairwise SlotKept peer.slots peer.slots
  same_slots = Pairwise-refl SlotKept SlotKept-refl peer.slots

  session_response-Kept :
      (f : Fields) (c : Bytes) (status : Status) → Post Kept (session_response f c status peer slot)
  unfolding session_response
  session_response-Kept f c status = elim (ℤ-cases f.data_size) [
    | inl (n, e) ↦
        rw (e, session_response)
          (Post-then (set_remote_address-id (n - 1) c slot.remote) λ remote same. post_some (
            PeerKept-fields peer peer.time (pos f.actor) peer.queue peer.slots (omega arith)
                (Stays-refl peer.queue) same_slots,
            SlotKept-remote slot remote _ same (set_actors-Stays (pos f.actor) slot.queue),
            refl,
          ))
    | inr (n, e) ↦ rw (e, session_response) post_none
  ]

  client_message-Kept :
      (f : Fields) (c : Bytes) (status : Status)
      → Post Kept (client_message kit f c status peer slot)
  unfolding client_message
  client_message-Kept f c status =
      Post-if (f.mode == MessageMode.service)
        (Post-bind (read_service f c) λ service.
          Post-if (service == Service.heartbeat) (unchanged status) (
            Post-if (service == Service.session_response) (session_response-Kept f c status)
              (unchanged _)))
        (Post-bind (read_payload f.data_size c) λ payload.
          Post-then (queue_insert-Stays kit peer.queue f.index f.time (pos f.actor) payload)
            λ r stays. post_some (
              PeerKept-fields peer peer.time peer.actor _ peer.slots (omega arith) stays same_slots,
              SlotKept-refl slot,
              refl,
            ))

-- The mutual time goes up to the time of a message, and never down.
later :
    {R : Type 0} (p : Peer R) (t : ℤ)
    → let q = if ltb_ℤ p.time t then record p { time = t } else p in
      PeerKept p q × (q.slots ≡ p.slots)
later p t = elim (Bool-cases (ltb_ℤ p.time t)) [
  | inl e ↦ rw e (
    PeerKept-fields p t p.actor p.queue p.slots (ground arith) (Stays-refl p.queue)
        (Pairwise-refl SlotKept SlotKept-refl p.slots),
    refl,
  )
  | inr e ↦ rw e (PeerKept-refl p, refl)
]

module _ {R : Type 0} (kit : Kit) (peer : Peer R) (slot : Slot) where
  pub client_chunk-Kept :
      (c : Bytes) (status : Status)
      → Post
          (λ r. PeerKept peer r.1 × SlotKept slot r.2 × (r.1.slots ≡ peer.slots))
          (client_chunk kit c status peer slot)
  unfolding client_chunk
  client_chunk-Kept c status = Post-bind (read_fields c) λ f.
      Post-then (client_message-Kept kit peer slot f c status) λ r kept.
        let t = later r.1 f.time in
        post_some (PeerKept-trans peer r.1 _ kept.0 t.0, kept.1, t.1 ∙ kept.2)
