-- ===== src/Peer/Input/Frame.antt =====
-- source/peer/peer.c: what peer_input never changes, and what it never takes back.
use peer.Prelude.{
  find_index, find_index-some, ℕ, suc, ◌≡◌, refl, ◌∙◌, true, not, ◌||◌, List, [], ◌∷◌, some, bit_or,
  Option-cases, Bool-cases, inl, inr, get_elem?, set, arith,
}
use peer.Prelude.Int.{ℤ, ◌==ℤ◌, ==ℤ_eq}
use peer.Prelude.Pairs.{Pairwise-set}
use peer.Prelude.Post.{Post, post_some, post_none, Post-bind, Post-then, Post-map, of_post}
use peer.Options.{Status, kit_ok, undefined}
use peer.Serial.{Bytes}
use peer.Kit.{Kit}
use peer.Packet.{Packet, unpack}
use peer.Peer.{Slot, Peer, Mode, host, client, is_host}
use peer.Peer.Kept.{
  Stays-refl, SlotKept, SlotKept-refl, SlotKept-trans, PeerKept, PeerKept-refl, PeerKept-fields,
  PeerKept-trans,
}
use peer.Peer.Receive.Host.{host_chunk-SlotKept}
use peer.Peer.Receive.Client.{client_chunk-Kept}
use peer.Peer.Input.{
  is_for, is_from, is_free, assign, host_chunks, client_chunks, process, accept, input_packet,
  input_from, input,
}

host_chunks-SlotKept :
    (kit : Kit) (cs : List Bytes) (status : Status) (slot : Slot)
    → Post (λ r. SlotKept slot r.1) (host_chunks kit cs status slot)
unfolding host_chunks
host_chunks-SlotKept kit [] status slot = post_some (SlotKept-refl slot)
host_chunks-SlotKept kit (c ∷ cs) status slot =
    Post-then (host_chunk-SlotKept kit slot c status) λ r kept.
      Post-map (λ (q : Status × Slot) k. SlotKept-trans slot r.1 q.1 kept k)
        (host_chunks-SlotKept kit cs r.0 r.1)

module _ {R : Type 0} (kit : Kit) where
  pub client_chunks-Kept :
      (cs : List Bytes) (status : Status) (peer : Peer R) (slot : Slot)
      → Post
          (λ r. PeerKept peer r.1 × SlotKept slot r.2 × (r.1.slots ≡ peer.slots))
          (client_chunks kit cs status peer slot)
  unfolding client_chunks
  client_chunks-Kept [] status peer slot = post_some (PeerKept-refl peer, SlotKept-refl slot, refl)
  client_chunks-Kept (c ∷ cs) status peer slot =
      Post-then (client_chunk-Kept kit peer slot c status) λ r kept.
        Post-map
          (λ (q : Status × Peer R × Slot) k. (
            PeerKept-trans peer r.1 q.1 kept.0 k.0,
            SlotKept-trans slot r.2 q.2 kept.1 k.1,
            k.2 ∙ kept.2,
          ))
          (client_chunks-Kept cs r.0 r.1 r.2)

  process-PeerKept :
      (m : Mode) (chunks : List Bytes) (status : Status) (peer : Peer R) (j : ℕ) (slot : Slot)
      → get_elem? peer.slots j ≡ some slot
      → Post (λ r. PeerKept peer r.1) (process kit m chunks status peer j slot)
  unfolding process
  process-PeerKept host chunks status peer j slot e =
      Post-then (host_chunks-SlotKept kit chunks status slot) λ r kept. post_some (
        PeerKept-fields peer peer.time peer.actor peer.queue _ (omega arith) (Stays-refl peer.queue)
          (Pairwise-set SlotKept SlotKept-refl peer.slots j slot r.1 e kept))
  process-PeerKept client chunks status peer j slot e =
      Post-then (client_chunks-Kept chunks status peer slot) λ r kept.
        let here : get_elem? r.1.slots j ≡ some slot = rw kept.2 e in
        post_some (
          PeerKept-trans peer r.1 _ kept.0 (
            PeerKept-fields r.1 r.1.time r.1.actor r.1.queue _ (omega arith) (Stays-refl r.1.queue)
              (Pairwise-set SlotKept SlotKept-refl r.1.slots j slot r.2 here kept.1)))

-- A slot that is given to a new client had none.
assign-SlotKept :
    (j : ℕ) (source_id : ℤ) (slot : Slot)
    → slot.remote.id ≡ undefined
    → SlotKept slot (assign j source_id slot)
assign-SlotKept j source_id slot e = record {
  local_is = refl;
  in_index_is = refl;
  out_index_is = refl;
  remote_is = inl e;
  stays = Stays-refl slot.queue;
}

free_remote : (slot : Slot) → is_free slot ≡ true → slot.remote.id ≡ undefined
free_remote slot free = ==ℤ_eq slot.remote.id undefined (ground arith)

module _ {R : Type 0} (kit : Kit) where
  accept-PeerKept :
      (packet : Packet) (status : Status) (peer : Peer R) (slots : List Slot)
      → peer.slots ≡ slots
      → PeerKept peer (accept kit packet status peer slots).1
  unfolding accept
  accept-PeerKept packet status peer [] same = PeerKept-refl peer
  accept-PeerKept packet status peer (first ∷ rest) same =
      elim (Bool-cases (not (is_host peer.mode) || not (first.remote.id ==ℤ undefined))) [
        | inl e ↦ rw e (PeerKept-refl peer)
        | inr e ↦ elim (Option-cases (find_index is_free 1 rest)) [
          | inl none_free ↦ rw (e, none_free) (PeerKept-refl peer)
          | inr (j, found) ↦
              let (k, slot, at_j, at_k, free) = find_index-some is_free 1 rest j found in
              let next : j ≡ suc k = omega (arith, at_j) in
              let here : get_elem? peer.slots j ≡ some slot = rw (same, next) at_k in
              rw (e, found, here) (given j slot here free)
        ]
      ]
    where
      given :
          (j : ℕ) (slot : Slot)
          → get_elem? peer.slots j ≡ some slot
          → is_free slot ≡ true
          → PeerKept peer
              (record peer { slots = set peer.slots j (assign j packet.source_id slot) })
      given j slot here free =
          PeerKept-fields peer peer.time peer.actor peer.queue _ (omega arith)
            (Stays-refl peer.queue)
            (Pairwise-set SlotKept SlotKept-refl peer.slots j slot _ here
              (assign-SlotKept j packet.source_id slot (free_remote slot free)))

  input_packet-PeerKept :
      (packet : Packet) (status : Status) (peer : Peer R)
      → Post (λ r. PeerKept peer r.1) (input_packet kit packet status peer)
  unfolding input_packet
  input_packet-PeerKept packet status peer =
      elim (Option-cases (find_index (is_for packet) 0 peer.slots)) [
        | inl nobody ↦ rw (nobody, input_packet) (post_some (PeerKept-refl peer))
        | inr (i, mine) ↦ elim (Option-cases (find_index (is_from packet) 0 peer.slots)) [
          | inl new ↦
              rw (mine, new, input_packet)
                (post_some (accept-PeerKept packet status peer peer.slots refl))
          | inr (j, known) ↦ elim (Option-cases (get_elem? peer.slots j)) [
            | inl out ↦ rw (mine, known, out, input_packet) post_none
            | inr (slot, here) ↦
                rw (mine, known, here, input_packet)
                  (Post-bind (unpack kit (packet ∷ []) [])
                    λ r. process-PeerKept kit peer.mode r.1 (bit_or status r.0) peer j slot here)
          ]
        ]
      ]

  input_from-PeerKept :
      (packets : List Packet) (status : Status) (peer : Peer R)
      → Post (λ r. PeerKept peer r.1) (input_from kit packets status peer)
  unfolding input_from
  input_from-PeerKept [] status peer = post_some (PeerKept-refl peer)
  input_from-PeerKept (packet ∷ packets) status peer =
      Post-then (input_packet-PeerKept packet status peer) λ r kept.
        Post-map (λ (q : Status × Peer R) k. PeerKept-trans peer r.1 q.1 kept k)
          (input_from-PeerKept packets r.0 r.1)

  -- Whatever packets come, and whatever memory there is, peer_input leaves a peer's mode, local
  -- clock, generator and mark in the mutual queue as they are and never sets the mutual time
  -- back. It keeps the messages of the mutual queue and of every slot's queue, each at its index
  -- with its time and bytes. It keeps the slots in number and order, each with its local
  -- endpoint, its places in the queues, and the remote id that it has, if it has one.
  pub input-PeerKept :
      (peer peer' : Peer R) (packets : List Packet) (status : Status)
      → input kit peer packets ≡ some (status, peer')
      → PeerKept peer peer'
  unfolding input
  input-PeerKept peer peer' packets status e = of_post (input_from-PeerKept packets kit_ok peer) e
