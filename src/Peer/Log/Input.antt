-- ===== src/Peer/Log/Input.antt =====
-- source/peer/peer.c, peer_input and the calls that set a peer up: a host's log stays as it is.
use peer.Prelude.{
  ℕ, ◌≡◌, refl, sym, ap, subst, ◌∙◌, true, not, ◌||◌, List, [], ◌∷◌, append-nil, Option, none, some,
  ◌>>=◌, arith, All, length, take, bit_or, set, get_elem?, find_index,
}
use peer.Prelude.Int.{◌≤ℤ◌, ◌==ℤ◌, int_laws}
use peer.Prelude.Post.{
  Post, of_post, post_some, post_none, Post-bind, Post-then, Post-map, if_cases,
}
use peer.Options.{Status, kit_ok, undefined}
use peer.Options.Error
use peer.Serial.{Bytes}
use peer.Kit.{Kit}
use peer.Packet.{Packet, unpack}
use peer.Peer.{Slot, Peer, Mode, host, is_host}
use peer.Peer.Input.{
  is_for, is_from, is_free, assign, host_chunks, process, accept, input_packet, input_from, input,
}
use peer.Peer.Tick.{int64_max}
use peer.Peer.Log.{LogStep, IsHost, log_of}

-- Only the slots, the mutual time and the generator may differ.
pub record SameLog {R : Type 0} (p q : Peer R) : Type 0 where
  pub mode_is : q.mode ≡ p.mode
  pub queue_is : q.queue ≡ p.queue
  pub index_is : q.queue_index ≡ p.queue_index
  pub time_is : q.time_local ≡ p.time_local

module _ {R : Type 0} where
  pub SameLog-slots : (p : Peer R) (slots : List Slot) → SameLog p (record p { slots = slots })
  SameLog-slots p slots = record {
    mode_is = refl;
    queue_is = refl;
    index_is = refl;
    time_is = refl;
  }

  pub SameLog-refl : (p : Peer R) → SameLog p p
  SameLog-refl p = SameLog-slots p p.slots

  SameLog-trans : (p q r : Peer R) → SameLog p q → SameLog q r → SameLog p r
  SameLog-trans p q r h k = record {
    mode_is = k.mode_is ∙ h.mode_is;
    queue_is = k.queue_is ∙ h.queue_is;
    index_is = k.index_is ∙ h.index_is;
    time_is = k.time_is ∙ h.time_is;
  }

  abbrev Same : Peer R → Status × Peer R → Type 0
  Same p r = SameLog p r.1

  -- A log that nothing is added to.
  pub still :
      (p q : Peer R)
      → take q.queue_index q.queue ≡ take p.queue_index p.queue
      → q.time_local ≡ p.time_local
      → LogStep (log_of p) (log_of q)
  still p q e t = record {
    more = [];
    clock_le = subst (λ x. p.time_local ≤ℤ x) (sym t) (omega int_laws);
    grown = e ∙ sym (append-nil (take p.queue_index p.queue));
    stamped = tt;
  }

  pub SameLog-LogStep :
      (p q : Peer R) → IsHost p → SameLog p q → IsHost q × LogStep (log_of p) (log_of q)
  SameLog-LogStep p q h k = (
    record {
      mode_is = k.mode_is ∙ h.mode_is;
      index_in = omega (arith, h.index_in, k.index_is, ap length k.queue_is);
      time_in = subst (λ x. x ≤ℤ int64_max) (sym k.time_is) h.time_in;
      all_ready = subst (All (λ m. m.is_ready ≡ true)) (sym k.queue_is) h.all_ready;
    },
    still p q (ap (λ i. take i q.queue) k.index_is ∙ ap (take p.queue_index) k.queue_is) k.time_is,
  )

  module _ (kit : Kit) where
    process-SameLog :
        (m : Mode) (chunks : List Bytes) (status : Status) (p : Peer R) (j : ℕ) (slot : Slot)
        → m ≡ host
        → Post (λ r. SameLog p r.1) (process kit m chunks status p j slot)
    unfolding process
    process-SameLog host chunks status p j slot e =
        Post-bind (host_chunks kit chunks status slot) λ r. post_some (SameLog-slots p _)
    process-SameLog Mode.client chunks status p j slot e = absurd (cc)

    accept-SameLog :
        (packet : Packet) (status : Status) (p : Peer R) (slots : List Slot)
        → Same p (accept kit packet status p slots)
    unfolding accept
    accept-SameLog packet status p [] = SameLog-refl p
    accept-SameLog packet status p (first ∷ rest) =
        if_cases (Same p) (not (is_host p.mode) || not (first.remote.id ==ℤ undefined)) _ _
          (λ _. SameLog-refl p) (λ _. free (find_index is_free 1 rest))
      where
        given :
            (j : ℕ) (o : Option Slot)
            → Same p (elim o [
              | none ↦ (status, p)
              | some slot ↦
                  (status, record p { slots = set p.slots j (assign j packet.source_id slot) })
            ])
        given j none = SameLog-refl p
        given j (some slot) = SameLog-slots p _

        free :
            (o : Option ℕ)
            → Same p (elim o [
              | none ↦ (bit_or status Error.no_free_slots, p)
              | some j ↦ elim (get_elem? p.slots j) [
                | none ↦ (status, p)
                | some slot ↦
                    (status, record p { slots = set p.slots j (assign j packet.source_id slot) })
              ]
            ])
        free none = SameLog-refl p
        free (some j) = given j (get_elem? p.slots j)

    input_packet-SameLog :
        (packet : Packet) (status : Status) (p : Peer R)
        → p.mode ≡ host
        → Post (Same p) (input_packet kit packet status p)
    unfolding input_packet
    input_packet-SameLog packet status p is_host_mode =
        known (find_index (is_for packet) 0 p.slots) (find_index (is_from packet) 0 p.slots)
      where
        taken :
            (j : ℕ) (o : Option Slot)
            → Post (Same p) (elim o [
              | none ↦ none
              | some slot ↦ (do
                (s, chunks) ← unpack kit (packet ∷ []) []
                process kit p.mode chunks (bit_or status s) p j slot)
            ])
        taken j none = post_none
        taken j (some slot) =
            Post-bind (unpack kit (packet ∷ []) [])
              λ r. process-SameLog p.mode r.1 (bit_or status r.0) p j slot is_host_mode

        known :
            (o r : Option ℕ)
            → Post (Same p) (elim o [
              | none ↦ some (status, p)
              | some _ ↦ elim r [
                | none ↦ some (accept kit packet status p p.slots)
                | some j ↦ elim (get_elem? p.slots j) [
                  | none ↦ none
                  | some slot ↦ (do
                    (s, chunks) ← unpack kit (packet ∷ []) []
                    process kit p.mode chunks (bit_or status s) p j slot)
                ]
              ]
            ])
        known none r = post_some (SameLog-refl p)
        known (some i) none = post_some (accept-SameLog packet status p p.slots)
        known (some i) (some j) = taken j (get_elem? p.slots j)

    input_from-SameLog :
        (packets : List Packet) (status : Status) (p : Peer R)
        → p.mode ≡ host
        → Post (Same p) (input_from kit packets status p)
    unfolding input_from
    input_from-SameLog [] status p e = post_some (SameLog-refl p)
    input_from-SameLog (packet ∷ packets) status p e =
        Post-then (input_packet-SameLog packet status p e) λ r h.
          Post-map (λ (q : Status × Peer R) k. SameLog-trans p r.1 q.1 h k)
            (input_from-SameLog packets r.0 r.1 (h.mode_is ∙ e))

    pub input-SameLog :
        (p q : Peer R) (packets : List Packet) (status : Status)
        → p.mode ≡ host
        → input kit p packets ≡ some (status, q)
        → SameLog p q
    unfolding input
    input-SameLog p q packets status e ran = of_post (input_from-SameLog packets kit_ok p e) ran
