-- ===== src/Peer/Input/FromClient.antt =====
-- source/peer/peer.c, peer_input: a host takes in the messages of a client.
use peer.Prelude.{ℕ, ◌≡◌, refl, sym, ap, ◌∙◌, true, List, [], ◌∷◌, some, get_elem?, All}
use peer.Prelude.Bits.{bit_or-zero}
use peer.Prelude.Int.{ℤ, pos, ◌==ℤ◌, ==ℤ_refl}
use peer.Options.{Status}
use peer.Serial.{Bytes}
use peer.Kit.{Kit, Array}
use peer.Queue.{Message, Queue, queue_insert}
use peer.Queue.View.{put, lookup, ready, insert_at-eq-put}
use peer.Peer.{Slot}
use peer.Peer.Send.Trail.{chunk_at}
use peer.Peer.Receive.{host_message, host_chunk}
use peer.Peer.Receive.Mutual.{IsSent, read_fields_lem, read_payload_lem}
use peer.Peer.Input.{host_chunks}
use peer.Peer.Input.Mutual.{Agrees, IsSentBy, HasCome, put-at, put-Agrees, put-holds}

-- Every message of the queue is one that the client `actor` has queued.
abbrev pub IsOf : ℤ → Queue → Type 0
IsOf actor h = (j : ℕ) (m : Message) → get_elem? h j ≡ some m → (m.time ≡ pos 0) × (m.actor ≡ actor)

module _ (kit : Kit) (room : (a : Array) (n : ℕ) → kit.fits a n ≡ true) where
  host_chunk_lem :
      (i : ℕ) (m : Message) (status : Status) (slot : Slot)
      → IsSent i m
      → m.time ≡ pos 0
      → m.actor ≡ slot.actor
      → host_chunk kit (chunk_at i m) status slot
        ≡ some (status, record slot { queue = put slot.queue i m })
  unfolding host_chunk host_message queue_insert
  host_chunk_lem i m status slot s now who =
      let whole : ready m.time (pos s.actor) m.payload ≡ m = rw (sym s.actor_is, sym s.is_ready) in
      let on_time : (m.time ==ℤ pos 0) ≡ true = ap (λ t. t ==ℤ pos 0) now in
      let ours : (pos s.actor ==ℤ slot.actor) ≡ true =
        ap (λ a. pos s.actor ==ℤ a) (sym who ∙ s.actor_is) ∙ ==ℤ_refl (pos s.actor) in
      rw (
        read_fields_lem i m s,
        on_time,
        ours,
        read_payload_lem i m,
        insert_at-eq-put kit slot.queue i m.time (pos s.actor) m.payload room s.index_in,
        bit_or-zero status,
        whole,
      )

  module _ (h : Queue) (actor : ℤ) (own : IsOf actor h) where
    -- What a slot of the host holds after chunks of the client's messages.
    pub record TakenIn (cs : List Bytes) (status : Status) (slot : Slot) : Type 0 where
      pub queue : Queue
      pub result : host_chunks kit cs status slot ≡ some (status, record slot { queue = queue })
      pub agrees : Agrees h queue
      pub come : All (HasCome queue) cs
      pub stay : (j : ℕ) (m : Message) → lookup slot.queue j ≡ some m → lookup queue j ≡ some m

    pub host_chunks-TakenIn :
        (cs : List Bytes) (status : Status) (slot : Slot)
        → slot.actor ≡ actor
        → Agrees h slot.queue
        → All (IsSentBy h) cs
        → TakenIn cs status slot
    unfolding host_chunks
    host_chunks-TakenIn [] status slot who agrees sent = record {
      queue = slot.queue;
      result = refl;
      agrees = agrees;
      come = tt;
      stay = λ j m e. e;
    }
    host_chunks-TakenIn (c ∷ cs) status slot who agrees ((i, m, here, s, is), sent) =
        let (now, its) = own i m here in
        let next : Slot = record slot { queue = put slot.queue i m } in
        let r =
          host_chunks-TakenIn cs status next who
            (put-Agrees h slot.queue i m here s.is_ready agrees) sent in
        record {
          queue = r.queue;
          result = rw (is, host_chunk_lem i m status slot s now (its ∙ sym who)) r.result;
          agrees = r.agrees;
          come = (
            (
              i,
              m,
              r.stay i m
                  (put-at h slot.queue i m (lookup slot.queue i) here s.is_ready agrees refl),
              is,
            ),
            r.come,
          );
          stay = λ j n e. r.stay j n (put-holds slot.queue i j m n s.is_ready e);
        }
