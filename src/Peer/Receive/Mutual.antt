-- ===== src/Peer/Receive/Mutual.antt =====
-- source/peer/peer.c, peer_input: a client takes in the messages of its host.
use peer.Prelude.{
  ℕ, ◌-◌, ◌%◌, ◌^◌, ◌≤◌, ◌<◌, ◌≡◌, sym, subst, true, [], append-nil, some, arith, if◌then◌else◌,
  length, take_all, le→leb,
}
use peer.Prelude.Bits.{bit_or-zero}
use peer.Prelude.Int.{pos, ltb_ℤ}
use peer.Options.{Status}
use peer.Options.MessageMode
use peer.Serial.{Bytes}
use peer.Serial.Message.{Holds, IsInt64, IsActor, message-Holds}
use peer.Kit.{Kit, Array}
use peer.Packet.{read_bytes}
use peer.Queue.{Message, queue_insert}
use peer.Queue.View.{put, ready, insert_at-eq-put}
use peer.Peer.{Slot, Peer}
use peer.Peer.Send.Trail.{chunk_at}
use peer.Peer.Receive.{read_fields, read_payload, client_message, client_chunk}

-- A message of a queue that can be sent and taken in, at an index below INT64_MAX.
pub record IsSent (i : ℕ) (m : Message) : Type 0 where
  pub is_ready : m.is_ready ≡ true
  pub index_in : i < 2 ^ 63 - 1
  pub time_in : IsInt64 m.time
  pub actor : ℕ
  pub actor_is : m.actor ≡ pos actor
  pub actor_in : actor < 2 ^ 32 - 1
  pub small : length m.payload ≤ 355

chunk-Holds :
    (i : ℕ) (m : Message)
    → IsSent i m
    → Holds (chunk_at i m) MessageMode.application (pos i) m.time m.actor (length m.payload)
chunk-Holds i m s =
    subst (λ c. Holds c 1 (pos i) m.time m.actor (length m.payload)) (append-nil (chunk_at i m))
      (message-Holds 1 (pos i) m.time m.actor m.payload [] (omega (arith, s.small))
        (omega (arith, s.index_in)) s.time_in (subst IsActor (sym s.actor_is) s.actor_in))

pub read_fields_lem :
    (i : ℕ) (m : Message) (s : IsSent i m)
    → read_fields (chunk_at i m)
      ≡ some (record {
        data_size = pos (length m.payload);
        mode = MessageMode.application;
        index = pos i;
        time = m.time;
        actor = s.actor;
      })
unfolding read_fields
read_fields_lem i m s =
    let h = chunk-Holds i m s in
    let low : s.actor % 2 ^ 32 ≡ s.actor = omega (arith, s.actor_in) in
    rw (h.data_size, h.mode_is, h.index_is, h.time_is, h.actor_is, s.actor_is, low)

pub read_bytes_all : (bs : Bytes) → read_bytes (length bs) bs ≡ some bs
unfolding read_bytes
read_bytes_all bs =
    rw (le→leb (length bs) (length bs) (omega arith), take_all (length bs) bs (omega arith))

pub read_payload_lem :
    (i : ℕ) (m : Message) → read_payload (pos (length m.payload)) (chunk_at i m) ≡ some m.payload
unfolding read_payload
read_payload_lem i m = read_bytes_all m.payload

module _ {R : Type 0} (kit : Kit) (room : (a : Array) (n : ℕ) → kit.fits a n ≡ true) where
  -- The client's peer once the message has come.
  abbrev pub took : ℕ → Message → Peer R → Peer R
  took i m peer =
      let q = put peer.queue i m in
      if ltb_ℤ peer.time m.time
      then record peer { queue = q; time = m.time }
      else record peer { queue = q }

  pub client_chunk_lem :
      (i : ℕ) (m : Message) (status : Status) (peer : Peer R) (slot : Slot)
      → IsSent i m
      → client_chunk kit (chunk_at i m) status peer slot ≡ some (status, took i m peer, slot)
  unfolding client_chunk client_message queue_insert
  client_chunk_lem i m status peer slot s =
      let whole : ready m.time (pos s.actor) m.payload ≡ m = rw (sym s.actor_is, sym s.is_ready) in
      rw (
        read_fields_lem i m s,
        read_payload_lem i m,
        insert_at-eq-put kit peer.queue i m.time (pos s.actor) m.payload room s.index_in,
        bit_or-zero status,
        whole,
      )
