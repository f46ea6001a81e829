-- ===== src/Peer/Receive/Host.antt =====
-- source/peer/peer.c, peer_input: what a chunk changes for a host.
use peer.Prelude.{refl, not, ◌==◌}
use peer.Prelude.Int.{ℤ, pos, ◌==ℤ◌}
use peer.Prelude.Post.{Post, post_some, Post-if, Post-bind, Post-then, Post-map}
use peer.Options.{Status}
use peer.Serial.{Bytes}
use peer.Kit.{Kit}
use peer.Queue.{Queue, queue_insert}
use peer.Queue.View.{queue_insert-Holds}
use peer.Peer.{Slot}
use peer.Peer.Kept.{Stays, SlotKept, SlotKept-refl, SlotKept-queue}
use peer.Options.MessageMode
use peer.Options.Service
use peer.Peer.Receive.{Fields, read_fields, read_service, read_payload, host_message, host_chunk}

pub queue_insert-Stays :
    (kit : Kit) (q : Queue) (index time actor : ℤ) (payload : Bytes)
    → Post (λ r. Stays q r.1) (queue_insert kit q index time actor payload)
queue_insert-Stays kit q index time actor payload =
    Post-map (λ r kept j m h. (m, kept j m h, refl, refl))
      (queue_insert-Holds kit q index time actor payload)

module _ (kit : Kit) (slot : Slot) where
  abbrev Kept : Status × Slot → Type 0
  Kept r = SlotKept slot r.1

  host_message-SlotKept :
      (f : Fields) (c : Bytes) (status : Status) → Post Kept (host_message kit f c status slot)
  unfolding host_message
  host_message-SlotKept f c status =
      Post-if (f.mode == MessageMode.service)
        (Post-bind (read_service f c) λ service.
          Post-if (service == Service.heartbeat) (post_some (SlotKept-refl slot))
            (post_some (SlotKept-refl slot)))
        (Post-bind (read_payload f.data_size c) λ payload.
          Post-then (queue_insert-Stays kit slot.queue f.index f.time (pos f.actor) payload)
            λ r stays. post_some (SlotKept-queue slot _ stays))

  pub host_chunk-SlotKept : (c : Bytes) (status : Status) → Post Kept (host_chunk kit c status slot)
  unfolding host_chunk
  host_chunk-SlotKept c status = Post-bind (read_fields c) λ f.
      Post-if (not (f.time ==ℤ pos 0)) (post_some (SlotKept-refl slot)) (
        Post-if (not (pos f.actor ==ℤ slot.actor)) (post_some (SlotKept-refl slot))
          (host_message-SlotKept f c status))
