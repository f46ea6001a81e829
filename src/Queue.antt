-- ===== src/Queue.antt =====
-- source/peer/peer.h and peer.c: message queues, queue_append and queue_insert.
pub mod View
pub mod Order
mod Tests
use peer.Prelude.{
  ℕ, suc, ◌+◌, ◌-◌, ◌^◌, Bool, true, false, not, ◌&&◌, List, [], ◌∷◌, ◌++◌, Option, none, some, ltb,
  leb, if◌then◌else◌, length, get_elem?, set, replicate,
}
use peer.Prelude.Int.{ℤ, pos, negsuc, ◌==ℤ◌}
use peer.Options.{Status, kit_ok, undefined}
use peer.Options.Error
use peer.Serial.{Bytes}
use peer.Kit
use peer.Kit.{Kit}

-- `peer_message_t`; `payload` is its `data`.
pub record Message : Type 0 where
  pub is_ready : Bool
  pub time : ℤ
  pub actor : ℤ
  pub payload : Bytes

-- `peer_queue_t`
abbrev pub Queue : Type 0
Queue = List Message

-- A message that `memset` has cleared.
abbrev pub cleared : Message
cleared = record { is_ready = false; time = pos 0; actor = pos 0; payload = [] }

abbrev pub is_ready_at : Queue → ℕ → Bool
is_ready_at q i = elim (get_elem? q i) [ none ↦ false | some m ↦ m.is_ready ]

-- The message in its place has no bytes, as DA_INIT leaves it that found no memory.
abbrev pub drop_payload : Queue → ℕ → Queue
drop_payload [] i = []
drop_payload (m ∷ q) ℕ.zero = record m { payload = [] } ∷ q
drop_payload (m ∷ q) (suc i) = m ∷ drop_payload q i

-- The queue, made longer by cleared messages until it has the index `i`.
abbrev pub grow : Queue → ℕ → Queue
grow q i = if leb (length q) i then q ++ replicate (i + 1 - length q) cleared else q

module _ (kit : Kit) where
  unfoldable pub queue_append : Queue → ℤ → ℤ → Bytes → Status × Queue
  queue_append q time actor payload =
      if not (kit.fits Kit.messages (length q + 1))
      then (Error.bad_alloc, q)
      else (if not (kit.fits Kit.payload (length payload)) then (Error.bad_alloc, q) else (
        kit_ok,
        q ++ record { is_ready = true; time = time; actor = actor; payload = payload } ∷ [],
      ))

  -- queue_insert from its second test on. To grow, it computes `index + 1` on a ptrdiff_t: of the
  -- largest index there is no such number, and nothing is defined from there on.
  unfoldable pub insert_at : Queue → ℕ → ℤ → ℤ → Bytes → Option (Status × Queue)
  insert_at q index time actor payload =
      if ltb index (length q) && is_ready_at q index
      then some (kit_ok, q)
      else (if leb (length q) index && leb (2 ^ 63) (index + 1)
          then none
          else some (
              if leb (length q) index && not (kit.fits Kit.messages (index + 1))
              then (Error.bad_alloc, q)
              else (if not (kit.fits Kit.payload (length payload))
                  then (Error.bad_alloc, drop_payload (grow q index) index)
                  else (
                    kit_ok,
                    set (grow q index) index
                        (record { is_ready = true; time = time; actor = actor; payload = payload }),
                  ))))

  unfoldable pub queue_insert : Queue → ℤ → ℤ → ℤ → Bytes → Option (Status × Queue)
  queue_insert q (pos i) time actor payload = insert_at q i time actor payload
  queue_insert q (negsuc n) time actor payload =
      some (if negsuc n ==ℤ undefined then (kit_ok, q) else (Error.invalid_message_index, q))
