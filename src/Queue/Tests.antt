-- ===== src/Queue/Tests.antt =====
-- Message queues at concrete messages.
use peer.Prelude.{ℕ, ◌≡◌, refl, true, false, [], ◌∷◌, some, none, ◌+◌}
use peer.Prelude.Int.{pos, negsuc}
use peer.Options.{Status, kit_ok, undefined}
use peer.Options.Error
use peer.Kit.{Kit, Array}
use peer.Queue.{Message, Queue, cleared, insert_at, queue_insert}
use peer.Queue.View.{lookup, ready, lookup-queue_insert}
use peer.Queue.Order.{Delivery, deliver, deliver_perm}
use mathlib.Core.List.Permᴰ.{swap}

-- Memory that is never short.
abbrev ample : Kit
ample = record { fits = λ a n. true; byte = λ i. 0xcc; word = pos 7 }

-- Memory that is too short for the bytes of messages.
abbrev short : Kit
short = record {
  fits = λ a n. elim a [
    | Array.payload ↦ false
    | Array.packets ↦ true
    | Array.chunks ↦ true
    | Array.chunk ↦ true
    | Array.refs ↦ true
    | Array.messages ↦ true
    | Array.slots ↦ true
    | Array.nodes ↦ true
    | Array.ids ↦ true
  ];
  byte = λ i. 0xcc;
  word = pos 7;
}

abbrev delivery : ℕ → Delivery
delivery i = record { index = i; time = pos (10 + i); actor = pos 2; payload = i ∷ i ∷ [] }

abbrev history : ℕ → Message
history i = ready (pos (10 + i)) (pos 2) (i ∷ i ∷ [])

abbrev one : Queue
one = history 0 ∷ []

-- Message 2 comes, then 0, then 2 again.
deliver_gap :
    deliver ample [] (delivery 2 ∷ delivery 0 ∷ delivery 2 ∷ [])
    ≡ some (history 0 ∷ cleared ∷ history 2 ∷ [])
unfolding deliver queue_insert insert_at
deliver_gap = refl

-- queue_insert of an index of no meaning, and of none.
queue_insert_invalid :
    queue_insert ample one (negsuc 4) (pos 1) (pos 1) [] ≡ some (Error.invalid_message_index, one)
unfolding queue_insert
queue_insert_invalid = refl

queue_insert-undefined : queue_insert ample one undefined (pos 1) (pos 1) [] ≡ some (kit_ok, one)
unfolding queue_insert
queue_insert-undefined = refl

deliver_perm_example :
    deliver ample one (delivery 2 ∷ delivery 1 ∷ [])
    ≡ deliver ample one (delivery 1 ∷ delivery 2 ∷ [])
deliver_perm_example =
    deliver_perm ample history one (delivery 2 ∷ delivery 1 ∷ []) (delivery 1 ∷ delivery 2 ∷ [])
      (λ a n. refl) (refl, (refl, tt)) ∣ swap refl refl ∣₁

one_holds : lookup one 0 ≡ some (history 0)
unfolding lookup
one_holds = refl

-- There is no size for a queue with the index INT64_MAX.
queue_insert_last :
    queue_insert ample one (pos 0x7fff_ffff_ffff_ffff) (pos 1) (pos 1) (5 ∷ []) ≡ none
unfolding queue_insert insert_at
queue_insert_last = refl

lookup-queue_insert_example :
    (r : Status × Queue) × (queue_insert short one (pos 4) (pos 1) (pos 1) (5 ∷ []) ≡ some r)
    × (lookup r.1 0 ≡ some (history 0))
lookup-queue_insert_example =
    lookup-queue_insert short one (pos 4) (pos 1) (pos 1) (5 ∷ []) 0 (history 0) refl one_holds
