-- ===== src/Peer/Log/Refine.antt =====
-- source/peer/peer.c: whatever is done with a host, its log is appended to, in the order of time.
use peer.Prelude.{
  ℕ, ◌+◌, ◌≡◌, refl, sym, ap, subst, ◌∙◌, true, not, List, [], ◌∷◌, ◌++◌, append-nil, Option, none,
  some, ◌==◌, arith, All, All-append, length, take, take-append_le, length-append,
}
use peer.Prelude.Int.{ℤ, pos}
use peer.Prelude.Post.{if_cases}
use peer.Options.{Status, kit_ok}
use peer.Options.Error
use peer.Serial.{Bytes}
use peer.Kit
use peer.Kit.{Kit}
use peer.Queue.{Message, Queue, queue_append}
use peer.Peer.{Slot, Peer, Mode, host, open_slots, enqueue_as, enqueue, connect, connect_slots}
use peer.Peer.Log.{
  LogStep, LogRun, here, next, IsHost, log_of, Step, opens, connects, queues, inputs, ticks, Run,
  start, then_step,
}
use peer.Peer.Log.Tick.{tick-LogStep}
use peer.Peer.Log.Input.{
  SameLog, SameLog-slots, SameLog-refl, SameLog-LogStep, still, input-SameLog,
}

-- A queue with more messages at its end, which are all there.
record Added (q q' : Queue) : Type 0 where
  more : List Message
  is : q' ≡ q ++ more
  all_ready : All (λ m. m.is_ready ≡ true) more

queue_append-Added :
    (kit : Kit) (q : Queue) (time actor : ℤ) (payload : Bytes)
    → Added q (queue_append kit q time actor payload).1
unfolding queue_append
queue_append-Added kit q time actor payload =
    if_cases (λ (r : Status × Queue). Added q r.1) (not (kit.fits Kit.messages (length q + 1))) _ _
      (λ _. same)
      λ _.
        if_cases (λ (r : Status × Queue). Added q r.1) (not (kit.fits Kit.payload (length payload)))
          _ _ (λ _. same) λ _. record { more = _ ∷ []; is = refl; all_ready = (refl, tt) }
  where
    same : Added q q
    same = record { more = []; is = sym (append-nil q); all_ready = tt }

module _ {R : Type 0} (kit : Kit) where
  open_slots-SameLog : (p : Peer R) (ids : List ℤ) → SameLog p (open_slots kit p ids).1
  unfolding open_slots
  open_slots-SameLog p ids =
      if_cases same (length ids == 0) _ _ (λ _. SameLog-refl p)
        λ _.
          if_cases same (not (kit.fits Kit.slots (length p.slots + length ids))) _ _
            (λ _. SameLog-refl p) λ _. SameLog-slots p _
    where
      same : Status × Peer R → Type 0
      same r = SameLog p r.1

module _ {R : Type 0} where
  connect-SameLog : (p : Peer R) (id : ℤ) → SameLog p (connect p id).1
  unfolding connect
  connect-SameLog p id = found (connect_slots id p.slots)
    where
      Same : Status × Peer R → Type 0
      Same r = SameLog p r.1

      found :
          (o : Option (List Slot))
          → Same (elim o [
            | none ↦ (Error.no_free_slots, p)
            | some slots ↦ (kit_ok, record p { slots = slots })
          ])
      found none = SameLog-refl p
      found (some slots) = SameLog-slots p slots

  Added-LogStep :
      (p : Peer R) (q : Queue)
      → IsHost p
      → Added p.queue q
      → IsHost (record p { queue = q }) × LogStep (log_of p) (log_of (record p { queue = q }))
  Added-LogStep p q h a =
      let longer = length-append p.queue a.more in
      (
        record {
          mode_is = h.mode_is;
          index_in = omega (arith, h.index_in, ap length a.is, longer);
          time_in = h.time_in;
          all_ready =
              subst (All (λ m. m.is_ready ≡ true)) (sym a.is)
                (All-append _ p.queue a.more h.all_ready a.all_ready);
        },
        still p (record p { queue = q })
            (ap (take p.queue_index) a.is ∙ take-append_le p.queue_index p.queue a.more h.index_in)
            refl,
      )

module _ {R : Type 0} (kit : Kit) where
  enqueue_as-LogStep :
      (m : Mode) (p : Peer R) (payload : Bytes)
      → m ≡ host
      → IsHost p
      → let q = (enqueue_as kit m p payload).1 in IsHost q × LogStep (log_of p) (log_of q)
  unfolding enqueue_as
  enqueue_as-LogStep host p payload e h =
      Added-LogStep p _ h (queue_append-Added kit p.queue (pos 0) p.actor payload)
  enqueue_as-LogStep Mode.client p payload e h = absurd (cc)

module _ {R : Type 0} (generate : R → ℕ × R) where
  Step-LogStep :
      {p q : Peer R} → IsHost p → Step generate p q → IsHost q × LogStep (log_of p) (log_of q)
  unfolding enqueue
  Step-LogStep h (opens kit p ids) = SameLog-LogStep p _ h (open_slots-SameLog kit p ids)
  Step-LogStep h (connects p id) = SameLog-LogStep p _ h (connect-SameLog p id)
  Step-LogStep h (queues kit p payload) = enqueue_as-LogStep kit p.mode p payload h.mode_is h
  Step-LogStep {p} {q} h (inputs kit packets status e) =
      SameLog-LogStep p q h (input-SameLog kit p q packets status h.mode_is e)
  Step-LogStep {p} {q} h (ticks kit elapsed status packets e) =
      tick-LogStep kit generate p q elapsed status packets h e

  -- Whatever a program does with a host whose place in the mutual queue is in it, whose time is at
  -- most INT64_MAX and whose messages are all there, in any order and with whatever packets and
  -- generator, and with whatever memory for each call, the host stays so, and each call is a step
  -- of the append-only log: the messages that the host has taken in for good stay as they are, and
  -- those that it adds behind them have the time of its clock, which does not go back.
  pub Run-LogRun :
      (p q : Peer R) → IsHost p → Run generate p q → IsHost q × LogRun (log_of p) (log_of q)
  Run-LogRun p q h start = (h, here)
  Run-LogRun p q h (then_step {q = m} run step) =
      let (h', log) = Run-LogRun p m h run in
      let (h'', more) = Step-LogStep h' step in (h'', next log more)
