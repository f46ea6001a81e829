-- ===== src/Peer/Log.antt =====
-- source/peer/peer.c: a host as an append-only log of messages in the order of time, which is what
-- it promises to its clients.
pub mod Order
pub mod Tick
pub mod Input
pub mod Refine
mod Tests
use peer.Prelude.{ℕ, ◌≤◌, ◌≡◌, true, List, ◌++◌, some, All, length, take}
use peer.Prelude.Int.{ℤ, ◌≤ℤ◌}
use peer.Options.{Status}
use peer.Serial.{Bytes}
use peer.Kit.{Kit}
use peer.Packet.{Packet}
use peer.Queue.{Message, Queue}
use peer.Peer.{Peer, host, open_slots, enqueue, connect}
use peer.Peer.Input.{input}
use peer.Peer.Tick.{int64_max, tick}

-- The log: its messages, and a clock.
pub record Log : Type 0 where
  pub clock : ℤ
  pub entries : Queue

-- A message that is put into the log when the clock shows `time`.
abbrev pub IsStamped : ℤ → Message → Type 0
IsStamped time m = (m.is_ready ≡ true) × (m.time ≡ time)

-- The only thing that happens to a log: the clock does not go back, and messages are added at the
-- end, or none, with the time of the clock.
pub record LogStep (a b : Log) : Type 0 where
  pub more : List Message
  pub clock_le : a.clock ≤ℤ b.clock
  pub grown : b.entries ≡ a.entries ++ more
  pub stamped : All (IsStamped b.clock) more

pub data LogRun (a : Log) : Log → Type 0 where
  here : LogRun a a
  next : {b c : Log} → LogRun a b → LogStep b c → LogRun a c

-- The log of a host: what it has taken into the mutual queue for good.
abbrev pub log_of : {R : Type 0} → Peer R → Log
log_of p = record { clock = p.time_local; entries = take p.queue_index p.queue }

-- A host whose place in the mutual queue is in it, and whose messages are all there.
pub record IsHost {R : Type 0} (p : Peer R) : Type 0 where
  pub mode_is : p.mode ≡ host
  pub index_in : p.queue_index ≤ length p.queue
  pub time_in : p.time_local ≤ℤ int64_max
  pub all_ready : All (λ m. m.is_ready ≡ true) p.queue

-- The calls that a host's program makes, in any order and with whatever results. Each call has a
-- `kit` of its own, since there may be more memory for one call than for another.
module _ {R : Type 0} (generate : R → ℕ × R) where
  pub data Step : Peer R → Peer R → Type 0 where
    opens : (kit : Kit) (p : Peer R) (ids : List ℤ) → Step p (open_slots kit p ids).1
    connects : (p : Peer R) (id : ℤ) → Step p (connect p id).1
    queues : (kit : Kit) (p : Peer R) (data_of : Bytes) → Step p (enqueue kit p data_of).1
    inputs :
        (kit : Kit) {p q : Peer R} (packets : List Packet) (status : Status)
        → input kit p packets ≡ some (status, q)
        → Step p q
    ticks :
        (kit : Kit) {p q : Peer R} (elapsed : ℤ) (status : Status) (packets : List Packet)
        → tick kit generate p elapsed ≡ some (status, q, packets)
        → Step p q

  pub data Run (p : Peer R) : Peer R → Type 0 where
    start : Run p p
    then_step : {q r : Peer R} → Run p q → Step q r → Run p r
