-- ===== src/Peer/Steady/Tests.antt =====
-- A host that opens two ports, is given a message and ticks, with little memory.
use peer.Prelude.{ℕ, ◌≡◌, refl, true, [], ◌∷◌, some, leb}
use peer.Prelude.Int.{pos, ◌+ℤ◌, ◌-ℤ◌}
use peer.Options.{kit_ok}
use peer.Kit.{Kit}
use peer.Packet.{Packet}
use peer.Queue.{queue_append}
use peer.Queue.View.{ready}
use peer.Peer.{Peer, host, init, new_slots, open_slots, enqueue, enqueue_as}
use peer.Peer.Tick.{
  tick, tick_as, tick_host, advance, synchronize, set_times, send_all, collect_slots, collect,
  send_slots, send_slot,
}
use peer.Peer.Log.{Run, opens, queues, ticks, start, then_step}

-- Memory for arrays of no more than 40 elements, and memory that is never short.
abbrev narrow : Kit
narrow = record { fits = λ a n. leb n 40; byte = λ i. 0xcc; word = pos 7 }

abbrev ample : Kit
ample = record { fits = λ a n. true; byte = λ i. 0xcc; word = pos 7 }

abbrev next_number : ℕ → ℕ × ℕ
next_number n = (n, n)

abbrev keep : ℕ → ℕ
keep n = n

abbrev fresh : Peer ℕ
fresh = init keep keep host

abbrev opened : Peer ℕ
opened = (open_slots narrow fresh (pos 19 ∷ pos 20 ∷ [])).1

abbrev given : Peer ℕ
given = (enqueue narrow opened (42 ∷ [])).1

-- 20 ms later.
abbrev ticked : Peer ℕ
ticked = record given {
  time = pos 20;
  time_local = pos 20;
  queue = ready (pos 20) (pos 0) (42 ∷ []) ∷ [];
  queue_index = 1;
}

given-tick : tick narrow next_number given (pos 20) ≡ some (kit_ok, ticked, [])
unfolding init open_slots new_slots enqueue enqueue_as queue_append tick tick_as tick_host advance
    synchronize set_times send_all collect_slots collect send_slots send_slot ◌+ℤ◌ ◌-ℤ◌
given-tick = refl

abbrev calls : Run next_number fresh ticked
calls =
    then_step
      (then_step (then_step start (opens narrow fresh (pos 19 ∷ pos 20 ∷ [])))
        (queues narrow opened (42 ∷ [])))
      (ticks narrow (pos 20) kit_ok [] given-tick)
