-- ===== src/Peer/Log/Tests.antt =====
-- A host that is given a message and ticks.
use peer.Prelude.{ℕ, ◌≡◌, refl, true, [], ◌∷◌, some, arith}
use peer.Prelude.Int.{pos, int_laws, ◌+ℤ◌, ◌-ℤ◌}
use peer.Options.{kit_ok}
use peer.Kit.{Kit}
use peer.Queue.{queue_append}
use peer.Queue.View.{ready}
use peer.Peer.{Peer, host, init, enqueue, enqueue_as}
use peer.Peer.Tick.{tick, tick_as, tick_host, advance, synchronize, set_times, send_all}
use peer.Peer.Log.{LogRun, IsHost, log_of, Run, ticks, start, then_step}
use peer.Peer.Log.Refine.{Run-LogRun}

-- Memory that is never short.
abbrev ample : Kit
ample = record { fits = λ a n. true; byte = λ i. 0xcc; word = pos 7 }

abbrev next_number : ℕ → ℕ × ℕ
next_number n = (n, n)

abbrev keep : ℕ → ℕ
keep n = n

abbrev fresh : Peer ℕ
fresh = init keep keep host

abbrev given : Peer ℕ
given = (enqueue ample fresh (42 ∷ [])).1

-- 20 ms later.
abbrev logged : Peer ℕ
logged = record {
  mode = host;
  time = pos 20;
  time_local = pos 20;
  actor = pos 0;
  slots = [];
  queue = ready (pos 20) (pos 0) (42 ∷ []) ∷ [];
  queue_index = 1;
  mt64 = 12345;
}

given-tick : tick ample next_number given (pos 20) ≡ some (kit_ok, logged, [])
unfolding init enqueue enqueue_as queue_append tick tick_as tick_host advance synchronize set_times
    send_all ◌+ℤ◌ ◌-ℤ◌
given-tick = refl

second_call : Run next_number given logged
second_call = then_step start (ticks ample (pos 20) kit_ok [] given-tick)

given-IsHost : IsHost given
unfolding init enqueue enqueue_as queue_append
given-IsHost = record {
  mode_is = refl;
  index_in = omega arith;
  time_in = omega int_laws;
  all_ready = (refl, tt);
}

Run-LogRun_example : IsHost logged × LogRun (log_of given) (log_of logged)
Run-LogRun_example = Run-LogRun next_number given logged given-IsHost second_call
