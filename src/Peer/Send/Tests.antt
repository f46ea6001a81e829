-- ===== src/Peer/Send/Tests.antt =====
-- Packing a queue of three messages.
use peer.Prelude.{
  refl, none, replicate, ℕ, ◌+◌, ◌≡◌, true, List, [], ◌∷◌, ◌++◌, some, arith, drop, All,
}
use peer.Prelude.Int.{pos}
use peer.Options.{kit_ok}
use peer.Serial.{Bytes}
use peer.Kit.{Kit}
use peer.Packet.{Packet}
use peer.Packet.Pack.{AllSealed}
use peer.Queue.{Message, Queue}
use peer.Queue.View.{ready}
use peer.Peer.Send.Faults.{enqueue-overflow}
use peer.Peer.{Peer, host, init, enqueue}
use peer.Peer.Send.{append_trail, queue_pack}
use peer.Peer.Send.Trail.{IsOlder, IsSmall, chunks_from}
use peer.Peer.Send.Pack.{recent, append_trail_lem, queue_pack_lem}

-- Memory that is never short, and that holds 0xcc where nothing has been written.
abbrev ample : Kit
ample = record { fits = λ a n. true; byte = λ i. 0xcc; word = pos 7 }

abbrev counter : ℕ → ℕ × ℕ
counter r = (r, r + 1)

abbrev sent : ℕ → Message
sent i = ready (pos (10 + i)) (pos 2) (i ∷ i ∷ [])

abbrev three : Queue
three = sent 0 ∷ sent 1 ∷ sent 2 ∷ []

three-IsSmall : All IsSmall three
three-IsSmall = (omega arith, (omega arith, (omega arith, tt)))

append_trail_lem_example :
    (picked : List Bytes) × (rng' : ℕ) × (append_trail ample counter three 2 [] 5
      ≡ some (kit_ok, [] ++ (recent three 2 ++ picked), rng'))
    × All (IsOlder three 2) picked
append_trail_lem_example =
    append_trail_lem ample counter (λ a n. refl) three three-IsSmall 2 [] 5 (omega arith)

queue_pack_lem_example :
    (packets : List Packet) × (picked : List Bytes) × (rng' : ℕ) × (queue_pack ample counter three 2
        (pos 3)
        (pos 4)
        []
        5
      ≡ some (kit_ok, packets, rng'))
    × AllSealed (pos 3) (pos 4) packets (chunks_from 2 (drop 2 three) ++ (recent three 2 ++ picked))
    × All (IsOlder three 2) picked
queue_pack_lem_example =
    queue_pack_lem ample counter (λ a n. refl) three three-IsSmall 2 (pos 3) (pos 4) [] 5
      (omega arith)

-- A host with the three messages, and data that no packet holds.
abbrev full_host : Peer ℕ
full_host = record (init (λ n. n) (λ n. n) host) { queue = three }

abbrev long_data : Bytes
long_data = replicate 400 7

enqueue-overflow_example :
    let r = enqueue ample full_host long_data in
    (r.0 ≡ kit_ok) × (queue_pack ample counter r.1.queue 2 (pos 3) (pos 4) [] 5 ≡ none)
unfolding init
enqueue-overflow_example =
    enqueue-overflow ample counter (λ a n. refl) full_host long_data 2 (pos 3) (pos 4) [] 5 refl
      (omega arith, (omega arith, (omega arith, tt))) (omega arith) (omega arith) (omega arith)
