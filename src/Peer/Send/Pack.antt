-- ===== src/Peer/Send/Pack.antt =====
-- source/peer/peer.c, queue_pack: the packets that new messages are sent in.
use peer.Prelude.{
  All-take, All-drop, take_all, drop-get_elem?, ℕ, ◌+◌, ◌-◌, ◌≤◌, ◌<◌, ◌≡◌, ap, sym, subst, true,
  Bool-cases, inl, inr, List, [], ◌∷◌, ◌++◌, append_assoc, some, arith, ltb-false, ==-false, ◌==◌,
  length, length-drop, get_elem?-some, take, drop, All, All-append, All-get_elem?,
}
use peer.Prelude.Int.{ℤ}
use peer.Options.{kit_ok}
use peer.Serial.{Bytes}
use peer.Kit
use peer.Kit.{Kit, Array}
use peer.Packet.{Packet}
use peer.Packet.Carries.{IsChunk}
use peer.Packet.Pack.{AllSealed, pack-AllSealed}
use peer.Queue.{Message, Queue}
use peer.Peer.Send.{trail_length, append_trail, pack_with_trail, queue_pack}
use peer.Peer.Send.Trail.{
  IsSmall, all-IsSized, IsOlder, chunk_at, chunks_from, chunk_at-IsChunk, message_chunks_lem,
  append_scatter_lem,
}

-- The chunks of the messages just below an index.
abbrev pub recent : Queue → ℕ → List Bytes
recent q index = let n = trail_length index in chunks_from (index - n) (take n (drop (index - n) q))

pub trail_length-le : (index : ℕ) → trail_length index ≤ index
unfolding trail_length
trail_length-le index = ground arith

pub chunks_from-IsChunk :
    (i : ℕ) (ms : List Message) → All IsSmall ms → All IsChunk (chunks_from i ms)
chunks_from-IsChunk i [] small = tt
chunks_from-IsChunk i (m ∷ ms) small =
    (chunk_at-IsChunk i m small.0, chunks_from-IsChunk (i + 1) ms small.1)

pub older-IsChunk :
    (q : Queue) (k : ℕ) (cs : List Bytes) → All IsSmall q → All (IsOlder q k) cs → All IsChunk cs
older-IsChunk q k [] small h = tt
older-IsChunk q k (c ∷ cs) small ((j, m, _, e, is), h) = (
  subst IsChunk (sym is) (chunk_at-IsChunk j m (All-get_elem? IsSmall q j m small e)),
  older-IsChunk q k cs small h,
)

module _ {R : Type 0} (kit : Kit) (generate : R → ℕ × R)
    (room : (a : Array) (n : ℕ) → kit.fits a n ≡ true) (q : Queue) (small : All IsSmall q) where
  -- With memory to be had and messages that fit packets, chunks_append_trail of an index in a queue
  -- succeeds, and never reads outside the queue. It appends the chunks of the messages just below
  -- the index, in order, and then chunks of messages of the queue that stand below the index.
  pub append_trail_lem :
      (index : ℕ) (chunks : List Bytes) (rng : R)
      → index ≤ length q
      → (picked : List Bytes) × (rng' : R) × (append_trail kit generate q index chunks rng
          ≡ some (kit_ok, chunks ++ (recent q index ++ picked), rng'))
        × All (IsOlder q index) picked
  unfolding append_trail
  append_trail_lem index chunks rng le =
      let n = trail_length index in
      elim (Bool-cases (n == 0)) [
        | inl nothing ↦
            let (picked, rng', e, all) =
              append_scatter_lem kit generate room q small index chunks rng le in
            (
              picked,
              rng',
              rw (nothing, e)
                  (ap (λ cs. some (kit_ok, chunks ++ cs, rng')) (none_recent nothing picked)),
              all,
            )
        | inr something ↦
            let (picked, rng', e, all) =
              append_scatter_lem kit generate room q small index (chunks ++ recent q index) rng
                le in
            (
              picked,
              rng',
              rw (
                something,
                room Kit.chunks (length chunks + n),
                message_chunks_lem kit room q (all-IsSized q small) n (index - n)
                    (omega (arith, trail_length-le index)),
                e,
                append_assoc chunks (recent q index) picked,
              ),
              all,
            )
      ]
    where
      none_recent :
          (trail_length index == 0) ≡ true
          → (picked : List Bytes) → picked ≡ recent q index ++ picked
      none_recent e picked = let zero_is : trail_length index ≡ 0 = ground arith in rw zero_is

  -- In a build without asserts, with memory to be had and messages that fit packets, queue_pack of
  -- an index below the size of a queue succeeds. It adds packets that carry the chunks of all the
  -- messages from the index on, in order and each with its index, then of those just below it, and
  -- then of messages of the queue that stand below it; and each packet has its size set to the end
  -- of its chunks.
  pub queue_pack_lem :
      (index : ℕ) (s d : ℤ) (out : List Packet) (rng : R)
      → index < length q
      → (packets : List Packet) × (picked : List Bytes) × (rng' : R) × (queue_pack kit generate q
            index s d out rng
          ≡ some (kit_ok, out ++ packets, rng'))
        × AllSealed s d packets (chunks_from index (drop index q) ++ (recent q index ++ picked))
        × All (IsOlder q index) picked
  unfolding queue_pack pack_with_trail
  queue_pack_lem index s d out rng lt =
      let (m, here) = get_elem?-some q index lt in
      let new = chunks_from (index + 1) (drop (index + 1) q) in
      let (picked, rng', e, older) =
        append_trail_lem index (chunk_at index m ∷ new) rng (omega arith) in
      let ok : All IsChunk (chunks_from index (drop index q) ++ (recent q index ++ picked)) =
        All-append IsChunk (chunks_from index (drop index q)) (recent q index ++ picked)
          (chunks_from-IsChunk index (drop index q) (All-drop IsSmall index q small))
          (All-append IsChunk (recent q index) picked
            (chunks_from-IsChunk _ _ (All-take IsSmall _ _ (All-drop IsSmall _ q small)))
            (older-IsChunk q index picked small older)) in
      let first : chunks_from index (drop index q) ≡ chunk_at index m ∷ new =
        ap (chunks_from index) (drop-get_elem? q index m here) in
      let (packets, packed, seals) =
        pack-AllSealed kit s d room (chunk_at index m) (new ++ (recent q index ++ picked)) out
          (subst (λ cs. All IsChunk (cs ++ (recent q index ++ picked))) first ok) in
      (
        packets,
        picked,
        rng',
        rw (
          ltb-false (length q) index (omega arith),
          ==-false (length q) index (λ same. absurd (omega arith)),
          room Kit.chunks (length q - index),
          message_chunks_lem kit room q (all-IsSized q small) (length q - index) index
              (omega arith),
          take_all (length q - index) (drop index q) (omega (arith, length-drop index q)),
          first,
          e,
          room Kit.refs (length (chunk_at index m ∷ (new ++ (recent q index ++ picked)))),
          packed,
        ),
        subst (λ cs. AllSealed s d packets (cs ++ (recent q index ++ picked))) (sym first) seals,
        older,
      )
