-- ===== src/Peer/Send/Faults.antt =====
-- source/peer/peer.c, peer_queue and queue_pack: a message that is too long for a packet is taken,
-- and is written past the end of a packet when it is sent.
use peer.Prelude.{
  get_elem?-last, get_elem?-drop, ℕ, zero, suc, ◌+◌, ◌-◌, ◌%◌, min, ◌≤◌, ◌<◌, ◌≡◌, refl, sym, ap,
  subst, ◌∙◌, true, List, [], ◌∷◌, ◌++◌, append-nil, append_assoc, Option, none, some, arith, ◌==◌,
  ltb-false, ==-false, length, length-drop, get_elem?, get_elem?-lt, get_elem?-append_left, take,
  take_all, drop, All, All-append, All-drop, All-take, All-get_elem?,
}
use peer.Prelude.Int.{ℤ, pos}
use peer.Prelude.Post.{Post, post_some, post_none, Post-if, Post-then, Post-map, from_result}
use peer.Options.{Status, kit_ok}
use peer.Serial.{Bytes, read_message_size}
use peer.Serial.Message.{size-message}
use peer.Kit
use peer.Kit.{Kit, Array}
use peer.Packet.{Packet}
use peer.Packet.Faults.{IsWhole, pack-none}
use peer.Queue.{Message, Queue, queue_append}
use peer.Queue.View.{ready}
use peer.Peer.{Peer, Mode, host, enqueue, enqueue_as}
use peer.Peer.Send.{
  scatter_chunks, append_scatter, append_trail, pack_with_trail, queue_pack, trail_length,
  scatter_distance,
}
use peer.Peer.Send.Trail.{IsSized, chunk_at, chunks_from, message_chunk_lem, message_chunks_lem}
use peer.Peer.Send.Pack.{trail_length-le}

chunk_at-IsWhole : (i : ℕ) (m : Message) → IsSized m → IsWhole (chunk_at i m)
chunk_at-IsWhole i m sized =
    let size : length (chunk_at i m) ≡ 30 + length m.payload = omega arith in
    record {
      size_field = rw size (
          subst (λ x. read_message_size x ≡ some (30 + length m.payload))
            (append-nil (chunk_at i m))
            (size-message 1 (pos i) m.time m.actor m.payload [] (omega (arith, sized))));
      has_header = omega arith;
    }

chunks_from-IsWhole : (i : ℕ) (ms : List Message) → All IsSized ms → All IsWhole (chunks_from i ms)
chunks_from-IsWhole i [] sized = tt
chunks_from-IsWhole i (m ∷ ms) (sized, rest) =
    (chunk_at-IsWhole i m sized, chunks_from-IsWhole (i + 1) ms rest)

get_elem?-chunks_from :
    (i : ℕ) (ms : List Message) (k : ℕ) (m : Message)
    → get_elem? ms k ≡ some m
    → get_elem? (chunks_from i ms) k ≡ some (chunk_at (i + k) m)
get_elem?-chunks_from i [] k m e = absurd (cc)
get_elem?-chunks_from i (x ∷ ms) zero m e =
    let same : x ≡ m = cc in
    let at_i : i ≡ i + 0 = omega arith in
    ap (λ y. some (chunk_at i y)) same ∙ ap (λ k. some (chunk_at k m)) at_i
get_elem?-chunks_from i (x ∷ ms) (suc k) m e =
    get_elem?-chunks_from (i + 1) ms k m e ∙ ap (λ n. some (chunk_at n m)) (omega arith)

module _ {R : Type 0} (kit : Kit) (generate : R → ℕ × R)
    (room : (a : Array) (n : ℕ) → kit.fits a n ≡ true) (q : Queue) (sized : All IsSized q) where
  scatter_chunks-IsWhole :
      (begin distance n : ℕ) (rng : R)
      → Post
          (λ r. (cs : List Bytes) × (r.0 ≡ some cs) × All IsWhole cs)
          (scatter_chunks kit generate q begin distance n rng)
  unfolding scatter_chunks
  scatter_chunks-IsWhole begin distance zero rng = post_some ([], refl, tt)
  scatter_chunks-IsWhole begin distance (suc n) rng =
      let (value, next) = generate rng in
      let i = begin + value % distance in
      Post-then (from_result (get_elem? q i) λ m e. e) λ m here.
        let fits = All-get_elem? IsSized q i m sized here in
        rw (room Kit.chunk (30 + length m.payload), message_chunk_lem kit i m fits)
          (Post-then (scatter_chunks-IsWhole begin distance n next) λ r (cs, is, whole).
            rw is (post_some (chunk_at i m ∷ cs, refl, (chunk_at-IsWhole i m fits, whole))))

  -- What chunks_append_trail leaves: more chunks behind those that are there.
  abbrev Trailed : List Bytes → Status × List Bytes × R → Type 0
  Trailed chunks r =
      (r.0 ≡ kit_ok) × ((more : List Bytes) × (r.1 ≡ chunks ++ more) × All IsWhole more)

  append_scatter-Trailed :
      (index : ℕ) (chunks : List Bytes) (rng : R)
      → Post (Trailed chunks) (append_scatter kit generate q index chunks rng)
  unfolding append_scatter
  append_scatter-Trailed index chunks rng =
      let distance = scatter_distance index in
      let size = min 5 distance in
      rw (room Kit.chunks (length chunks + size)) (
        Post-if (size == 0) (post_some (refl, ([], sym (append-nil chunks), tt))) (
          Post-then (scatter_chunks-IsWhole (index - distance) distance size rng)
            λ r (cs, is, whole). rw is (post_some (refl, (cs, refl, whole)))))

  append_trail-Trailed :
      (index : ℕ) (chunks : List Bytes) (rng : R)
      → index ≤ length q
      → Post (Trailed chunks) (append_trail kit generate q index chunks rng)
  unfolding append_trail
  append_trail-Trailed index chunks rng le =
      let n = trail_length index in
      let recent = chunks_from (index - n) (take n (drop (index - n) q)) in
      rw
        (
          room Kit.chunks (length chunks + n),
          message_chunks_lem kit room q sized n (index - n) (omega (arith, trail_length-le index)),
        )
        (Post-if (n == 0) (append_scatter-Trailed index chunks rng) (
          Post-map
            (λ r (ok, (more, is, whole)). (
              ok,
              (
                recent ++ more,
                is ∙ append_assoc chunks recent more,
                All-append IsWhole recent more
                    (chunks_from-IsWhole (index - n) _
                      (All-take IsSized n _ (All-drop IsSized (index - n) q sized)))
                    whole,
              ),
            ))
            (append_scatter-Trailed index (chunks ++ recent) rng)))

  -- No result at all.
  abbrev Faults : {A : Type 0} → Option A → Type 0
  Faults m = Post (λ _. ⊥) m

  queue_pack-Faults :
      (index j : ℕ) (m : Message) (s d : ℤ) (out : List Packet) (rng : R)
      → index ≤ j
      → get_elem? q j ≡ some m
      → 355 < length m.payload
      → Faults (queue_pack kit generate q index s d out rng)
  unfolding queue_pack pack_with_trail
  queue_pack-Faults index j m s d out rng le here long =
      let inside = get_elem?-lt q j m here in
      let new = chunks_from index (drop index q) in
      let there : get_elem? new (j - index) ≡ some (chunk_at (index + (j - index)) m) =
        get_elem?-chunks_from index (drop index q) (j - index) m
          (get_elem?-drop index q (j - index) ∙ ap (get_elem? q) (omega arith) ∙ here) in
      rw
        (
          ltb-false (length q) index (omega arith),
          ==-false (length q) index (λ same. absurd (omega arith)),
          room Kit.chunks (length q - index),
          message_chunks_lem kit room q sized (length q - index) index (omega arith),
          take_all (length q - index) (drop index q) (omega (arith, length-drop index q)),
        )
        (Post-then (append_trail-Trailed index new rng (omega arith)) λ r (ok, (more, is, whole)).
          rw
            (
              room Kit.refs (length r.1),
              is,
              pack-none kit s d room (new ++ more) (j - index) (chunk_at (index + (j - index)) m)
                  out
                  (All-append IsWhole new more
                    (chunks_from-IsWhole index _ (All-drop IsSized index q sized)) whole)
                  (get_elem?-append_left new more (j - index) (get_elem?-lt new (j - index) _ there)
                    ∙ there)
                  (omega arith),
            )
            post_none)

  queue_pack-none :
      (index j : ℕ) (m : Message) (s d : ℤ) (out : List Packet) (rng : R)
      → index ≤ j
      → get_elem? q j ≡ some m
      → 355 < length m.payload
      → queue_pack kit generate q index s d out rng ≡ none
  queue_pack-none index j m s d out rng le here long =
      of_faults (queue_pack-Faults index j m s d out rng le here long)
    where
      of_faults : {A : Type 0} {o : Option A} → Faults o → o ≡ none
      of_faults post_none = refl
      of_faults (post_some x) = absurd x

module _ {R : Type 0} (kit : Kit) (generate : R → ℕ × R)
    (room : (a : Array) (n : ℕ) → kit.fits a n ≡ true) where
  enqueue_as-overflow :
      (mode : Mode) (p : Peer R) (data_of : Bytes) (index : ℕ) (s d : ℤ) (out : List Packet)
      (rng : R)
      → mode ≡ host
      → All IsSized p.queue
      → 355 < length data_of
      → length data_of ≤ 993
      → index ≤ length p.queue
      → let r = enqueue_as kit mode p data_of in
        (r.0 ≡ kit_ok) × (queue_pack kit generate r.1.queue index s d out rng ≡ none)
  unfolding enqueue_as queue_append
  enqueue_as-overflow host p data_of index s d out rng e sized long short le =
      let m = ready (pos 0) p.actor data_of in
      rw (room Kit.messages (length p.queue + 1), room Kit.payload (length data_of))
        (
          refl,
          queue_pack-none kit generate room (p.queue ++ m ∷ [])
              (All-append IsSized p.queue (m ∷ []) sized (short, tt)) index (length p.queue) m s d
              out rng le (get_elem?-last p.queue m) long,
        )
  enqueue_as-overflow Mode.client p data_of index s d out rng e sized long short le = absurd (cc)

  -- In a build without asserts, peer_queue of a host takes data of 356 to 993 bytes without an
  -- error, where there is memory; and whenever queue_pack is to send the message then, from whatever
  -- index up to it, it writes past the end of a packet, where the other messages of the queue have
  -- up to 993 bytes.
  pub enqueue-overflow :
      (p : Peer R) (data_of : Bytes) (index : ℕ) (s d : ℤ) (out : List Packet) (rng : R)
      → p.mode ≡ host
      → All IsSized p.queue
      → 355 < length data_of
      → length data_of ≤ 993
      → index ≤ length p.queue
      → let r = enqueue kit p data_of in
        (r.0 ≡ kit_ok) × (queue_pack kit generate r.1.queue index s d out rng ≡ none)
  unfolding enqueue
  enqueue-overflow p data_of index s d out rng mode sized long short le =
      enqueue_as-overflow p.mode p data_of index s d out rng mode sized long short le
