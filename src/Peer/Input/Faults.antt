-- ===== src/Peer/Input/Faults.antt =====
-- source/peer/peer.c, peer_input: a message that is shorter than its header is read past its end.
use peer.Prelude.{
  ℕ, zero, suc, ◌+◌, ◌≤◌, ◌<◌, ◌≡◌, refl, sym, ◌∙◌, true, false, not, ◌||◌, List, [], ◌∷◌, ◌++◌,
  append-nil, append_assoc, none, some, arith, ltb, ltb-false, ==-false, ◌==◌, length, length-take,
  length-drop, take, drop, get_elem?, find_index, bit_or,
}
use peer.Prelude.Int.{ℤ, pos, ltb_ℤ, ◌==ℤ◌}
use peer.Prelude.Post.{
  Post, of_post, post_some, post_none, Post-if, Post-bind, Post-map, Post-then, Post-cases,
}
use peer.Options.{Status, kit_ok}
use peer.Serial.{Bytes, read_message_size}
use peer.Kit
use peer.Kit.{Kit, Array}
use peer.Packet.{Packet, read_bytes, unpack_loop, unpack_packet, unpack_from, unpack}
use peer.Packet.Unpack.{read_bytes-some, unpack_total}
use peer.Peer.{Slot, Peer, Mode, host, client}
use peer.Peer.Receive.{host_chunk, client_chunk}
use peer.Peer.Input.{
  is_for, is_from, host_chunks, client_chunks, process, input_packet, input_from, input,
}
use peer.Peer.Input.Sizes.{read_fields-none}

module _ (kit : Kit) where
  -- More chunks behind those that are there.
  unpack_loop-more :
      (fuel : ℕ) (packet_end : ℤ) (body : Bytes) (offset : ℕ) (status : Status) (out : List Bytes)
      → Post
          (λ r. (more : List Bytes) × (r.1 ≡ out ++ more))
          (unpack_loop kit fuel packet_end body offset status out)
  unfolding unpack_loop
  unpack_loop-more zero packet_end body offset status out = post_none
  unpack_loop-more (suc fuel) packet_end body offset status out =
      let same : (more : List Bytes) × (out ≡ out ++ more) = ([], sym (append-nil out)) in
      Post-if (ltb_ℤ packet_end (pos (offset + 30))) (post_some same) (
        Post-bind (read_message_size (drop offset body)) λ size.
          Post-if (size == 0) (post_some same) (
            Post-if (ltb 400 (offset + size)) (post_some same) (
              Post-if (not (kit.fits Kit.chunks (length out + 1))) (post_some same) (
                Post-if (not (kit.fits Kit.chunk size)) (post_some ([] ∷ [], refl)) (
                  Post-bind (read_bytes size (drop offset body)) λ c.
                    Post-map (λ r (more, is). (c ∷ more, is ∙ append_assoc out (c ∷ []) more))
                      (unpack_loop-more fuel packet_end body (offset + size) status
                        (out ++ c ∷ [])))))))

module _ (kit : Kit) (room : (a : Array) (n : ℕ) → kit.fits a n ≡ true) where
  first_round :
      (fuel n offset k : ℕ) (body : Bytes)
      → offset + 30 ≤ n
      → n ≤ 400
      → read_message_size (drop offset body) ≡ some k
      → 0 < k
      → k < 30
      → length body ≡ 400
      → unpack_loop kit (suc fuel) (pos n) body offset kit_ok []
        ≡ unpack_loop kit fuel (pos n) body (offset + k) kit_ok (take k (drop offset body) ∷ [])
  unfolding unpack_loop
  first_round fuel n offset k body low high told positive short whole = rw (
    ltb-false (n + 0) (offset + 30 + 0) (omega arith),
    told,
    ==-false k 0 (λ none_there. absurd (omega arith)),
    ltb-false 400 (offset + k) (omega arith),
    room Kit.chunks 1,
    room Kit.chunk k,
    read_bytes-some k (drop offset body) (omega (arith, length-drop offset body)),
  )

  -- The first chunk of a packet whose first message says that it has `k` bytes.
  first_chunk :
      (packet : Packet) (n k : ℕ)
      → packet.size ≡ pos n
      → 45 ≤ n
      → n ≤ 400
      → length packet.body ≡ 400
      → read_message_size (drop 15 packet.body) ≡ some k
      → 0 < k
      → k < 30
      → Post
          (λ r. (cs : List Bytes) × (r.1 ≡ take k (drop 15 packet.body) ∷ cs))
          (unpack kit (packet ∷ []) [])
  unfolding unpack unpack_from unpack_packet
  first_chunk packet n k size low high whole told positive short =
      Post-then {Q = First} {m = unpack_packet kit packet kit_ok []}
        (rw (size, in_range, first_round 399 n 15 k packet.body low high told positive short whole)
          (Post-cases (pos n ==ℤ pos 0) (λ e. absurd (nonzero n low e))
            λ _.
              unpack_loop-more kit 399 (pos n) packet.body (15 + k) kit_ok
                (take k (drop 15 packet.body) ∷ [])))
        λ r first. post_some first
    where
      First : Status × List Bytes → Type 0
      First r = (cs : List Bytes) × (r.1 ≡ take k (drop 15 packet.body) ∷ cs)

      in_range : (ltb_ℤ (pos n) (pos 15) || ltb_ℤ (pos 400) (pos n)) ≡ false
      in_range = rw (ltb-false (n + 0) 15 (omega arith), ltb-false 400 (n + 0) (omega arith))

      nonzero : (n : ℕ) → 45 ≤ n → (pos n ==ℤ pos 0) ≡ true → ⊥
      nonzero n low e = ground arith

module _ {R : Type 0} (kit : Kit) where
  process-none :
      (m : Mode) (c : Bytes) (cs : List Bytes) (status : Status) (p : Peer R) (j : ℕ) (slot : Slot)
      → length c < 30
      → process kit m (c ∷ cs) status p j slot ≡ none
  unfolding process host_chunks client_chunks host_chunk client_chunk
  process-none host c cs status p j slot short = rw (read_fields-none c short)
  process-none client c cs status p j slot short = rw (read_fields-none c short)

  input_packet-none :
      (room : (a : Array) (n : ℕ) → kit.fits a n ≡ true) (p : Peer R) (packet : Packet)
      (status : Status) (i j n k : ℕ) (slot : Slot)
      → find_index (is_for packet) 0 p.slots ≡ some i
      → find_index (is_from packet) 0 p.slots ≡ some j
      → get_elem? p.slots j ≡ some slot
      → packet.size ≡ pos n
      → 45 ≤ n
      → n ≤ 400
      → length packet.body ≡ 400
      → read_message_size (drop 15 packet.body) ≡ some k
      → 0 < k
      → k < 30
      → input_packet kit packet status p ≡ none
  unfolding input_packet
  input_packet-none room p packet status i j n k slot mine from here size low high whole told
        positive short =
      let ((s, chunks), e) = unpack_total kit (packet ∷ []) [] (whole, tt) in
      let (cs, first) =
        of_post (first_chunk kit room packet n k size low high whole told positive short) e in
      rw (
        input_packet,
        mine,
        from,
        here,
        e,
        first,
        process-none p.mode (take k (drop 15 packet.body)) cs (bit_or status s) p j slot
            (omega (arith, length-take k (drop 15 packet.body))),
      )

  -- peer_input reads past the end of a chunk, with memory to be had, when a packet comes from the
  -- remote peer of a slot whose first message has a size field of 1 to 29, less than its header,
  -- whether the peer is a host or a client.
  pub input-short :
      (room : (a : Array) (n : ℕ) → kit.fits a n ≡ true) (p : Peer R) (packet : Packet)
      (packets : List Packet) (i j n k : ℕ) (slot : Slot)
      → find_index (is_for packet) 0 p.slots ≡ some i
      → find_index (is_from packet) 0 p.slots ≡ some j
      → get_elem? p.slots j ≡ some slot
      → packet.size ≡ pos n
      → 45 ≤ n
      → n ≤ 400
      → length packet.body ≡ 400
      → read_message_size (drop 15 packet.body) ≡ some k
      → 0 < k
      → k < 30
      → input kit p (packet ∷ packets) ≡ none
  unfolding input input_from
  input-short room p packet packets i j n k slot mine from here size low high whole told positive
        short =
      rw (
        input_packet-none room p packet kit_ok i j n k slot mine from here size low high whole told
          positive short)
