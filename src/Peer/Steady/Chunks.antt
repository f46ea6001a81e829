-- ===== src/Peer/Steady/Chunks.antt =====
-- source/peer/packet.c and peer.c, peer_unpack and peer_input: no chunk of a packet is longer than
-- what fits behind the header of one.
use peer.Prelude.{
  ℕ, zero, suc, ◌+◌, ◌≤◌, ◌≡◌, false, not, ◌||◌, List, [], ◌∷◌, ◌++◌, arith, ltb, leb, ◌==◌, length,
  length-take, length-drop, drop, All, All-append,
}
use peer.Prelude.Int.{ℤ, pos, negsuc, ◌==ℤ◌, ltb_ℤ}
use peer.Prelude.Post.{Post, post_some, post_none, Post-if, Post-cases, Post-bind, Post-then}
use peer.Options.{Status, kit_ok}
use peer.Serial.{Bytes, read_message_size}
use peer.Kit
use peer.Kit.{Kit}
use peer.Packet.{Packet, read_bytes, unpack_loop, unpack_packet, unpack_from, unpack}
use peer.Peer.Receive.{read_payload}

-- A chunk that fits behind the header of a packet.
abbrev pub Fitting : Bytes → Type 0
Fitting c = length c ≤ 385

abbrev AllFitting : Status × List Bytes → Type 0
AllFitting r = All Fitting r.1

read_bytes-size : (n : ℕ) (bs : Bytes) → Post (λ c. length c ≤ n) (read_bytes n bs)
unfolding read_bytes
read_bytes-size n bs =
    Post-if (leb n (length bs)) (post_some (omega (arith, length-take n bs))) post_none

module _ (kit : Kit) where
  unpack_loop-Fitting :
      (fuel : ℕ) (packet_end : ℤ) (body : Bytes) (offset : ℕ) (status : Status) (out : List Bytes)
      → 15 ≤ offset
      → All Fitting out
      → Post AllFitting (unpack_loop kit fuel packet_end body offset status out)
  unfolding unpack_loop
  unpack_loop-Fitting zero packet_end body offset status out le h = post_none
  unpack_loop-Fitting (suc fuel) packet_end body offset status out le h =
      Post-if (ltb_ℤ packet_end (pos (offset + 30))) (post_some h) (
        Post-bind (read_message_size (drop offset body)) λ size. Post-if (size == 0) (post_some h) (
          Post-cases (ltb 400 (offset + size)) (λ _. post_some h)
            λ inside. Post-if (not (kit.fits Kit.chunks (length out + 1))) (post_some h) (
              Post-if (not (kit.fits Kit.chunk size))
                (post_some (All-append Fitting out ([] ∷ []) h (omega arith, tt)))
                (Post-then (read_bytes-size size (drop offset body)) λ c small.
                  unpack_loop-Fitting fuel packet_end body (offset + size) status (out ++ c ∷ [])
                    (omega arith)
                    (All-append Fitting out (c ∷ []) h (fits size c small inside, tt))))))
    where
      fits : (size : ℕ) (c : Bytes) → length c ≤ size → ltb 400 (offset + size) ≡ false → Fitting c
      fits size c small inside = ground arith

  unpack_packet-Fitting :
      (p : Packet) (status : Status) (out : List Bytes)
      → All Fitting out
      → Post AllFitting (unpack_packet kit p status out)
  unfolding unpack_packet
  unpack_packet-Fitting p status out h = Post-if (p.size ==ℤ pos 0) (post_some h) (
      Post-if (ltb_ℤ p.size (pos 15) || ltb_ℤ (pos 400) p.size) (post_some h)
        (unpack_loop-Fitting 400 p.size p.body 15 status out (omega arith) h))

  unpack_from-Fitting :
      (ps : List Packet) (status : Status) (out : List Bytes)
      → All Fitting out
      → Post AllFitting (unpack_from kit ps status out)
  unfolding unpack_from
  unpack_from-Fitting [] status out h = post_some h
  unpack_from-Fitting (p ∷ ps) status out h =
      Post-then (unpack_packet-Fitting p status out h)
        λ r fitting. unpack_from-Fitting ps r.0 r.1 fitting

  -- No chunk of peer_unpack is longer than what fits behind the header of a packet.
  pub unpack-Fitting : (packets : List Packet) → Post AllFitting (unpack kit packets [])
  unfolding unpack
  unpack-Fitting packets = unpack_from-Fitting packets kit_ok [] tt

pub read_payload-small :
    (size : ℤ) (c : Bytes) → Fitting c → Post (λ bs. length bs ≤ 355) (read_payload size c)
unfolding read_payload read_bytes
read_payload-small (pos n) c small =
    Post-if (leb n (length (drop 30 c)))
      (post_some (omega (arith, length-take n (drop 30 c), length-drop 30 c))) post_none
read_payload-small (negsuc n) c small = post_none
