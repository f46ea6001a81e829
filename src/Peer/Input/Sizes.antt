-- ===== src/Peer/Input/Sizes.antt =====
-- source/peer/packet.c and peer.c, peer_unpack and peer_input: the sizes of the chunks of a packet,
-- and what is read of them.
use peer.Prelude.{
  ℕ, zero, suc, ◌+◌, ◌≤◌, ◌<◌, ◌≡◌, refl, sym, ap, ◌∙◌, true, not, ◌||◌, List, [], ◌∷◌, ◌++◌,
  Option, none, some, arith, leb, ltb, ◌==◌, length, length-take, take, drop, take-append-drop, All,
  All-append, Cells, of_cells,
}
use peer.Prelude.Int.{ℤ, pos, ltb_ℤ, ◌==ℤ◌}
use peer.Prelude.Post.{
  Post, post_some, post_none, Post-if, Post-cases, Post-bind, Post-then, from_result,
}
use peer.Options.{Status, kit_ok}
use peer.Serial.{
  Bytes, read_u8, read_u16, read_u32, read_u64, read_message_size, read_message_data_size,
  read_message_mode, read_message_index, read_message_time, read_message_actor,
}
use peer.Kit
use peer.Kit.{Kit}
use peer.Packet.{Packet, read_bytes, unpack_loop, unpack_packet, unpack_from, unpack}
use peer.Packet.Unpack.{read_message_size-append}
use peer.Packet.Faults.{IsWhole}
use peer.Peer.Receive.{Fields, read_fields}
use peer.Peer.Receive.Payload.{read_actor-inside}

-- A chunk whose size field is its length, where it has a whole header.
abbrev pub IsTold : Bytes → Type 0
IsTold c = 30 ≤ length c → IsWhole c

abbrev AllTold : Status × List Bytes → Type 0
AllTold r = All IsTold r.1

copied-IsTold :
    (size : ℕ) (body : Bytes)
    → read_message_size body ≡ some size
    → Post IsTold (read_bytes size body)
unfolding read_bytes
copied-IsTold size body e =
    Post-cases (leb size (length body))
      (λ inside.
        post_some λ header. record { size_field = told inside header; has_header = header })
      λ _. post_none
  where
    told :
        leb size (length body) ≡ true
        → 30 ≤ length (take size body)
        → read_message_size (take size body) ≡ some (length (take size body))
    told inside header =
        let c = take size body in
        let n : size ≡ length c = ground (arith, length-take size body) in
        sym (read_message_size-append c (drop size body) (omega arith))
        ∙ ap read_message_size (take-append-drop size body)
        ∙ e
        ∙ ap some n

module _ (kit : Kit) where
  unpack_loop-IsTold :
      (fuel : ℕ) (packet_end : ℤ) (body : Bytes) (offset : ℕ) (status : Status) (out : List Bytes)
      → All IsTold out
      → Post AllTold (unpack_loop kit fuel packet_end body offset status out)
  unfolding unpack_loop
  unpack_loop-IsTold zero packet_end body offset status out h = post_none
  unpack_loop-IsTold (suc fuel) packet_end body offset status out h =
      Post-if (ltb_ℤ packet_end (pos (offset + 30))) (post_some h) (
        Post-then (from_result (read_message_size (drop offset body)) λ n e. e) λ size read.
          Post-if (size == 0) (post_some h) (
            Post-if (ltb 400 (offset + size)) (post_some h) (
              Post-if (not (kit.fits Kit.chunks (length out + 1))) (post_some h) (
                Post-if (not (kit.fits Kit.chunk size))
                  (post_some
                    (All-append IsTold out ([] ∷ []) h ((λ header. absurd (omega arith)), tt)))
                  (Post-then (copied-IsTold size (drop offset body) read) λ c told.
                    unpack_loop-IsTold fuel packet_end body (offset + size) status (out ++ c ∷ [])
                      (All-append IsTold out (c ∷ []) h (told, tt)))))))

  -- The size field of every chunk of peer_unpack is its length, where it has a whole header.
  pub unpack-IsTold : (packet : Packet) → Post (λ r. All IsTold r.1) (unpack kit (packet ∷ []) [])
  unfolding unpack unpack_from unpack_packet
  unpack-IsTold packet =
      Post-then
        (Post-if {P = AllTold} (packet.size ==ℤ pos 0) (post_some tt) (
          Post-if (ltb_ℤ packet.size (pos 15) || ltb_ℤ (pos 400) packet.size) (post_some tt)
            (unpack_loop-IsTold 400 packet.size packet.body 15 kit_ok [] tt)))
        λ r told. post_some told

read_fields-inside : (c : Bytes) → Post (λ f. 30 ≤ length c) (read_fields c)
unfolding read_fields
read_fields-inside c = Post-bind (read_message_data_size c) λ data_size.
    Post-bind (read_message_mode c) λ mode. Post-bind (read_message_index c) λ index.
      Post-bind (read_message_time c)
        λ time. Post-then (read_actor-inside c) λ actor inside. post_some inside

-- What is read of a chunk that is shorter than a header reads past it.
pub read_fields-none : (c : Bytes) → length c < 30 → read_fields c ≡ none
read_fields-none c short = never (read_fields-inside c)
  where
    never : {o : Option Fields} → Post (λ f. 30 ≤ length c) o → o ≡ none
    never (post_some h) = absurd (omega arith)
    never post_none = refl

HasFields : Bytes → Type 0
HasFields c = (f : Fields) × (read_fields c ≡ some f)

all_fields : Cells 30 HasFields
unfolding HasFields read_fields read_message_data_size read_message_size read_message_mode
    read_message_index read_message_time read_message_actor read_u8 read_u16 read_u32 read_u64
all_fields c0 c1 c2 c3 c4 c5 c6 c7 c8 c9 c10 c11 c12 c13 c14 c15 c16 c17 c18 c19 c20 c21 c22 c23 c24
      c25 c26 c27 c28 c29 rest =
    (_, refl)

-- Of every chunk with a header its fields can be read.
pub read_fields-some : (c : Bytes) → 30 ≤ length c → (f : Fields) × (read_fields c ≡ some f)
unfolding HasFields
read_fields-some c header = of_cells 30 HasFields all_fields c header
