-- ===== src/Peer/Receive/Payload.antt =====
-- source/peer/peer.c, peer_input: the data of a chunk are read inside the chunk.
use peer.Prelude.{
  ◌-◌, ◌≤◌, ◌≡◌, refl, ap, ◌∙◌, some, arith, length, length-drop, get_elem?, get_elem?-lt, drop,
  le→leb, take_all,
}
use peer.Prelude.Int.{pos, sub_ℕ}
use peer.Prelude.Post.{Post, of_post, from_result, post_some, Post-bind, Post-then}
use peer.Serial.{
  Bytes, read_u32, read_message_size, read_message_data_size, read_message_mode, read_message_index,
  read_message_time, read_message_actor,
}
use peer.Packet.Unpack.{read_bytes-some}
use peer.Peer.Receive.{Fields, read_fields, read_payload}

read_u32-inside : (bs : Bytes) → Post (λ n. 4 ≤ length bs) (read_u32 bs)
unfolding read_u32
read_u32-inside bs = Post-bind (get_elem? bs 0) λ b0. Post-bind (get_elem? bs 1) λ b1.
    Post-bind (get_elem? bs 2) λ b2.
      Post-then (from_result (get_elem? bs 3) λ b3 e. get_elem?-lt bs 3 b3 e)
        λ b3 inside. post_some (omega arith)

pub read_actor-inside : (c : Bytes) → Post (λ a. 30 ≤ length c) (read_message_actor c)
unfolding read_message_actor
read_actor-inside c =
    Post-then (read_u32-inside (drop 26 c))
      λ n inside. post_some (omega (arith, inside, length-drop 26 c))

module _ (c : Bytes) (whole : read_message_size c ≡ some (length c)) where
  -- What is read says that the header is whole, and tells the size of the data.
  pub record Told (f : Fields) : Type 0 where
    pub has_header : 30 ≤ length c
    pub data_size_is : f.data_size ≡ sub_ℕ (length c) 30

  read_size-told : Post (λ n. n ≡ sub_ℕ (length c) 30) (read_message_data_size c)
  unfolding read_message_data_size
  read_size-told = rw whole (post_some refl)

  pub read_fields-Told : Post Told (read_fields c)
  unfolding read_fields
  read_fields-Told = Post-then read_size-told λ n told. Post-bind (read_message_mode c) λ mode.
      Post-bind (read_message_index c) λ index. Post-bind (read_message_time c) λ time.
        Post-then (read_actor-inside c)
          λ actor inside. post_some (record { has_header = inside; data_size_is = told })

  -- Where the size field of a chunk is its length, as peer_unpack leaves it, and its header can be
  -- read, the data that peer_input copies are just the bytes of the chunk behind its header: it
  -- never reads past the chunk.
  pub read_payload-inside :
      (f : Fields) → read_fields c ≡ some f → read_payload f.data_size c ≡ some (drop 30 c)
  unfolding read_payload
  read_payload-inside f e =
      let told = of_post read_fields-Told e in
      let n = length c - 30 in
      let size : f.data_size ≡ pos n =
        told.data_size_is ∙ rw (le→leb 30 (length c) told.has_header) in
      ap (λ x. read_payload x c) size
      ∙ read_bytes-some n (drop 30 c) (omega (arith, length-drop 30 c))
      ∙ ap some (take_all n (drop 30 c) (omega (arith, length-drop 30 c)))
