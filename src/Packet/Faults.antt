-- ===== src/Packet/Faults.antt =====
-- source/peer/packet.c, peer_pack: where a chunk is written past the end of a packet.
use peer.Prelude.{
  ℕ, zero, suc, ◌+◌, ◌≤◌, ◌<◌, ◌≡◌, refl, ap, ◌∙◌, true, List, [], ◌∷◌, ◌++◌, none, some, arith,
  length, length-append, get_elem?, replicate, All, lt→ltb, ltb-false, eq→==, lt-or-le, inl, inr,
}
use peer.Prelude.Int.{ℤ}
use peer.Serial.{Bytes, memcpy, read_message_size}
use peer.Serial.Layout.{memcpy-none}
use peer.Kit
use peer.Kit.{Kit, Array}
use peer.Packet.{Packet, blank, write_header, copy_chunk, open_packet, pack_loop, pack}
use peer.Packet.Carries.{IsChunk, Carries, at-append, on_last-append, write_header-Carries}
use peer.Packet.Pack.{blank-Carries, round_fits, round_opens, first_opens}

-- A chunk whose size field is its size, of whatever size.
pub record IsWhole (c : Bytes) : Type 0 where
  pub size_field : read_message_size c ≡ some (length c)
  pub has_header : 30 ≤ length c

module _ (kit : Kit) (s d : ℤ) (room : (a : Array) (n : ℕ) → kit.fits a n ≡ true) where
  copy_chunk-none : (c : Bytes) → 385 < length c → copy_chunk 15 c (blank kit s d) ≡ none
  unfolding copy_chunk
  copy_chunk-none c long = rw (
    at-append (memcpy c) (replicate 15 0) (replicate 385 0),
    memcpy-none c (replicate 385 0) long,
  )

  -- A round whose chunk is longer than what any packet holds.
  round-none :
      (previous offset : ℕ) (c : Bytes) (cs : List Bytes) (out : List Packet) (p : Packet)
      (ds : List Bytes)
      → Carries s d p ds offset
      → previous ≤ length out
      → IsWhole c
      → 385 < length c
      → pack_loop kit s d previous (c ∷ cs) offset (out ++ p ∷ []) ≡ none
  unfolding pack_loop open_packet
  round-none previous offset c cs out p ds v older whole long =
      let (q, e, _, _) = write_header-Carries v in
      rw (
        lt→ltb 400 (offset + length c) (omega (arith, v.used)),
        lt→ltb previous (length (out ++ p ∷ [])) (omega (arith, length-append out (p ∷ []))),
        on_last-append (write_header offset) out p,
        e,
        room Kit.packets (length (out ++ q ∷ []) + 1),
        whole.size_field,
        eq→== (length c) (length c) refl,
        on_last-append (copy_chunk 15 c) (out ++ q ∷ []) (blank kit s d),
        copy_chunk-none c long,
      )

  -- The same where it opens the first packet.
  first-none :
      (c : Bytes) (cs : List Bytes) (out : List Packet)
      → IsWhole c
      → 385 < length c
      → pack_loop kit s d (length out) (c ∷ cs) 400 out ≡ none
  unfolding pack_loop open_packet
  first-none c cs out whole long = rw (
    lt→ltb 400 (400 + length c) (omega arith),
    ltb-false (length out) (length out) (omega arith),
    room Kit.packets (length out + 1),
    whole.size_field,
    eq→== (length c) (length c) refl,
    on_last-append (copy_chunk 15 c) out (blank kit s d),
    copy_chunk-none c long,
  )

  whole-IsChunk : (c : Bytes) → IsWhole c → length c ≤ 385 → IsChunk c
  whole-IsChunk c whole small = record {
    size_field = whole.size_field;
    has_header = whole.has_header;
    small = small;
  }

  loop-none :
      (cs : List Bytes) (j : ℕ) (c : Bytes) (previous offset : ℕ) (out : List Packet) (p : Packet)
      (ds : List Bytes)
      → All IsWhole cs
      → get_elem? cs j ≡ some c
      → 385 < length c
      → Carries s d p ds offset
      → previous ≤ length out
      → pack_loop kit s d previous cs offset (out ++ p ∷ []) ≡ none
  loop-none [] j c previous offset out p ds whole here long v older = absurd (cc)
  loop-none (b ∷ cs) j c previous offset out p ds whole here long v older =
      elim (lt-or-le 385 (length b)) [
        | inl over ↦ round-none previous offset b cs out p ds v older whole.0 over
        | inr small ↦
            let chunk = whole-IsChunk b whole.0 small in
            let (i, later) = behind j here small in
            elim (lt-or-le 400 (offset + length b)) [
              | inr fits ↦
                  let (q, e, w) =
                    round_fits kit s d room previous offset b cs out p ds chunk v fits in
                  e
                  ∙ loop-none cs i c previous (offset + length b) out q (ds ++ b ∷ []) whole.1 later
                      long w older
              | inl opens ↦
                  let (q, e, sealed) =
                    round_opens kit s d room previous offset b cs out p ds v older chunk opens in
                  let (q', e', w) =
                    round_fits kit s d room previous 15 b cs (out ++ q ∷ []) (blank kit s d) []
                      chunk (blank-Carries kit s d) (omega arith) in
                  e
                  ∙ e'
                  ∙ loop-none cs i c previous (15 + length b) (out ++ q ∷ []) q' (b ∷ []) whole.1
                      later long w (omega (arith, length-append out (q ∷ [])))
            ]
      ]
    where
      behind :
          (j : ℕ)
          → get_elem? (b ∷ cs) j ≡ some c
          → length b ≤ 385
          → (i : ℕ) × (get_elem? cs i ≡ some c)
      behind zero e small = let same : b ≡ c = cc in absurd (omega (arith, ap length same))
      behind (suc i) e small = (i, e)

  -- With memory to be had, peer_pack of chunks with one among them that is longer than the 385
  -- bytes behind the header of a packet writes past the end of a packet.
  pub pack-none :
      (cs : List Bytes) (j : ℕ) (c : Bytes) (out : List Packet)
      → All IsWhole cs
      → get_elem? cs j ≡ some c
      → 385 < length c
      → pack kit s d cs out ≡ none
  unfolding pack
  pack-none [] j c out whole here long = absurd (cc)
  pack-none (b ∷ cs) j c out whole here long = elim (lt-or-le 385 (length b)) [
    | inl over ↦ rw (first-none b cs out whole.0 over)
    | inr small ↦ rw (
      first_opens kit s d room b cs out (whole-IsChunk b whole.0 small),
      loop-none (b ∷ cs) j c (length out) 15 out (blank kit s d) [] whole here long
          (blank-Carries kit s d) (omega arith),
    )
  ]
