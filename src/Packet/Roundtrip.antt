-- ===== src/Packet/Roundtrip.antt =====
-- source/peer/packet.c: peer_unpack gives back what peer_pack was given.
use peer.Prelude.{
  ℕ, ◌+◌, ◌≡◌, refl, sym, ap, true, List, [], ◌∷◌, ◌++◌, append_assoc, append-nil, some, All,
  length, length-tabulate, eq→==,
}
use peer.Prelude.Int.{ℤ, pos}
use peer.Options.{Status, kit_ok}
use peer.Serial.{Bytes}
use peer.Kit
use peer.Kit.{Kit, Array}
use peer.Packet.{
  Packet, blank, unset, on_last, write_header, pack_loop, pack_end, pack, unpack_packet,
  unpack_from, unpack,
}
use peer.Packet.Carries.{IsChunk, on_last-append, write_header-some}
use peer.Packet.Unpack.{unpack_packet-Carries}
use peer.Packet.Pack.{AllSealed, nil, cons, pack-AllSealed}

module _ (kit : Kit) (s d : ℤ) (room : (a : Array) (n : ℕ) → kit.fits a n ≡ true) where
  unpack_from-AllSealed :
      {ps : List Packet} {cs : List Bytes} (status : Status) (out : List Bytes)
      → AllSealed s d ps cs
      → unpack_from kit ps status out ≡ some (status, out ++ cs)
  unfolding unpack_from
  unpack_from-AllSealed status out nil = ap (λ o. some (status, o)) (sym (append-nil out))
  unpack_from-AllSealed status out (cons {cs = cs} {ds = ds} v vs e) =
      rw
        (
          unpack_packet-Carries kit room status out v.carries v.size_set,
          unpack_from-AllSealed status (out ++ cs) vs,
          e,
        )
        (ap (λ o. some (status, o)) (append_assoc out cs ds))

  -- In a build without asserts and with memory to be had, peer_pack of chunks that fit packets into
  -- an empty array succeeds, and peer_unpack of the packets succeeds and appends exactly those
  -- chunks, in order.
  pub unpack-pack :
      (chunks out : List Bytes)
      → All IsChunk chunks
      → (packets : List Packet) × (pack kit s d chunks [] ≡ some (kit_ok, packets))
        × (unpack kit packets out ≡ some (kit_ok, out ++ chunks))
  unfolding pack pack_loop pack_end unpack unpack_from unpack_packet on_last
  unpack-pack [] out ok =
      let (q, e, size, _, _) = write_header-some 0 (blank kit s d) refl in
      (
        q ∷ [],
        rw (room Kit.packets 1, e),
        rw size (ap (λ o. some (kit_ok, o)) (sym (append-nil out))),
      )
  unpack-pack (c ∷ cs) out ok =
      let (packets, e, v) = pack-AllSealed kit s d room c cs [] ok in
      (packets, e, unpack_from-AllSealed kit_ok out v)

module _ (kit : Kit) (s d : ℤ) where
  -- With no chunks and packets already in the array, and with memory for one more, peer_pack
  -- succeeds, but clears the first packet of the array: it resets `values[0]` in place of the
  -- packet that it adds, whose size it sets to 0 and whose two ids stay what new memory holds.
  pub pack-nil_clears :
      (p : Packet) (ps : List Packet)
      → kit.fits Kit.packets (length (p ∷ ps) + 1) ≡ true
      → (q : Packet) × (pack kit s d [] (p ∷ ps) ≡ some (kit_ok, blank kit s d ∷ (ps ++ q ∷ [])))
        × (q.size ≡ pos 0)
        × (q.source_id ≡ kit.word)
        × (q.destination_id ≡ kit.word)
  unfolding pack pack_loop pack_end
  pack-nil_clears p ps room =
      let (q, e, size, from, to) =
        write_header-some 0 (unset kit s d) (length-tabulate kit.byte 0 400) in
      (
        q,
        rw (
          eq→== (length (p ∷ ps)) (length (p ∷ ps)) refl,
          room,
          on_last-append (write_header 0) (blank kit s d ∷ ps) (unset kit s d),
          e,
        ),
        size,
        from,
        to,
      )
