-- ===== src/Packet/Fill.antt =====
-- source/peer/packet.c: how far peer_pack fills a packet.
use peer.Prelude.{
  ℕ, ◌+◌, ◌≤◌, ◌≡◌, refl, sym, ap, subst, ◌∙◌, true, List, [], ◌∷◌, ◌++◌, append_assoc, append-nil,
  some, arith, length, length-append, All,
}
use peer.Prelude.Int.{ℤ, pos}
use peer.Options.{kit_ok}
use peer.Serial.{Bytes}
use peer.Kit.{Kit, Array}
use peer.Packet.{Packet, blank, pack_loop, pack}
use peer.Packet.Carries.{IsChunk, Carries, concat, write_header-Carries}
use peer.Packet.Pack.{blank-Carries, round_fits, first_opens, pack_end-last}

module _ (kit : Kit) (s d : ℤ) (room : (a : Array) (n : ℕ) → kit.fits a n ≡ true) where
  -- Rounds that open no packet.
  loop_fills :
      (cs : List Bytes) (previous offset : ℕ) (out : List Packet) (p : Packet) (ds : List Bytes)
      → All IsChunk cs
      → Carries s d p ds offset
      → offset + length (concat cs) ≤ 400
      → (q : Packet) × (pack_loop kit s d previous cs offset (out ++ p ∷ [])
          ≡ some (kit_ok, offset + length (concat cs), out ++ q ∷ []))
        × Carries s d q (ds ++ cs) (offset + length (concat cs))
  unfolding pack_loop
  loop_fills [] previous offset out p ds ok v fits =
      let end : offset + 0 ≡ offset = omega arith in
      (
        p,
        rw end refl,
        subst (λ n. Carries s d p (ds ++ []) n) (sym end)
            (subst (λ cs. Carries s d p cs offset) (sym (append-nil ds)) v),
      )
  loop_fills (c ∷ cs) previous offset out p ds ok v fits =
      let size = length-append c (concat cs) in
      let (q, e, w) = round_fits kit s d room previous offset c cs out p ds ok.0 v (omega arith) in
      let (q', e', w') =
        loop_fills cs previous (offset + length c) out q (ds ++ c ∷ []) ok.1 w (omega arith) in
      let end : offset + length c + length (concat cs) ≡ offset + length (concat (c ∷ cs)) =
        omega arith in
      (
        q',
        e ∙ e' ∙ ap (λ n. some (kit_ok, n, out ++ q' ∷ [])) end,
        subst (λ n. Carries s d q' (ds ++ c ∷ cs) n) end
            (subst (λ all. Carries s d q' all (offset + length c + length (concat cs)))
              (append_assoc ds (c ∷ []) cs) w'),
      )

  -- In a build without asserts and with memory to be had, peer_pack of chunks that have no more
  -- than 385 bytes together adds exactly one packet, which carries all of them, and whose size is
  -- that of its header and theirs: a packet is filled up to its 400 bytes before another is opened.
  pub pack-one_packet :
      (c : Bytes) (cs : List Bytes) (out : List Packet)
      → All IsChunk (c ∷ cs)
      → length (concat (c ∷ cs)) ≤ 385
      → (q : Packet) × (pack kit s d (c ∷ cs) out ≡ some (kit_ok, out ++ q ∷ []))
        × Carries s d q (c ∷ cs) (15 + length (concat (c ∷ cs)))
        × (q.size ≡ pos (15 + length (concat (c ∷ cs))))
  unfolding pack
  pack-one_packet c cs out ok fits =
      let n = 15 + length (concat (c ∷ cs)) in
      let (p, e, v) =
        loop_fills (c ∷ cs) (length out) 15 out (blank kit s d) [] ok (blank-Carries kit s d)
          (omega arith) in
      let (q, written, w, size) = write_header-Carries v in
      (
        q,
        rw (first_opens kit s d room c cs out ok.0, e)
            (pack_end-last kit s d room out [] p q n written),
        w,
        size,
      )
