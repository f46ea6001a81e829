-- ===== src/Packet/Pack.antt =====
-- source/peer/packet.c: what peer_pack makes of chunks. Every packet it adds is sealed: its size is
-- the end of the chunks that it carries.
use peer.Prelude.{
  ℕ, ◌+◌, ◌≤◌, ◌<◌, ◌≡◌, refl, sym, ap, subst, ◌∙◌, true, List, [], ◌∷◌, ◌++◌, append_assoc,
  append-nil, Option, some, arith, length, length-append, replicate, All, lt→ltb, ltb-false,
  ==-false, eq→==, lt-or-le, inl, inr,
}
use peer.Prelude.Int.{ℤ, pos}
use peer.Options.{Status, kit_ok}
use peer.Serial.{Bytes}
use peer.Kit
use peer.Kit.{Kit, Array}
use peer.Packet.{Packet, blank, write_header, copy_chunk, open_packet, pack_loop, pack_end, pack}
use peer.Packet.Carries.{IsChunk, Carries, on_last-append, copy_chunk-Carries, write_header-Carries}

pub record Sealed (s d : ℤ) (p : Packet) (cs : List Bytes) : Type 0 where
  pub end : ℕ
  pub carries : Carries s d p cs end
  pub size_set : p.size ≡ pos end

-- The packets are sealed and carry the chunks between them, in order.
pub data AllSealed (s d : ℤ) : List Packet → List Bytes → Type 0 where
  nil : AllSealed s d [] []
  cons :
      {p : Packet} {ps : List Packet} {cs ds all : List Bytes}
      → Sealed s d p cs
      → AllSealed s d ps ds
      → all ≡ cs ++ ds
      → AllSealed s d (p ∷ ps) all

pub blank-Carries : (kit : Kit) (s d : ℤ) → Carries s d (blank kit s d) [] 15
blank-Carries kit s d = record {
  from = refl;
  to = refl;
  head = replicate 15 0;
  spare = replicate 385 0;
  bytes = refl;
  head_size = refl;
  used = refl;
  room = refl;
  are_chunks = tt;
}

module _ (kit : Kit) (s d : ℤ) (room : (a : Array) (n : ℕ) → kit.fits a n ≡ true) where
  -- What the loop leaves behind the packets `out`: some sealed packets, then one that is not
  -- finished, with the chunks `all` between them.
  record Packed (r : Option (Status × ℕ × List Packet)) (out : List Packet) (all : List Bytes)
      : Type 0 where
    done : List Packet
    last : Packet
    offset : ℕ
    before : List Bytes
    rest : List Bytes
    result : r ≡ some (kit_ok, offset, out ++ (done ++ last ∷ []))
    done_sealed : AllSealed s d done before
    last_carries : Carries s d last rest offset
    in_order : all ≡ before ++ rest

  -- A round whose chunk fits into the last packet.
  pub round_fits :
      (previous offset : ℕ) (c : Bytes) (cs : List Bytes) (out : List Packet) (p : Packet)
      (ds : List Bytes)
      → IsChunk c
      → Carries s d p ds offset
      → offset + length c ≤ 400
      → (q : Packet) × (pack_loop kit s d previous (c ∷ cs) offset (out ++ p ∷ [])
          ≡ pack_loop kit s d previous cs (offset + length c) (out ++ q ∷ []))
        × Carries s d q (ds ++ c ∷ []) (offset + length c)
  unfolding pack_loop open_packet
  round_fits previous offset c cs out p ds ok v fits =
      let (q, e, w) = copy_chunk-Carries v c ok fits in
      (
        q,
        rw (
          ltb-false 400 (offset + length c) fits,
          ok.size_field,
          eq→== (length c) (length c) refl,
          on_last-append (copy_chunk offset c) out p,
          e,
        ),
        w,
      )

  -- A round whose chunk needs a new packet: the last one is sealed.
  pub round_opens :
      (previous offset : ℕ) (c : Bytes) (cs : List Bytes) (out : List Packet) (p : Packet)
      (ds : List Bytes)
      → Carries s d p ds offset
      → previous ≤ length out
      → IsChunk c
      → 400 < offset + length c
      → (q : Packet) × (pack_loop kit s d previous (c ∷ cs) offset (out ++ p ∷ [])
          ≡ pack_loop kit s d previous (c ∷ cs) 15 ((out ++ q ∷ []) ++ blank kit s d ∷ []))
        × Sealed s d q ds
  unfolding pack_loop open_packet
  round_opens previous offset c cs out p ds v older ok over =
      let (q, e, w, z) = write_header-Carries v in
      (
        q,
        rw (
          lt→ltb 400 (offset + length c) over,
          lt→ltb previous (length (out ++ p ∷ [])) (omega (arith, length-append out (p ∷ []))),
          on_last-append (write_header offset) out p,
          e,
          room Kit.packets (length (out ++ q ∷ []) + 1),
          ltb-false 400 (15 + length c) (omega (arith, ok.small)),
        ),
        record { end = offset; carries = w; size_set = z },
      )

  loop_Packed :
      (cs : List Bytes) (previous offset : ℕ) (out : List Packet) (p : Packet) (ds : List Bytes)
      → All IsChunk cs
      → Carries s d p ds offset
      → previous ≤ length out
      → Packed (pack_loop kit s d previous cs offset (out ++ p ∷ [])) out (ds ++ cs)
  unfolding pack_loop
  loop_Packed [] previous offset out p ds ok v older = record {
    done = [];
    last = p;
    offset = offset;
    before = [];
    rest = ds;
    result = refl;
    done_sealed = nil;
    last_carries = v;
    in_order = append-nil ds;
  }
  loop_Packed (c ∷ cs) previous offset out p ds ok v older =
      elim (lt-or-le 400 (offset + length c)) [
        | inr fits ↦
            let (q, e, w) = round_fits previous offset c cs out p ds ok.0 v fits in
            let r = loop_Packed cs previous (offset + length c) out q (ds ++ c ∷ []) ok.1 w older in
            record {
              done = r.done;
              last = r.last;
              offset = r.offset;
              before = r.before;
              rest = r.rest;
              result = e ∙ r.result;
              done_sealed = r.done_sealed;
              last_carries = r.last_carries;
              in_order = sym (append_assoc ds (c ∷ []) cs) ∙ r.in_order;
            }
        | inl over ↦
            let (q, e, sealed) = round_opens previous offset c cs out p ds v older ok.0 over in
            let (q', e', w) =
              round_fits previous 15 c cs (out ++ q ∷ []) (blank kit s d) [] ok.0
                (blank-Carries kit s d) (omega (arith, ok.0.small)) in
            let r =
              loop_Packed cs previous (15 + length c) (out ++ q ∷ []) q' (c ∷ []) ok.1 w
                (omega (arith, length-append out (q ∷ []))) in
            record {
              done = q ∷ r.done;
              last = r.last;
              offset = r.offset;
              before = ds ++ r.before;
              rest = r.rest;
              result =
                  e
                  ∙ e'
                  ∙ r.result
                  ∙ ap (λ o. some (kit_ok, r.offset, o))
                      (append_assoc out (q ∷ []) (r.done ++ r.last ∷ []));
              done_sealed = cons sealed r.done_sealed refl;
              last_carries = r.last_carries;
              in_order = ap (◌++◌ ds) r.in_order ∙ sym (append_assoc ds r.before r.rest);
            }
      ]

  -- The first chunk opens a packet.
  pub first_opens :
      (c : Bytes) (cs : List Bytes) (out : List Packet)
      → IsChunk c
      → pack_loop kit s d (length out) (c ∷ cs) 400 out
        ≡ pack_loop kit s d (length out) (c ∷ cs) 15 (out ++ blank kit s d ∷ [])
  unfolding pack_loop open_packet
  first_opens c cs out ok = rw (
    lt→ltb 400 (400 + length c) (omega (arith, ok.has_header)),
    ltb-false (length out) (length out) (omega arith),
    room Kit.packets (length out + 1),
    ltb-false 400 (15 + length c) (omega (arith, ok.small)),
  )

  AllSealed-append :
      {ps : List Packet} {cs : List Bytes} (p : Packet) (ds : List Bytes)
      → AllSealed s d ps cs
      → Sealed s d p ds
      → AllSealed s d (ps ++ p ∷ []) (cs ++ ds)
  AllSealed-append p ds nil v = cons v nil (sym (append-nil ds))
  AllSealed-append p ds (cons {cs = cs} {ds = es} u us e) v =
      cons u (AllSealed-append p ds us v) (ap (λ x. x ++ ds) e ∙ append_assoc cs es ds)

  pub pack_end-last :
      (out done : List Packet) (p q : Packet) (offset : ℕ)
      → write_header offset p ≡ some q
      → pack_end kit s d (length out) offset (out ++ (done ++ p ∷ []))
        ≡ some (kit_ok, out ++ (done ++ q ∷ []))
  unfolding pack_end
  pack_end-last out done p q offset e =
      rw
        (
          ==-false (length (out ++ (done ++ p ∷ []))) (length out)
              (omega (arith, length-append out (done ++ p ∷ []), length-append done (p ∷ []))),
          ← append_assoc out done (p ∷ []),
          on_last-append (write_header offset) (out ++ done) p,
          e,
        )
        (ap (λ o. some (kit_ok, o)) (append_assoc out done (q ∷ [])))

  -- In a build without asserts and with memory to be had, peer_pack succeeds on chunks that fit
  -- packets. It leaves the packets that are there as they are, and behind them adds packets from
  -- `s` to `d` that carry the chunks, whole and in order, each packet with its size set to the end
  -- of its chunks.
  pub pack-AllSealed :
      (c : Bytes) (cs : List Bytes) (out : List Packet)
      → All IsChunk (c ∷ cs)
      → (added : List Packet) × (pack kit s d (c ∷ cs) out ≡ some (kit_ok, out ++ added))
        × AllSealed s d added (c ∷ cs)
  unfolding pack
  pack-AllSealed c cs out ok =
      let r =
        loop_Packed (c ∷ cs) (length out) 15 out (blank kit s d) [] ok (blank-Carries kit s d)
          (omega arith) in
      let (q, e, w, z) = write_header-Carries r.last_carries in
      (
        r.done ++ q ∷ [],
        rw (first_opens c cs out ok.0, r.result) (pack_end-last out r.done r.last q r.offset e),
        subst (AllSealed s d (r.done ++ q ∷ [])) (sym r.in_order) (
            AllSealed-append q r.rest r.done_sealed
              (record { end = r.offset; carries = w; size_set = z })),
      )
