-- ===== src/Peer/Input/Total.antt =====
-- source/peer/peer.c, peer_input: a peer takes in whatever packets whose messages have headers.
use peer.Prelude.{
  ℕ, ◌≤◌, ◌≡◌, refl, sym, subst, ap, ◌∙◌, not, ◌||◌, List, [], ◌∷◌, Option, none, some, ◌>>=◌,
  arith, length, bit_or, All, All-set, All-get_elem?, get_elem?, set, find_index, find_index-some,
}
use peer.Prelude.Int.{◌==ℤ◌}
use peer.Prelude.Post.{Post, of_post, Returns, if_cases}
use peer.Options.{Status, kit_ok, undefined}
use peer.Options.Error
use peer.Serial.{Bytes}
use peer.Kit.{Kit}
use peer.Packet.{Packet, unpack}
use peer.Packet.Unpack.{unpack_total}
use peer.Peer.{Slot, Peer, Mode, host, client, is_host}
use peer.Peer.Receive.Total.{
  HasRoom, FitsAddress, FitsQueue, KeepsRemote, Stays, host_chunk-KeepsRemote, client_chunk-Stays,
}
use peer.Peer.Input.{
  is_for, is_from, is_free, assign, host_chunks, client_chunks, process, accept, input_packet,
  input_from, input,
}
use peer.Peer.Input.Sizes.{IsTold, unpack-IsTold, read_fields-some}

-- A chunk that a peer in the mode can take: it has a whole header; its index is below INT64_MAX,
-- unless it is of the service; and where it brings a client the address of its host, that has no
-- more than 64 bytes.
abbrev pub IsTakeable : Mode → Bytes → Type 0
IsTakeable host c = (30 ≤ length c) × FitsQueue c
IsTakeable client c = (30 ≤ length c) × FitsQueue c × FitsAddress c

-- So is every chunk of the packet.
abbrev pub AllTakeable : Kit → Mode → Packet → Type 0
AllTakeable kit mode packet = Post (λ r. All (IsTakeable mode) r.1) (unpack kit (packet ∷ []) [])

host_chunks-KeepsRemote :
    (kit : Kit) (cs : List Bytes) (status : Status) (slot : Slot)
    → All IsTold cs
    → All (IsTakeable host) cs
    → KeepsRemote slot (host_chunks kit cs status slot)
unfolding host_chunks
host_chunks-KeepsRemote kit [] status slot told ok = (_, refl, refl)
host_chunks-KeepsRemote kit (c ∷ cs) status slot (told, more) ((header, near), ok) =
    let (f, e) = read_fields-some c header in
    let (r, ran, same) = host_chunk-KeepsRemote kit c status slot f (told header) near e in
    let (r', ran', same') = host_chunks-KeepsRemote kit cs r.0 r.1 more ok in
    (r', rw (ran, ran'), same' ∙ same)

module _ {R : Type 0} (kit : Kit) where
  client_chunks-Stays :
      (cs : List Bytes) (status : Status) (peer : Peer R) (slot : Slot)
      → HasRoom slot
      → All IsTold cs
      → All (IsTakeable client) cs
      → Returns (Stays peer) (client_chunks kit cs status peer slot)
  unfolding client_chunks
  client_chunks-Stays [] status peer slot room told ok = (_, refl, (refl, refl, room))
  client_chunks-Stays (c ∷ cs) status peer slot room (told, more) ((header, near, fits), ok) =
      let (f, e) = read_fields-some c header in
      let (r, ran, (slots, mode, room')) =
        client_chunk-Stays kit peer slot room c status f (told header) fits near e in
      let (r', ran', (slots', mode', room'')) = client_chunks-Stays cs r.0 r.1 r.2 room' more ok in
      (r', rw (ran, ran'), (slots' ∙ slots, mode' ∙ mode, room''))

  -- It has a result, with the mode as it was, and with room for addresses in all slots.
  abbrev IsSound : Mode → Status × Peer R → Type 0
  IsSound m r = (r.1.mode ≡ m) × All HasRoom r.1.slots

  process-IsSound :
      (m : Mode) (chunks : List Bytes) (status : Status) (p : Peer R) (j : ℕ) (slot : Slot)
      → p.mode ≡ m
      → All HasRoom p.slots
      → HasRoom slot
      → All IsTold chunks
      → All (IsTakeable m) chunks
      → Returns (IsSound m) (process kit m chunks status p j slot)
  unfolding process
  process-IsSound host chunks status p j slot mode rooms room told ok =
      let (r, ran, same) = host_chunks-KeepsRemote kit chunks status slot told ok in
      (
        (r.0, record p { slots = set p.slots j r.1 }),
        rw ran,
        (mode, All-set HasRoom p.slots j r.1 (ap (λ e. length e.address_data) same ∙ room) rooms),
      )
  process-IsSound client chunks status p j slot mode rooms room told ok =
      let (r, ran, (slots, mode', room')) = client_chunks-Stays chunks status p slot room told ok in
      (
        (r.0, record r.1 { slots = set r.1.slots j r.2 }),
        rw ran,
        (
          mode' ∙ mode,
          All-set HasRoom r.1.slots j r.2 room' (subst (All HasRoom) (sym slots) rooms),
        ),
      )

  accept-IsSound :
      (m : Mode) (packet : Packet) (status : Status) (p : Peer R) (slots : List Slot)
      → IsSound m (status, p)
      → IsSound m (accept kit packet status p slots)
  unfolding accept
  accept-IsSound m packet status p [] h = h
  accept-IsSound m packet status p (first ∷ rest) h =
      if_cases (IsSound m) (not (is_host p.mode) || not (first.remote.id ==ℤ undefined)) _ _
        (λ _. h) (λ _. free (find_index is_free 1 rest))
    where
      given :
          (j : ℕ) (o : Option Slot)
          → get_elem? p.slots j ≡ o
          → IsSound m (elim o [
            | none ↦ (status, p)
            | some slot ↦
                (status, record p { slots = set p.slots j (assign j packet.source_id slot) })
          ])
      given j none e = h
      given j (some slot) e = (
        h.0,
        All-set HasRoom p.slots j (assign j packet.source_id slot)
            (All-get_elem? HasRoom p.slots j slot h.1 e) h.1,
      )

      free :
          (o : Option ℕ)
          → IsSound m (elim o [
            | none ↦ (bit_or status Error.no_free_slots, p)
            | some j ↦ elim (get_elem? p.slots j) [
              | none ↦ (status, p)
              | some slot ↦
                  (status, record p { slots = set p.slots j (assign j packet.source_id slot) })
            ]
          ])
      free none = h
      free (some j) = given j (get_elem? p.slots j) refl

  input_packet-IsSound :
      (m : Mode) (packet : Packet) (status : Status) (p : Peer R)
      → IsSound m (status, p)
      → length packet.body ≡ 400
      → AllTakeable kit m packet
      → Returns (IsSound m) (input_packet kit packet status p)
  unfolding input_packet
  input_packet-IsSound m packet status p h whole ok =
      known (find_index (is_for packet) 0 p.slots) (find_index (is_from packet) 0 p.slots) refl
    where
      taken :
          (j : ℕ) (slot : Slot)
          → HasRoom slot
          → Returns (IsSound m) (do
            (s, chunks) ← unpack kit (packet ∷ []) []
            process kit p.mode chunks (bit_or status s) p j slot)
      taken j slot room =
          let ((s, chunks), e) = unpack_total kit (packet ∷ []) [] (whole, tt) in
          let told = of_post (unpack-IsTold kit packet) e in
          let takeable = of_post ok e in
          let (r, ran, sound) =
            process-IsSound m chunks (bit_or status s) p j slot h.0 h.1 room told takeable in
          (r, rw e (ap (λ x. process kit x chunks (bit_or status s) p j slot) h.0 ∙ ran), sound)

      known :
          (o r : Option ℕ)
          → find_index (is_from packet) 0 p.slots ≡ r
          → Returns (IsSound m) (elim o [
            | none ↦ some (status, p)
            | some _ ↦ elim r [
              | none ↦ some (accept kit packet status p p.slots)
              | some j ↦ elim (get_elem? p.slots j) [
                | none ↦ none
                | some slot ↦ (do
                  (s, chunks) ← unpack kit (packet ∷ []) []
                  process kit p.mode chunks (bit_or status s) p j slot)
              ]
            ]
          ])
      known none r e = (_, refl, h)
      known (some i) none e = (_, refl, accept-IsSound m packet status p p.slots h)
      known (some i) (some j) e =
          let (k, slot, at, here, _) = find_index-some (is_from packet) 0 p.slots j e in
          let same : j ≡ k = omega (arith, at) in
          let found : get_elem? p.slots j ≡ some slot = ap (get_elem? p.slots) same ∙ here in
          rw found (taken j slot (All-get_elem? HasRoom p.slots j slot h.1 found))

  input_from-IsSound :
      (m : Mode) (packets : List Packet) (status : Status) (p : Peer R)
      → IsSound m (status, p)
      → All (λ packet. length packet.body ≡ 400) packets
      → All (AllTakeable kit m) packets
      → Returns (IsSound m) (input_from kit packets status p)
  unfolding input_from
  input_from-IsSound m [] status p h whole ok = (_, refl, h)
  input_from-IsSound m (packet ∷ packets) status p h (whole, wholes) (ok, oks) =
      let (r, e, sound) = input_packet-IsSound m packet status p h whole ok in
      rw e (input_from-IsSound m packets r.0 r.1 sound wholes oks)

  -- In a build without asserts, peer_input returns, and never reads or writes outside an array, for
  -- a host and for a client, whatever packets of 400 bytes come, whether they are for its slots or
  -- not, and whatever memory there is. The conditions are that each chunk that peer_unpack makes of
  -- a packet has at least the 30 bytes of a header; that its index is below INT64_MAX, unless it is
  -- of the service; that none tells a client an address of more than 64 bytes; and that the slots
  -- have 64 bytes for the addresses of their remote peers, as they still have then.
  pub input_total :
      (p : Peer R) (packets : List Packet)
      → All (λ packet. length packet.body ≡ 400) packets
      → All (AllTakeable kit p.mode) packets
      → All HasRoom p.slots
      → (status : Status) × (q : Peer R) × (input kit p packets ≡ some (status, q))
        × All HasRoom q.slots
  unfolding input
  input_total p packets whole ok rooms =
      let (r, e, sound) = input_from-IsSound p.mode packets kit_ok p (refl, rooms) whole ok in
      (r.0, r.1, e, sound.1)
