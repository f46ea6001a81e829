-- ===== src/Packet/Unpack.antt =====
-- source/peer/packet.c: peer_unpack takes a packet apart into the chunks that it carries, and never
-- reads outside a packet.
use peer.Prelude.{
  ℕ, zero, suc, ◌+◌, ◌≤◌, ◌<◌, ◌≡◌, ◌≢◌, refl, sym, ap, ◌∙◌, true, false, List, [], ◌∷◌, ◌++◌,
  append_assoc, append-nil, none, some, arith, length, take, drop, drop-drop, length-drop,
  length-append, drop-append_length, take-append_length, All, Cells, of_cells, lt→ltb, ltb-false,
  le→leb, ==-false, ◌||◌, some_of_ne, lt-or-le, inl, inr,
}
use peer.Prelude.Int.{ℤ, pos, ltb_ℤ, ℤ-cases}
use peer.Options.{Status, kit_ok}
use peer.Serial.{Bytes, read_message_size}
use peer.Kit
use peer.Kit.{Kit, Array}
use peer.Packet.{Packet, read_bytes, unpack_loop, unpack_packet, unpack_from, unpack}
use peer.Packet.Carries.{IsChunk, concat, Carries}

-- The size field of a message does not depend on what stands behind the message.
read_size-append : (ys : Bytes) → Cells 10 λ xs. read_message_size (xs ++ ys) ≡ read_message_size xs
unfolding read_message_size
read_size-append ys c0 c1 c2 c3 c4 c5 c6 c7 c8 c9 rest = refl

pub read_message_size-append :
    (xs ys : Bytes) → 10 ≤ length xs → read_message_size (xs ++ ys) ≡ read_message_size xs
read_message_size-append xs ys h =
    of_cells 10 (λ zs. read_message_size (zs ++ ys) ≡ read_message_size zs) (read_size-append ys) xs
      h

read_size_some : Cells 10 λ xs. (n : ℕ) × (read_message_size xs ≡ some n)
unfolding read_message_size
read_size_some c0 c1 c2 c3 c4 c5 c6 c7 c8 c9 rest = (_, refl)

pub read_message_size-some :
    (xs : Bytes) → 10 ≤ length xs → (n : ℕ) × (read_message_size xs ≡ some n)
read_message_size-some xs h =
    of_cells 10 (λ zs. (n : ℕ) × (read_message_size zs ≡ some n)) read_size_some xs h

pub read_bytes_first : (xs ys : Bytes) → read_bytes (length xs) (xs ++ ys) ≡ some xs
unfolding read_bytes
read_bytes_first xs ys = rw (
  le→leb (length xs) (length (xs ++ ys)) (omega (arith, length-append xs ys)),
  take-append_length xs ys (length xs) refl,
)

pub read_bytes-some : (n : ℕ) (bs : Bytes) → n ≤ length bs → read_bytes n bs ≡ some (take n bs)
unfolding read_bytes
read_bytes-some n bs h = rw (le→leb n (length bs) h)

-- One round of the loop that finds a chunk.
unpack_round :
    (kit : Kit) (fuel n offset : ℕ) (body c rest : Bytes) (status : Status) (out : List Bytes)
    → ((a : Array) (n : ℕ) → kit.fits a n ≡ true)
    → IsChunk c
    → drop offset body ≡ c ++ rest
    → offset + length c ≤ n
    → n ≤ 400
    → unpack_loop kit (suc fuel) (pos n) body offset status out
      ≡ unpack_loop kit fuel (pos n) body (offset + length c) status (out ++ c ∷ [])
unfolding unpack_loop
unpack_round kit fuel n offset body c rest status out room ok here fits small = rw (
  here,
  ltb-false (n + 0) (offset + 30 + 0) (omega (arith, ok.has_header)),
  read_message_size-append c rest (omega (arith, ok.has_header)),
  ok.size_field,
  ==-false (length c) 0 (omega (arith, ok.has_header)),
  ltb-false 400 (offset + length c) (omega arith),
  room Kit.chunks (length out + 1),
  room Kit.chunk (length c),
  read_bytes_first c rest,
)

module _ (kit : Kit) (room : (a : Array) (n : ℕ) → kit.fits a n ≡ true) where
  -- With memory to be had, the loop finds the chunks that stand from its offset on.
  unpack_loop_chunks :
      (fuel : ℕ) (body : Bytes) (cs : List Bytes) (spare : Bytes) (offset n : ℕ) (status : Status)
      (out : List Bytes)
      → All IsChunk cs
      → drop offset body ≡ concat cs ++ spare
      → n ≡ offset + length (concat cs)
      → n ≤ 400
      → length (concat cs) < fuel
      → unpack_loop kit fuel (pos n) body offset status out ≡ some (status, out ++ cs)
  unpack_loop_chunks zero body cs spare offset n status out ok here size small h =
      absurd (omega arith)
  unpack_loop_chunks (suc fuel) body [] spare offset n status out ok here size small h =
      unfold unpack_loop in rw (append-nil out, lt→ltb (n + 0) (offset + 30 + 0) (omega arith))
  unpack_loop_chunks (suc fuel) body (c ∷ cs) spare offset n status out (is_chunk, ok) here size
        small h =
      let total = length-append c (concat cs) in
      unpack_round kit fuel n offset body c (concat cs ++ spare) status out room is_chunk
        (here ∙ append_assoc c (concat cs) spare) (omega (arith, total)) small
      ∙ unpack_loop_chunks fuel body cs spare (offset + length c) n status (out ++ c ∷ []) ok
          (sym (drop-drop (length c) offset body) ∙ next) (omega (arith, total)) small
          (omega (arith, total, is_chunk.has_header))
      ∙ ap (λ o. some (status, o)) (append_assoc out (c ∷ []) cs)
    where
      next : drop (length c) (drop offset body) ≡ concat cs ++ spare
      next =
          rw (here, append_assoc c (concat cs) spare)
            (drop-append_length c (concat cs ++ spare) (length c) refl)

  -- A packet whose size is set to the end of its chunks gives them.
  pub unpack_packet-Carries :
      {s d : ℤ} {p : Packet} {cs : List Bytes} {n : ℕ} (status : Status) (out : List Bytes)
      → Carries s d p cs n
      → p.size ≡ pos n
      → unpack_packet kit p status out ≡ some (status, out ++ cs)
  unfolding unpack_packet
  unpack_packet-Carries {p = p} {cs = cs} {n = n} status out v size =
      rw
        (
          size,
          in_range,
          unpack_loop_chunks 400 p.body cs v.spare 15 n status out v.are_chunks
              (rw v.bytes (drop-append_length v.head (concat cs ++ v.spare) 15 (sym v.head_size)))
              (omega (arith, v.used)) (omega (arith, v.room)) (omega (arith, v.used, v.room)),
        )
        (ground (arith, v.used))
    where
      in_range : (ltb_ℤ (pos n) (pos 15) || ltb_ℤ (pos 400) (pos n)) ≡ false
      in_range = rw (
        ltb-false (n + 0) 15 (omega (arith, v.used)),
        ltb-false 400 (n + 0) (omega (arith, v.room)),
      )

module _ (kit : Kit) where
  -- The loop ends and stays inside the packet, whatever the packet holds.
  unpack_loop-ne-none :
      (fuel n : ℕ) (body : Bytes) (offset : ℕ) (status : Status) (out : List Bytes)
      → length body ≡ 400
      → n ≤ 400
      → offset ≤ 400
      → 400 < offset + fuel
      → unpack_loop kit fuel (pos n) body offset status out ≢ none
  unfolding unpack_loop
  unpack_loop-ne-none zero n body offset status out whole small inside h = absurd (omega arith)
  unpack_loop-ne-none (suc fuel) n body offset status out whole small inside h =
      elim (lt-or-le n (offset + 29)) [
        | inl before ↦ rw (lt→ltb (n + 0) (offset + 30 + 0) (omega arith)) (λ e. cc)
        | inr after ↦
            let (size, e) =
              read_message_size-some (drop offset body) (omega (arith, length-drop offset body)) in
            ground (
              arith,
              e,
              length-drop offset body,
              read_bytes-some size (drop offset body),
              unpack_loop-ne-none fuel n body (offset + size) status
                  (out ++ take size (drop offset body) ∷ []) whole small,
            )
      ]

  unpack_packet-ne-none :
      (p : Packet) (status : Status) (out : List Bytes)
      → length p.body ≡ 400
      → unpack_packet kit p status out ≢ none
  unfolding unpack_packet
  unpack_packet-ne-none p status out whole = elim (ℤ-cases p.size) [
    | inl (n, e) ↦ rw e (ground (arith, unpack_loop-ne-none 400 n p.body 15 status out whole))
    | inr (n, e) ↦ rw e (ground arith)
  ]

  unpack_from-ne-none :
      (ps : List Packet) (status : Status) (out : List Bytes)
      → All (λ p. length p.body ≡ 400) ps
      → unpack_from kit ps status out ≢ none
  unfolding unpack_from
  unpack_from-ne-none [] status out whole = λ e. cc
  unpack_from-ne-none (p ∷ ps) status out whole =
      let ((status', out'), e) =
        some_of_ne (unpack_packet kit p status out) (unpack_packet-ne-none p status out whole.0) in
      rw e (unpack_from-ne-none ps status' out' whole.1)

  -- peer_unpack returns for every array of packets of 400 bytes, whatever sizes and bytes they
  -- hold and whatever memory there is: it ends, and it never reads outside a packet.
  pub unpack_total :
      (packets : List Packet) (out : List Bytes)
      → All (λ p. length p.body ≡ 400) packets
      → (r : Status × List Bytes) × (unpack kit packets out ≡ some r)
  unfolding unpack
  unpack_total packets out whole =
      some_of_ne (unpack_from kit packets kit_ok out) (unpack_from-ne-none packets kit_ok out whole)
