-- ===== src/Packet/Carries.antt =====
-- source/peer/packet.c: the bytes of a packet that carries chunks, and what writing to it does.
use peer.Prelude.{
  ℕ, ◌+◌, ◌≤◌, ◌≡◌, refl, sym, ap, subst, ◌∙◌, List, [], ◌∷◌, ◌++◌, append_assoc, append-nil,
  Option, none, some, ◌>>=◌, bind-map, bind-eq_some, arith, length, length-append, take, drop, All,
  All-append, Cells, of_cells, take-append-drop, length-take, length-drop,
}
use peer.Prelude.Int.{ℤ, pos}
use peer.Serial.{Bytes, u16, at, memcpy, read_message_size, write_u8, write_u16}
use peer.Serial.Numbers.{le_bytes, write_u16_lem}
use peer.Serial.Layout.{memcpy_lem}
use peer.Packet.{Packet, on_last, write_header, copy_chunk}

-- A chunk that peer_pack takes: its size field is its size, it has a whole header, and it is no
-- longer than a packet's room for messages.
pub record IsChunk (c : Bytes) : Type 0 where
  pub size_field : read_message_size c ≡ some (length c)
  pub has_header : 30 ≤ length c
  pub small : length c ≤ 385

abbrev pub concat : List Bytes → Bytes
concat [] = []
concat (c ∷ cs) = c ++ concat cs

pub concat-append : (xs ys : List Bytes) → concat (xs ++ ys) ≡ concat xs ++ concat ys
concat-append [] ys = refl
concat-append (x ∷ xs) ys =
    ap (◌++◌ x) (concat-append xs ys) ∙ sym (append_assoc x (concat xs) (concat ys))

-- A packet from `s` to `d` has the chunks `cs` behind its header, up to the byte `offset`.
pub record Carries (s d : ℤ) (p : Packet) (cs : List Bytes) (offset : ℕ) : Type 0 where
  pub from : p.source_id ≡ s
  pub to : p.destination_id ≡ d
  pub head : Bytes
  pub spare : Bytes
  pub bytes : p.body ≡ head ++ (concat cs ++ spare)
  pub head_size : length head ≡ 15
  pub used : 15 + length (concat cs) ≡ offset
  pub room : offset + length spare ≡ 400
  pub are_chunks : All IsChunk cs

bind-some {ℓ} : {A : Type ℓ} (m : Option A) → m ≡ (m >>= some)
bind-some (some a) = refl
bind-some none = refl

-- A write behind the first part of an array.
pub at-append :
    (w : Bytes → Option Bytes) (xs ys : Bytes)
    → at (length xs) w (xs ++ ys) ≡ (w ys >>= λ zs. some (xs ++ zs))
unfolding at
at-append w [] ys = bind-some (w ys)
at-append w (x ∷ xs) ys = rw (at-append w xs ys) (bind-map (w ys) (◌++◌ xs) (◌∷◌ x))

pub on_last-append :
    (f : Packet → Option Packet) (ps : List Packet) (p : Packet)
    → on_last f (ps ++ p ∷ []) ≡ (f p >>= λ q. some (ps ++ q ∷ []))
unfolding on_last
on_last-append f [] p = refl
on_last-append f (q ∷ []) p = bind-map (f p) (λ p'. p' ∷ []) (◌∷◌ q)
on_last-append f (q ∷ r ∷ ps) p =
    rw (on_last-append f (r ∷ ps) p) (bind-map (f p) (λ p'. r ∷ (ps ++ p' ∷ [])) (◌∷◌ q))

-- The mode and the size are written inside the header.
abbrev StaysInside : ℕ → Bytes → Type 0
StaysInside n xs =
    length xs ≡ 15
    → (ys : Bytes)
    → (zs : Bytes) × ((at 12 (write_u8 0) (xs ++ ys) >>= λ d. at 13 (write_u16 n) d)
        ≡ some (zs ++ ys))
      × (length zs ≡ 15)

header_bytes : (n : ℕ) → Cells 15 (StaysInside n)
unfolding at write_u8
header_bytes n c0 c1 c2 c3 c4 c5 c6 c7 c8 c9 c10 c11 c12 c13 c14 rest e ys = (
  c0 ∷ c1 ∷ c2 ∷ c3 ∷ c4 ∷ c5 ∷ c6 ∷ c7 ∷ c8 ∷ c9 ∷ c10 ∷ c11 ∷ 0 ∷ le_bytes 2 n ++ rest,
  rw (write_u16_lem n c13 c14 (rest ++ ys)),
  omega arith,
)

-- A header can be written into every packet of 400 bytes, and sets its size.
pub write_header-some :
    (offset : ℕ) (p : Packet)
    → length p.body ≡ 400
    → (q : Packet) × (write_header offset p ≡ some q)
      × (q.size ≡ pos offset)
      × (q.source_id ≡ p.source_id)
      × (q.destination_id ≡ p.destination_id)
unfolding write_header
write_header-some offset p whole =
    let xs = take 15 p.body in
    let n : length xs ≡ 15 = omega (arith, length-take 15 p.body) in
    let (zs, e, m) =
      of_cells 15 (StaysInside (u16 offset)) (header_bytes (u16 offset)) xs (omega (arith, n)) n
        (drop 15 p.body) in
    (
      record p { size = pos offset; body = zs ++ drop 15 p.body },
      bind-eq_some (at 12 (write_u8 0) p.body) (at 13 (write_u16 (u16 offset)))
          (λ b. some (record p { size = pos offset; body = b }))
          (subst
            (λ b.
              (at 12 (write_u8 0) b >>= at 13 (write_u16 (u16 offset)))
              ≡ some (zs ++ drop 15 p.body))
            (take-append-drop 15 p.body) e),
      refl,
      refl,
      refl,
    )

module _ {s d : ℤ} {p : Packet} {cs : List Bytes} {offset : ℕ} (v : Carries s d p cs offset) where
  grown : (c : Bytes) → concat (cs ++ c ∷ []) ≡ concat cs ++ c
  grown c = concat-append cs (c ∷ []) ∙ ap (◌++◌ (concat cs)) (append-nil c)

  -- A chunk that fits goes behind the others.
  pub copy_chunk-Carries :
      (c : Bytes)
      → IsChunk c
      → offset + length c ≤ 400
      → (q : Packet) × (copy_chunk offset c p ≡ some q)
        × Carries s d q (cs ++ c ∷ []) (offset + length c)
  unfolding copy_chunk
  copy_chunk-Carries c ok fits = (
    record p { body = v.head ++ (concat (cs ++ c ∷ []) ++ drop (length c) v.spare) },
    rw
        (
          v.bytes,
          ← append_assoc v.head (concat cs) v.spare,
          offset_is,
          at-append (memcpy c) (v.head ++ concat cs) v.spare,
          memcpy_lem c v.spare (omega (arith, v.room)),
        )
        (simp (grown c, append_assoc)),
    record {
      from = v.from;
      to = v.to;
      head = v.head;
      spare = drop (length c) v.spare;
      bytes = refl;
      head_size = v.head_size;
      used = omega (arith, ap length (grown c), length-append (concat cs) c, v.used);
      room = omega (arith, length-drop (length c) v.spare, v.room);
      are_chunks = All-append IsChunk cs (c ∷ []) v.are_chunks (ok, tt);
    },
  )
    where
      offset_is : offset ≡ length (v.head ++ concat cs)
      offset_is = omega (arith, length-append v.head (concat cs), v.used, v.head_size)

  -- Writing the header leaves the chunks, and sets the size to the bytes in use.
  pub write_header-Carries :
      (q : Packet) × (write_header offset p ≡ some q)
      × Carries s d q cs offset
      × (q.size ≡ pos offset)
  unfolding write_header
  write_header-Carries =
      let (zs, e, n) =
        of_cells 15 (StaysInside (u16 offset)) (header_bytes (u16 offset)) v.head
          (omega (arith, v.head_size)) v.head_size (concat cs ++ v.spare) in
      (
        record p { size = pos offset; body = zs ++ (concat cs ++ v.spare) },
        rw v.bytes (bind-eq_some (at 12 (write_u8 0) (v.head ++ (concat cs ++ v.spare))) _ _ e),
        record {
          from = v.from;
          to = v.to;
          head = zs;
          spare = v.spare;
          bytes = refl;
          head_size = n;
          used = v.used;
          room = v.room;
          are_chunks = v.are_chunks;
        },
        refl,
      )
