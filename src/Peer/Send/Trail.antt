-- ===== src/Peer/Send/Trail.antt =====
-- source/peer/peer.c, chunks_append_trail: the chunks that are made of a queue's messages.
use peer.Prelude.{
  drop-get_elem?, ℕ, zero, suc, ◌+◌, ◌-◌, ◌%◌, ◌≤◌, ◌<◌, min, ◌≡◌, refl, subst, true, false, List,
  [], ◌∷◌, ◌++◌, append-nil, some, arith, Bool-cases, inl, inr, ◌==◌, length, length-drop,
  length-tabulate, get_elem?, get_elem?-some, take, drop, All, All-get_elem?,
}
use native.Mathlib.Nat.{mod-lt}
use peer.Prelude.Int.{ℤ, pos}
use peer.Options.{kit_ok}
use peer.Options.MessageMode
use peer.Serial.{Bytes, read_message_size}
use peer.Serial.Layout.{message, write_message_lem}
use peer.Serial.Message.{size-message}
use peer.Kit
use peer.Kit.{Kit, Array, new_bytes}
use peer.Packet.Carries.{IsChunk}
use peer.Queue.{Message, Queue}
use peer.Peer.Send.{scatter_distance, message_chunk, message_chunks, scatter_chunks, append_scatter}

-- A message that fits a packet.
abbrev pub IsSmall : Message → Type 0
IsSmall m = length m.payload ≤ 355

-- The bytes of the message with the index `i`.
abbrev pub chunk_at : ℕ → Message → Bytes
chunk_at i m = message MessageMode.application (pos i) m.time m.actor m.payload

-- A message whose size can be told in its header.
abbrev pub IsSized : Message → Type 0
IsSized m = length m.payload ≤ 993

pub all-IsSized : (q : Queue) → All IsSmall q → All IsSized q
all-IsSized [] h = tt
all-IsSized (m ∷ q) (small, h) = (omega arith, all-IsSized q h)

abbrev pub chunks_from : ℕ → List Message → List Bytes
chunks_from i [] = []
chunks_from i (m ∷ ms) = chunk_at i m ∷ chunks_from (i + 1) ms

-- The bytes of a message of the queue below an index.
abbrev pub IsOlder : Queue → ℕ → Bytes → Type 0
IsOlder q k c = (j : ℕ) × (m : Message) × (j < k) × (get_elem? q j ≡ some m) × (c ≡ chunk_at j m)

-- A message of any mode that fits a packet is a chunk.
pub message-IsChunk :
    (mode : ℕ) (index time actor : ℤ) (payload : Bytes)
    → length payload ≤ 355
    → IsChunk (message mode index time actor payload)
message-IsChunk mode index time actor payload small =
    let c = message mode index time actor payload in
    let size : length c ≡ 30 + length payload = omega arith in
    record {
      size_field = rw size (
          subst (λ x. read_message_size x ≡ some (30 + length payload)) (append-nil c)
            (size-message mode index time actor payload [] (omega arith)));
      has_header = omega arith;
      small = omega arith;
    }

pub chunk_at-IsChunk : (i : ℕ) (m : Message) → IsSmall m → IsChunk (chunk_at i m)
chunk_at-IsChunk i m small =
    message-IsChunk MessageMode.application (pos i) m.time m.actor m.payload small

pub past_end : (n : ℕ) (bs : Bytes) → length bs ≤ n → drop n bs ≡ []
past_end zero [] h = refl
past_end zero (b ∷ bs) h = absurd (omega arith)
past_end (suc n) [] h = refl
past_end (suc n) (b ∷ bs) h = past_end n bs (omega arith)

module _ (kit : Kit) where
  pub message_chunk_lem :
      (i : ℕ) (m : Message) → IsSized m → message_chunk kit i m ≡ some (chunk_at i m)
  unfolding message_chunk
  message_chunk_lem i m sized =
      let n = length m.payload in
      let new = new_bytes kit (30 + n) in
      let size : length new ≡ 30 + n = length-tabulate kit.byte 0 (30 + n) in
      rw (
        write_message_lem new MessageMode.application (pos i) m.time m.actor m.payload (omega arith)
            (omega arith) (omega (arith, size)),
        past_end n (drop 30 new) (omega (arith, length-drop 30 new, size)),
        append-nil (chunk_at i m),
      )

  module _ (room : (a : Array) (n : ℕ) → kit.fits a n ≡ true) (q : Queue)
      (sized : All IsSized q) where
    pub message_chunks_lem :
        (n i : ℕ)
        → i + n ≤ length q
        → message_chunks kit q n i ≡ some (some (chunks_from i (take n (drop i q))))
    unfolding message_chunks
    message_chunks_lem zero i le = refl
    message_chunks_lem (suc n) i le =
        let (m, e) = get_elem?-some q i (omega arith) in
        rw (
          e,
          drop-get_elem? q i m e,
          room Kit.chunk (30 + length m.payload),
          message_chunk_lem i m (All-get_elem? IsSized q i m sized e),
          message_chunks_lem n (i + 1) (omega arith),
        )

scatter_distance-le : (index : ℕ) → scatter_distance index ≤ index
unfolding scatter_distance
scatter_distance-le index = omega arith

module _ {R : Type 0} (kit : Kit) (generate : R → ℕ × R)
    (room : (a : Array) (n : ℕ) → kit.fits a n ≡ true) (q : Queue) (small : All IsSmall q) where
  scatter_chunks_lem :
      (begin distance n : ℕ) (rng : R)
      → 0 < distance
      → begin + distance ≤ length q
      → (cs : List Bytes) × (rng' : R) × (scatter_chunks kit generate q begin distance n rng
          ≡ some (some cs, rng'))
        × All (IsOlder q (begin + distance)) cs
  unfolding scatter_chunks
  scatter_chunks_lem begin distance zero rng positive le = ([], rng, refl, tt)
  scatter_chunks_lem begin distance (suc n) rng positive le =
      let (value, next) = generate rng in
      let i = begin + value % distance in
      let (m, e) = get_elem?-some q i (in_range value) in
      let (cs, rng', r, all) = scatter_chunks_lem begin distance n next positive le in
      (
        chunk_at i m ∷ cs,
        rng',
        rw (
          e,
          room Kit.chunk (30 + length m.payload),
          message_chunk_lem kit i m (All-get_elem? IsSized q i m (all-IsSized q small) e),
          r,
        ),
        ((i, m, below value, e, refl), all),
      )
    where
      below : (value : ℕ) → begin + value % distance < begin + distance
      below value = omega (arith, mod-lt value positive)

      in_range : (value : ℕ) → begin + value % distance < length q
      in_range value = omega (arith, below value, le)

  pub append_scatter_lem :
      (index : ℕ) (chunks : List Bytes) (rng : R)
      → index ≤ length q
      → (cs : List Bytes) × (rng' : R) × (append_scatter kit generate q index chunks rng
          ≡ some (kit_ok, chunks ++ cs, rng'))
        × All (IsOlder q index) cs
  unfolding append_scatter
  append_scatter_lem index chunks rng le =
      let distance = scatter_distance index in
      let size = min 5 distance in
      elim (Bool-cases (size == 0)) [
        | inl nothing ↦ ([], rng, rw (nothing, append-nil chunks), tt)
        | inr something ↦
            let (cs, rng', e, all) =
              scatter_chunks_lem (index - distance) distance size rng (positive something)
                (omega (arith, within, le)) in
            (
              cs,
              rng',
              rw (something, room Kit.chunks (length chunks + size), e),
              subst (λ k. All (IsOlder q k) cs) back all,
            )
      ]
    where
      within : scatter_distance index ≤ index
      within = scatter_distance-le index

      back : index - scatter_distance index + scatter_distance index ≡ index
      back = omega (arith, within)

      positive : (min 5 (scatter_distance index) == 0) ≡ false → 0 < scatter_distance index
      positive e = ground arith
