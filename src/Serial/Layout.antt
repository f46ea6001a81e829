-- ===== src/Serial/Layout.antt =====
-- source/peer/serial.h: the bytes that peer_write_message leaves in a buffer.
use peer.Prelude.{
  none, ℕ, ◌+◌, ◌-◌, ◌*◌, ◌/◌, ◌%◌, ◌^◌, ◌≤◌, ◌<◌, bit_and, bit_or, ◌≡◌, refl, [], ◌∷◌, ◌++◌, some,
  arith, ltb, lt→ltb, if◌then◌else◌, length, drop, of_cells, Cells,
}
use peer.Prelude.Int.{ℤ, pos, negsuc, ◌==ℤ◌}
use peer.Prelude.Bits.{bit_and_low, bit_and_step, bit_or_step, bit_or_high}
use peer.Serial.{
  Bytes, u8, u16, to_u32, to_u64, memcpy, write_message_size, write_message_mode, write_message,
}
use peer.Options.{undefined}
use peer.Serial.Numbers.{le_bytes, low_byte, write_u32_lem, write_u64_lem}

-- The header of a message with `n` bytes of data, and the message.
abbrev pub header : ℕ → ℤ → ℤ → ℤ → ℕ → Bytes
header mode index time actor n =
    le_bytes 8 0
    ++ ((30 + n) % 256 ∷ ((30 + n) / 256 + mode * 4) ∷ [])
    ++ le_bytes 8 (to_u64 index)
    ++ le_bytes 8 (to_u64 time)
    ++ le_bytes 4 (to_u32 actor)

abbrev pub message : ℕ → ℤ → ℤ → ℤ → Bytes → Bytes
message mode index time actor payload = header mode index time actor (length payload) ++ payload

pub memcpy_lem :
    (xs bs : Bytes) → length xs ≤ length bs → memcpy xs bs ≡ some (xs ++ drop (length xs) bs)
unfolding memcpy
memcpy_lem [] bs h = refl
memcpy_lem (x ∷ xs) [] h = absurd (omega arith)
memcpy_lem (x ∷ xs) (b ∷ bs) h = rw (memcpy_lem xs bs (omega arith))

pub memcpy-none : (xs bs : Bytes) → length bs < length xs → memcpy xs bs ≡ none
unfolding memcpy
memcpy-none [] bs h = absurd (omega arith)
memcpy-none (x ∷ xs) [] h = refl
memcpy-none (x ∷ xs) (b ∷ bs) h = rw (memcpy-none xs bs (omega arith))

mask_fc : (x : ℕ) → bit_and x 0xfc ≡ x / 4 % 64 * 4
mask_fc x = omega (arith, bit_and_step x 0xfc, bit_and_step (x / 2) 0x7e, bit_and_low 6 (x / 2 / 2))

mask_3 : (x : ℕ) → bit_and x 0x3 ≡ x % 4
mask_3 x = bit_and_low 2 x

-- Whatever the byte held, the size and the mode replace all of it.
size_bits : (c s : ℕ) → s < 4 → bit_and (bit_or (bit_and c 0xfc) s) 0x3 ≡ s
size_bits c s h =
    let x = bit_and c 0xfc in
    omega (arith, mask_3 (bit_or x s), mask_fc c, bit_or_step x s, bit_or_step (x / 2) (s / 2))

size_byte :
    (c size mode : ℕ)
    → size < 1024
    → mode < 64
    → u8 (
        bit_or
          (bit_and (bit_or (bit_and c 0xfc) (u8 (bit_and (size / 2 ^ 8) 0x3))) 0x3)
          (mode * 2 ^ 2))
      ≡ size / 256 + mode * 4
size_byte c size mode hs hm =
    let e : u8 (bit_and (size / 2 ^ 8) 0x3) ≡ size / 256 = omega (arith, mask_3 (size / 2 ^ 8)) in
    rw (e, size_bits c (size / 256) (omega arith), bit_or_high 2 (size / 256) mode (omega arith))
      (omega arith)

to_u32-undefined :
    (actor : ℤ) → (if actor ==ℤ undefined then 2 ^ 32 - 1 else to_u32 actor) ≡ to_u32 actor
to_u32-undefined (pos n) = ground arith
to_u32-undefined (negsuc n) = ground arith

-- The test before the copy changes nothing: no bytes are copied where there are none.
copy_if :
    (f : Bytes → Bytes) (xs bs : Bytes)
    → (if ltb 0 (length xs) then some (f (xs ++ drop (length xs) bs)) else some (f bs))
      ≡ some (f (xs ++ drop (length xs) bs))
copy_if f [] bs = refl
copy_if f (x ∷ xs) bs = rw (lt→ltb 0 (length (x ∷ xs)) (omega arith))

header_cells :
    (mode : ℕ) (index time actor : ℤ) (payload : Bytes)
    → mode < 64
    → 30 + length payload < 1024
    → Cells 30 λ d.
      30 + length payload ≤ length d
      → write_message d mode index time actor payload
        ≡ some (message mode index time actor payload ++ drop (length payload) (drop 30 d))
unfolding write_message write_message_size write_message_mode
header_cells mode index time actor payload hm hs c0 c1 c2 c3 c4 c5 c6 c7 c8 c9 c10 c11 c12 c13 c14
      c15 c16 c17 c18 c19 c20 c21 c22 c23 c24 c25 c26 c27 c28 c29 rest h =
    rw
      (
        write_u64_lem 0,
        low_byte (u16 (30 + length payload)),
        size_byte c9 (u16 (30 + length payload)) mode (omega arith) hm,
        write_u64_lem (to_u64 index),
        write_u64_lem (to_u64 time),
        to_u32-undefined actor,
        write_u32_lem (to_u32 actor),
        full_size,
        memcpy_lem payload rest (omega arith),
      )
      (copy_if (λ ys. header mode index time actor (length payload) ++ ys) payload rest)
  where
    full_size : u16 (30 + length payload) ≡ 30 + length payload
    full_size = omega arith

-- `&` and `|` on the bytes of the header, each written once.
pub write_message_lem :
    (destination : Bytes) (mode : ℕ) (index time actor : ℤ) (payload : Bytes)
    → mode < 64
    → 30 + length payload < 1024
    → 30 + length payload ≤ length destination
    → write_message destination mode index time actor payload
      ≡ some (message mode index time actor payload ++ drop (length payload) (drop 30 destination))
write_message_lem destination mode index time actor payload hm hs h =
    of_cells 30 Wanted cells destination (omega arith) h
  where
    Wanted : Bytes → Type 0
    Wanted d =
        30 + length payload ≤ length d
        → write_message d mode index time actor payload
          ≡ some (message mode index time actor payload ++ drop (length payload) (drop 30 d))

    cells : Cells 30 Wanted
    cells c0 c1 c2 c3 c4 c5 c6 c7 c8 c9 c10 c11 c12 c13 c14 c15 c16 c17 c18 c19 c20 c21 c22 c23 c24
          c25 c26 c27 c28 c29 rest =
        header_cells mode index time actor payload hm hs c0 c1 c2 c3 c4 c5 c6 c7 c8 c9 c10 c11 c12
          c13 c14 c15 c16 c17 c18 c19 c20 c21 c22 c23 c24 c25 c26 c27 c28 c29 rest
