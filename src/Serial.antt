-- ===== src/Serial.antt =====
-- source/peer/serial.h. A pointer into an array is the list of the bytes from it on, and `none` is
-- an access past the array's end.
pub mod Numbers
pub mod Layout
pub mod Message
mod Tests
use peer.Prelude.{
  ℕ, zero, suc, ◌+◌, ◌-◌, ◌*◌, ◌/◌, ◌%◌, ◌^◌, bit_and, bit_or, Bool, List, [], ◌∷◌, Option, none,
  some, ◌>>=◌, ltb, ◌==◌, if◌then◌else◌, length, get_elem?, drop,
}
use peer.Prelude.Int.{ℤ, pos, negsuc, sub_ℕ, ◌==ℤ◌}
use peer.Options.{undefined}
use peer.Options.MessageOffset

abbrev pub Bytes : Type 0
Bytes = List ℕ

-- Conversions to the unsigned types, and of a `uint64_t` to `int64_t`.
abbrev pub u8 : ℕ → ℕ
u8 x = x % 2 ^ 8

abbrev pub u16 : ℕ → ℕ
u16 x = x % 2 ^ 16

abbrev pub to_u32 : ℤ → ℕ
to_u32 (pos n) = n % 2 ^ 32
to_u32 (negsuc n) = 2 ^ 32 - 1 - n % 2 ^ 32

abbrev pub to_u64 : ℤ → ℕ
to_u64 (pos n) = n % 2 ^ 64
to_u64 (negsuc n) = 2 ^ 64 - 1 - n % 2 ^ 64

abbrev pub to_i64 : ℕ → ℤ
to_i64 w = if ltb w (2 ^ 63) then pos w else negsuc (2 ^ 64 - 1 - w)

-- A write through a pointer gives the array as it is afterwards. `at k` writes through `p + k`.
unfoldable pub at : ℕ → (Bytes → Option Bytes) → Bytes → Option Bytes
at zero w bs = w bs
at (suc k) w [] = none
at (suc k) w (b ∷ bs) = do bs' ← at k w bs; some (b ∷ bs')

-- `*p = f(*p)`
unfoldable pub modify : (ℕ → ℕ) → Bytes → Option Bytes
modify f [] = none
modify f (b ∷ bs) = some (f b ∷ bs)

unfoldable pub memcpy : Bytes → Bytes → Option Bytes
memcpy [] bs = some bs
memcpy (x ∷ xs) [] = none
memcpy (x ∷ xs) (b ∷ bs) = do bs' ← memcpy xs bs; some (x ∷ bs')

unfoldable pub store : ℕ → Bytes → Option Bytes
unfolding modify
store x = modify (λ _. x)

unfoldable pub read_u8 : Bytes → Option ℕ
read_u8 source = get_elem? source 0

unfoldable pub read_u16 : Bytes → Option ℕ
read_u16 source = do b0 ← get_elem? source 0; b1 ← get_elem? source 1; some (bit_or b0 (b1 * 2 ^ 8))

unfoldable pub read_u32 : Bytes → Option ℕ
read_u32 source = do
  b0 ← get_elem? source 0
  b1 ← get_elem? source 1
  b2 ← get_elem? source 2
  b3 ← get_elem? source 3
  some (bit_or (bit_or (bit_or b0 (b1 * 2 ^ 8)) (b2 * 2 ^ 16)) (b3 * 2 ^ 24))

unfoldable pub read_u64 : Bytes → Option ℕ
read_u64 source = do
  b0 ← get_elem? source 0
  b1 ← get_elem? source 1
  b2 ← get_elem? source 2
  b3 ← get_elem? source 3
  b4 ← get_elem? source 4
  b5 ← get_elem? source 5
  b6 ← get_elem? source 6
  b7 ← get_elem? source 7
  let low = bit_or (bit_or (bit_or b0 (b1 * 2 ^ 8)) (b2 * 2 ^ 16)) (b3 * 2 ^ 24)
  some (
      bit_or (bit_or (bit_or (bit_or low (b4 * 2 ^ 32)) (b5 * 2 ^ 40)) (b6 * 2 ^ 48)) (b7 * 2 ^ 56))

unfoldable pub write_u8 : ℕ → Bytes → Option Bytes
unfolding store
write_u8 x = store x

unfoldable pub write_u16 : ℕ → Bytes → Option Bytes
unfolding at store
write_u16 x destination = do
  d0 ← at 0 (store (u8 (bit_and x 0xff))) destination
  at 1 (store (u8 (x / 2 ^ 8))) d0

unfoldable pub write_u32 : ℕ → Bytes → Option Bytes
unfolding at store
write_u32 x destination = do
  d0 ← at 0 (store (u8 (bit_and x 0xff))) destination
  d1 ← at 1 (store (u8 (x / 2 ^ 8))) d0
  d2 ← at 2 (store (u8 (x / 2 ^ 16))) d1
  at 3 (store (u8 (x / 2 ^ 24))) d2

unfoldable pub write_u64 : ℕ → Bytes → Option Bytes
unfolding at store
write_u64 x destination = do
  d0 ← at 0 (store (u8 (bit_and x 0xff))) destination
  d1 ← at 1 (store (u8 (x / 2 ^ 8))) d0
  d2 ← at 2 (store (u8 (x / 2 ^ 16))) d1
  d3 ← at 3 (store (u8 (x / 2 ^ 24))) d2
  d4 ← at 4 (store (u8 (x / 2 ^ 32))) d3
  d5 ← at 5 (store (u8 (x / 2 ^ 40))) d4
  d6 ← at 6 (store (u8 (x / 2 ^ 48))) d5
  at 7 (store (u8 (x / 2 ^ 56))) d6

unfoldable pub read_message_checksum : Bytes → Option ℕ
read_message_checksum message = read_u64 (drop MessageOffset.checksum message)

unfoldable pub read_message_size : Bytes → Option ℕ
read_message_size message = do
  low ← get_elem? message MessageOffset.size
  high ← get_elem? message MessageOffset.size_and_mode
  some (bit_or low (bit_and high 0x3 * 2 ^ 8))

-- Negative where the size field is below the size of a message's header.
unfoldable pub read_message_data_size : Bytes → Option ℤ
read_message_data_size message = do
  full_size ← read_message_size message
  some (sub_ℕ full_size MessageOffset.message_data)

unfoldable pub read_message_mode : Bytes → Option ℕ
read_message_mode message = do b ← get_elem? message MessageOffset.size_and_mode; some (b / 2 ^ 2)

unfoldable pub read_message_index : Bytes → Option ℤ
read_message_index message = do w ← read_u64 (drop MessageOffset.index message); some (to_i64 w)

unfoldable pub read_message_time : Bytes → Option ℤ
read_message_time message = do w ← read_u64 (drop MessageOffset.time message); some (to_i64 w)

unfoldable pub read_message_actor : Bytes → Option ℤ
read_message_actor message = do
  actor ← read_u32 (drop MessageOffset.actor message)
  some (if actor == 2 ^ 32 - 1 then undefined else pos actor)

unfoldable pub write_message_size : ℕ → Bytes → Option Bytes
unfolding at store modify
write_message_size size message = do
  d0 ← at MessageOffset.size (store (u8 (bit_and size 0xff))) message
  d1 ← at MessageOffset.size_and_mode (modify (λ b. bit_and b 0xfc)) d0
  at MessageOffset.size_and_mode (modify (λ b. bit_or b (u8 (bit_and (size / 2 ^ 8) 0x3)))) d1

unfoldable pub write_message_mode : ℕ → Bytes → Option Bytes
unfolding at modify
write_message_mode mode message = do
  d0 ← at MessageOffset.size_and_mode (modify (λ b. bit_and b 0x3)) message
  at MessageOffset.size_and_mode (modify (λ b. u8 (bit_or b (mode * 2 ^ 2)))) d0

-- `payload` is the `data_size` bytes at `data`.
unfoldable pub write_message : Bytes → ℕ → ℤ → ℤ → ℤ → Bytes → Option Bytes
unfolding at
write_message destination mode index time actor payload = do
  let full_size = u16 (MessageOffset.message_data + length payload)
  d0 ← at MessageOffset.checksum (write_u64 0) destination
  d1 ← write_message_size full_size d0
  d2 ← write_message_mode mode d1
  d3 ← at MessageOffset.index (write_u64 (to_u64 index)) d2
  d4 ← at MessageOffset.time (write_u64 (to_u64 time)) d3
  d5 ←
      at MessageOffset.actor (write_u32 (if actor ==ℤ undefined then 2 ^ 32 - 1 else to_u32 actor))
        d4
  if ltb 0 (length payload) then at MessageOffset.message_data (memcpy payload) d5 else some d5
