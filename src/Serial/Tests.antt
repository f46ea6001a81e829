-- ===== src/Serial/Tests.antt =====
-- Serialization at concrete values.
use peer.Prelude.{◌≡◌, refl, [], ◌∷◌, ◌++◌, none, some, arith, replicate, take, drop}
use peer.Prelude.Int.{pos, negsuc}
use peer.Options.{undefined}
use peer.Serial.{
  Bytes, memcpy, read_u16, read_u32, write_u32, write_u64, write_message_size, write_message_mode,
  write_message,
}
use peer.Serial.Message.{Holds, write_message-read_message}

-- A buffer with old contents, longer than the message by one byte.
abbrev dirty : Bytes
dirty = replicate 34 0xff

abbrev payload : Bytes
payload = 7 ∷ 8 ∷ 9 ∷ []

read_u32_bytes : read_u32 (0x78 ∷ 0x56 ∷ 0x34 ∷ 0x12 ∷ []) ≡ some 0x12345678
unfolding read_u32
read_u32_bytes = refl

read_u16_short : read_u16 (1 ∷ []) ≡ none
unfolding read_u16
read_u16_short = refl

write_message_bytes :
    write_message dirty 1 (pos 258) (pos 5) undefined payload
    ≡ some (
        replicate 8 0
        ++ (33 ∷ 4 ∷ 2 ∷ 1 ∷ [])
        ++ replicate 6 0
        ++ (5 ∷ replicate 7 0)
        ++ replicate 4 255
        ++ (7 ∷ 8 ∷ 9 ∷ 255 ∷ []))
unfolding write_message write_message_size write_message_mode write_u64 write_u32 memcpy
write_message_bytes = refl

write_message-read_message_example :
    (out : Bytes) × (write_message dirty 1 (pos 258) (negsuc 4) (pos 3) payload ≡ some out)
    × Holds out 1 (pos 258) (negsuc 4) (pos 3) 3
    × (take 3 (drop 30 out) ≡ payload)
    × (drop 3 (drop 30 out) ≡ 255 ∷ [])
write_message-read_message_example =
    write_message-read_message dirty 1 (pos 258) (negsuc 4) (pos 3) payload (omega arith)
      (omega arith) (omega arith) (omega arith) (omega arith) (omega arith)
