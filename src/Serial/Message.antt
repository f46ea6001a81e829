-- ===== src/Serial/Message.antt =====
-- source/peer/serial.h: what peer_read_message_* find in a message that peer_write_message wrote.
use peer.Prelude.{
  ℕ, ◌+◌, ◌-◌, ◌*◌, ◌/◌, ◌%◌, ◌^◌, ◌≤◌, ◌<◌, ◌≡◌, refl, ap, ◌++◌, some, arith, ◌==◌, if◌then◌else◌,
  length, drop, take, take-append_length, drop-append_length,
}
use peer.Prelude.Int.{ℤ, pos, negsuc}
use peer.Prelude.Bits.{bit_and_low, bit_or_high}
use peer.Options.{undefined}
use peer.Serial.{
  Bytes, to_u32, to_u64, to_i64, read_message_checksum, read_message_size, read_message_data_size,
  read_message_mode, read_message_index, read_message_time, read_message_actor, write_message,
}
use peer.Serial.Numbers.{read_u32-le_bytes, read_u64-le_bytes}
use peer.Serial.Layout.{message, write_message_lem}

-- The values of `int64_t`.
abbrev pub IsInt64 : ℤ → Type 0
IsInt64 (pos n) = n < 2 ^ 63
IsInt64 (negsuc n) = n < 2 ^ 63

-- An actor: undefined, or a 32-bit number that does not stand for it.
abbrev pub IsActor : ℤ → Type 0
IsActor (pos n) = n < 2 ^ 32 - 1
IsActor (negsuc n) = n ≡ 0

to_u64-lt : (a : ℤ) → to_u64 a < 2 ^ 64
to_u64-lt (pos n) = omega arith
to_u64-lt (negsuc n) = omega arith

to_u32-lt : (a : ℤ) → to_u32 a < 2 ^ 32
to_u32-lt (pos n) = omega arith
to_u32-lt (negsuc n) = omega arith

pub to_i64-to_u64 : (a : ℤ) → IsInt64 a → to_i64 (to_u64 a) ≡ a
to_i64-to_u64 (pos n) h = ground arith
to_i64-to_u64 (negsuc n) h = ground arith

read_back : (a : ℤ) → IsActor a → (if to_u32 a == 2 ^ 32 - 1 then undefined else pos (to_u32 a)) ≡ a
read_back (pos n) h = ground arith
read_back (negsuc n) h = ground arith

-- A message of these fields starts the bytes `bs`.
pub record Holds (bs : Bytes) (mode : ℕ) (index time actor : ℤ) (n : ℕ) : Type 0 where
  pub checksum : read_message_checksum bs ≡ some 0
  pub size : read_message_size bs ≡ some (30 + n)
  pub data_size : read_message_data_size bs ≡ some (pos n)
  pub mode_is : read_message_mode bs ≡ some mode
  pub index_is : read_message_index bs ≡ some index
  pub time_is : read_message_time bs ≡ some time
  pub actor_is : read_message_actor bs ≡ some actor

module _ (mode : ℕ) (index time actor : ℤ) (payload rest : Bytes)
    (h : 30 + length payload < 1024) where
  pub size-message :
      read_message_size (message mode index time actor payload ++ rest) ≡ some (30 + length payload)
  unfolding read_message_size
  size-message = ap some (
      rw
        (
          bit_and_low 2 ((30 + length payload) / 256 + mode * 4),
          bit_or_high 8 ((30 + length payload) % 256)
              (((30 + length payload) / 256 + mode * 4) % 2 ^ 2) (omega arith),
        )
        (omega arith))

  pub message-Holds :
      IsInt64 index
      → IsInt64 time
      → IsActor actor
      → Holds (message mode index time actor payload ++ rest) mode index time actor (length payload)
  unfolding read_message_checksum read_message_mode read_message_index read_message_time
      read_message_actor read_message_data_size
  message-Holds hi ht ha = record {
    checksum = read_u64-le_bytes 0 _ (omega arith);
    size = size-message;
    data_size = rw size-message (ground arith);
    mode_is = ap some (omega arith);
    index_is =
        rw (read_u64-le_bytes (to_u64 index), to_u64-lt index) (ap some (to_i64-to_u64 index hi));
    time_is =
        rw (read_u64-le_bytes (to_u64 time), to_u64-lt time) (ap some (to_i64-to_u64 time ht));
    actor_is =
        rw (read_u32-le_bytes (to_u32 actor), to_u32-lt actor) (ap some (read_back actor ha));
  }

-- In a build without asserts, peer_write_message of a message of less than 1024 bytes, header
-- included, with a mode below 64, an index and a time of 64 bits with a sign, and an actor that is
-- PEER_UNDEFINED or from 0 to 2^32 - 2, succeeds in every buffer that the message fits, whatever the
-- buffer held. In what it leaves, the peer_read_message_* functions find the fields that were written, the data
-- stand behind the header, and the bytes past the message are those of the buffer.
pub write_message-read_message :
    (destination : Bytes) (mode : ℕ) (index time actor : ℤ) (payload : Bytes)
    → mode < 64
    → 30 + length payload < 1024
    → 30 + length payload ≤ length destination
    → IsInt64 index
    → IsInt64 time
    → IsActor actor
    → (out : Bytes) × (write_message destination mode index time actor payload ≡ some out)
      × Holds out mode index time actor (length payload)
      × (take (length payload) (drop 30 out) ≡ payload)
      × (drop (length payload) (drop 30 out) ≡ drop (length payload) (drop 30 destination))
write_message-read_message destination mode index time actor payload hm hs h hi ht ha =
    let rest = drop (length payload) (drop 30 destination) in
    (
      message mode index time actor payload ++ rest,
      write_message_lem destination mode index time actor payload hm hs h,
      message-Holds mode index time actor payload rest hs hi ht ha,
      take-append_length payload rest (length payload) refl,
      drop-append_length payload rest (length payload) refl,
    )
