-- ===== src/Cipher.antt =====
-- source/peer/cipher.h and cipher.c: the cipher of packets, of which only the key is there yet. The
-- pointers of these functions are tested, so a pointer is an Option, `none` for NULL.
use peer.Prelude.{List, [], Option, none, some, ◌>>=◌, replicate}
use peer.Prelude.Int.{ℤ, pos}
use peer.Options.{Status, mt64_key_size}
use peer.Options.Error
use peer.Serial.{Bytes, memcpy}
use peer.Packet.{Packet, read_bytes}

-- `peer_cipher_t`
pub record Cipher : Type 0 where
  pub key : Bytes
  pub index : ℤ

-- `peer_cipher_result_t`
pub record CipherResult : Type 0 where
  pub status : Status
  pub packets : List Packet

abbrev cleared_cipher : Cipher
cleared_cipher = record { key = replicate mt64_key_size 0; index = pos 0 }

-- The status, and the cipher after.
unfoldable cipher_init : Option Cipher → Option Bytes → Option (Status × Option Cipher)
cipher_init none key = some (Error.invalid_cipher, none)
cipher_init (some cipher) none = some (Error.invalid_key, some cleared_cipher)
cipher_init (some cipher) (some key) = do
  bytes ← read_bytes mt64_key_size key
  copied ← memcpy bytes cleared_cipher.key
  some (Error.not_implemented, some (record cleared_cipher { key = copied }))

unfoldable encrypt : Option Cipher → List Packet → CipherResult
encrypt none packets = record { status = Error.invalid_cipher; packets = [] }
encrypt (some cipher) packets = record { status = Error.not_implemented; packets = [] }

unfoldable decrypt : Option Cipher → List Packet → CipherResult
decrypt none packets = record { status = Error.invalid_cipher; packets = [] }
decrypt (some cipher) packets = record { status = Error.not_implemented; packets = [] }
