-- ===== src/Packet/Tests.antt =====
-- Packing and unpacking at concrete chunks.
use peer.Prelude.{
  All-replicate, ℕ, ◌≡◌, refl, true, List, [], ◌∷◌, ◌++◌, some, arith, All, replicate,
}
use peer.Prelude.Int.{pos}
use peer.Options.{Status, kit_ok}
use peer.Serial.{Bytes, read_message_size}
use peer.Kit.{Kit}
use peer.Packet.{Packet, blank, pack, unpack}
use peer.Packet.Carries.{Carries, IsChunk}
use peer.Packet.Unpack.{unpack_total}
use peer.Packet.Pack.{AllSealed, pack-AllSealed}
use peer.Packet.Fill.{pack-one_packet}
use peer.Packet.Roundtrip.{unpack-pack, pack-nil_clears}

-- Memory that is never short, and that holds 0xcc where nothing has been written.
abbrev ample : Kit
ample = record { fits = λ a n. true; byte = λ i. 0xcc; word = pos 7 }

-- Chunks of 31, 32 and 380 bytes: the last needs a packet of its own.
abbrev chunk_of : ℕ → ℕ → Bytes
chunk_of size last = replicate 8 0 ++ (size ∷ 0 ∷ []) ++ replicate 20 1 ++ (last ∷ [])

abbrev first : Bytes
first = chunk_of 31 5

abbrev second : Bytes
second = chunk_of 31 6

abbrev long : Bytes
long = replicate 8 0 ++ (124 ∷ 1 ∷ []) ++ replicate 370 2

abbrev three : List Bytes
three = first ∷ second ∷ long ∷ []

three-IsChunk : All IsChunk three
unfolding read_message_size
three-IsChunk = (
  record { size_field = refl; has_header = omega arith; small = omega arith },
  (
    record { size_field = refl; has_header = omega arith; small = omega arith },
    (record { size_field = refl; has_header = omega arith; small = omega arith }, tt),
  ),
)

unpack-pack_example :
    (packets : List Packet) × (pack ample (pos 3) (pos 4) three [] ≡ some (kit_ok, packets))
    × (unpack ample packets (first ∷ []) ≡ some (kit_ok, first ∷ three))
unpack-pack_example =
    unpack-pack ample (pos 3) (pos 4) (λ a n. refl) three (first ∷ []) three-IsChunk

-- A packet that the second call of peer_pack finds in the array.
abbrev old : Packet
old = record { source_id = pos 9; destination_id = pos 4; size = pos 15; body = replicate 400 1 }

pack-AllSealed_example :
    (added : List Packet) × (pack ample (pos 3) (pos 4) three (old ∷ [])
      ≡ some (kit_ok, old ∷ added))
    × AllSealed (pos 3) (pos 4) added three
pack-AllSealed_example =
    pack-AllSealed ample (pos 3) (pos 4) (λ a n. refl) first (second ∷ long ∷ []) (old ∷ [])
      three-IsChunk

first-IsChunk : IsChunk first
unfolding read_message_size
first-IsChunk = record { size_field = refl; has_header = omega arith; small = omega arith }

-- Twelve messages of 31 bytes, which fill a packet up to its byte 387.
pack-one_packet_example :
    (q : Packet) × (pack ample (pos 3) (pos 4) (first ∷ replicate 11 first) []
      ≡ some (kit_ok, q ∷ []))
    × Carries (pos 3) (pos 4) q (first ∷ replicate 11 first) 387
    × (q.size ≡ pos 387)
pack-one_packet_example =
    pack-one_packet ample (pos 3) (pos 4) (λ a n. refl) first (replicate 11 first) []
      (first-IsChunk, All-replicate IsChunk 11 first first-IsChunk) (omega arith)

pack-nil_clears_example :
    (q : Packet) × (pack ample (pos 3) (pos 4) [] (old ∷ [])
      ≡ some (kit_ok, blank ample (pos 3) (pos 4) ∷ q ∷ []))
    × (q.size ≡ pos 0)
    × (q.source_id ≡ pos 7)
    × (q.destination_id ≡ pos 7)
pack-nil_clears_example = pack-nil_clears ample (pos 3) (pos 4) old [] refl

-- The bytes of this packet say that a message of 257 bytes follows, and then one of 65535.
abbrev hostile : Packet
hostile = record {
  source_id = pos 3;
  destination_id = pos 4;
  size = pos 400;
  body = replicate 23 0 ++ (1 ∷ 1 ∷ []) ++ replicate 375 0xff;
}

unpack_total_example : (r : Status × List Bytes) × (unpack ample (hostile ∷ old ∷ []) [] ≡ some r)
unpack_total_example = unpack_total ample (hostile ∷ old ∷ []) [] (refl, (refl, tt))
