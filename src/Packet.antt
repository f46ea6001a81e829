-- ===== src/Packet.antt =====
-- source/peer/packet.h and packet.c: chunks are packed into packets of at most 400 bytes.
pub mod Carries
pub mod Unpack
pub mod Pack
pub mod Fill
pub mod Roundtrip
pub mod Faults
mod Tests
use peer.Prelude.{
  ℕ, zero, suc, ◌+◌, Bool, not, List, [], ◌∷◌, ◌++◌, Option, none, some, ◌>>=◌, ltb, leb, ◌==◌,
  if◌then◌else◌, ◌||◌, length, take, drop, set, replicate, bit_or,
}
use peer.Prelude.Int.{ℤ, pos, ◌==ℤ◌, ltb_ℤ}
use peer.Options.{Status, kit_ok, packet_size, packet_mode_plain}
use peer.Options.PacketOffset
use peer.Options.MessageOffset
use peer.Options.Error
use peer.Serial.{Bytes, u16, at, memcpy, read_message_size, write_u8, write_u16}
use peer.Kit
use peer.Kit.{Kit, new_bytes}

-- `peer_packet_t`; `body` is its `data`.
pub record Packet : Type 0 where
  pub source_id : ℤ
  pub destination_id : ℤ
  pub size : ℤ
  pub body : Bytes

-- Writes through `values[size - 1]`.
unfoldable pub on_last : (Packet → Option Packet) → List Packet → Option (List Packet)
on_last f [] = none
on_last f (p ∷ []) = do p' ← f p; some (p' ∷ [])
on_last f (p ∷ q ∷ ps) = do ps' ← on_last f (q ∷ ps); some (p ∷ ps')

-- Sets the size of a packet and writes its mode and its size into its header.
unfoldable pub write_header : ℕ → Packet → Option Packet
write_header offset p = do
  d0 ← at PacketOffset.mode (write_u8 packet_mode_plain) p.body
  d1 ← at PacketOffset.size (write_u16 (u16 offset)) d0
  some (record p { size = pos offset; body = d1 })

unfoldable pub copy_chunk : ℕ → Bytes → Packet → Option Packet
copy_chunk offset c p = do d ← at offset (memcpy c) p.body; some (record p { body = d })

module _ (kit : Kit) (source_id destination_id : ℤ) where
  -- A new packet, cleared by `memset`.
  abbrev pub blank : Packet
  blank = record {
    source_id = source_id;
    destination_id = destination_id;
    size = pos 0;
    body = replicate packet_size 0;
  }

  -- A new packet of peer_pack's array that nothing has been written to.
  abbrev pub unset : Packet
  unset = record {
    source_id = kit.word;
    destination_id = kit.word;
    size = kit.word;
    body = new_bytes kit packet_size;
  }

  -- The start of an iteration: where a chunk of `n` bytes does not fit, the last packet gets its
  -- header, if this call added it, and a new packet is added. A status other than `KIT_OK` is the
  -- one that peer_pack returns at once.
  unfoldable pub open_packet : ℕ → ℕ → ℕ → List Packet → Option (Status × ℕ × List Packet)
  open_packet previous_size n offset out =
      if ltb packet_size (offset + n)
      then (do
        done ←
            if ltb previous_size (length out) then on_last (write_header offset) out else some out
        if kit.fits Kit.packets (length done + 1)
            then some (kit_ok, PacketOffset.messages, done ++ blank ∷ [])
            else some (Error.bad_alloc, offset, done))
      else some (kit_ok, offset, out)

  unfoldable pub pack_loop : ℕ → List Bytes → ℕ → List Packet → Option (Status × ℕ × List Packet)
  pack_loop previous_size [] offset out = some (kit_ok, offset, out)
  pack_loop previous_size (c ∷ cs) offset out = do
    (status, offset', out') ← open_packet previous_size (length c) offset out
    if not (status == kit_ok) then some (status, offset', out') else (do
      chunk_size ← read_message_size c
      if not (length c == chunk_size) then some (Error.invalid_message_size, offset', out') else (do
        done ← on_last (copy_chunk offset' c) out'
        pack_loop previous_size cs (offset' + length c) done))

  -- After the loop. With no packet added, one is, and the first packet of the array is cleared.
  unfoldable pub pack_end : ℕ → ℕ → List Packet → Option (Status × List Packet)
  pack_end previous_size offset out =
      if length out == previous_size
      then (if kit.fits Kit.packets (previous_size + 1)
          then (do
            done ← on_last (write_header 0) (set (out ++ unset ∷ []) 0 blank)
            some (kit_ok, done))
          else some (Error.bad_alloc, out))
      else (do done ← on_last (write_header offset) out; some (kit_ok, done))

  unfoldable pub pack : List Bytes → List Packet → Option (Status × List Packet)
  pack chunks out = do
    (status, offset, out') ← pack_loop (length out) chunks packet_size out
    if not (status == kit_ok) then some (status, out') else pack_end (length out) offset out'

-- The chunk of `n` bytes that starts the bytes `bs`, copied by `memcpy`.
unfoldable pub read_bytes : ℕ → Bytes → Option Bytes
read_bytes n bs = if leb n (length bs) then some (take n bs) else none

module _ (kit : Kit) where
  -- The `while` loop over one packet, of the size `packet_end`, on fuel: every round moves the
  -- offset on.
  unfoldable pub unpack_loop :
      ℕ → ℤ → Bytes → ℕ → Status → List Bytes → Option (Status × List Bytes)
  unpack_loop zero packet_end body offset status out = none
  unpack_loop (suc fuel) packet_end body offset status out =
      if ltb_ℤ packet_end (pos (offset + MessageOffset.message_data))
      then some (status, out)
      else (do
        size ← read_message_size (drop offset body)
        if size == 0
            then some (status, out)
            else (if ltb packet_size (offset + size)
                then some (bit_or status Error.invalid_message_size, out)
                else (if not (kit.fits Kit.chunks (length out + 1))
                    then some (bit_or status Error.bad_alloc, out)
                    else (if not (kit.fits Kit.chunk size)
                        then some (bit_or status Error.bad_alloc, out ++ [] ∷ [])
                        else (do
                          c ← read_bytes size (drop offset body)
                          unpack_loop fuel packet_end body (offset + size) status
                              (out ++ c ∷ []))))))

  unfoldable pub unpack_packet : Packet → Status → List Bytes → Option (Status × List Bytes)
  unpack_packet p status out =
      if p.size ==ℤ pos 0
      then some (status, out)
      else (if ltb_ℤ p.size (pos PacketOffset.messages) || ltb_ℤ (pos packet_size) p.size
          then some (bit_or status Error.invalid_packet_size, out)
          else unpack_loop packet_size p.size p.body PacketOffset.messages status out)

  unfoldable pub unpack_from : List Packet → Status → List Bytes → Option (Status × List Bytes)
  unpack_from [] status out = some (status, out)
  unpack_from (p ∷ ps) status out = do
    (status', out') ← unpack_packet p status out
    unpack_from ps status' out'

  unfoldable pub unpack : List Packet → List Bytes → Option (Status × List Bytes)
  unpack packets out = unpack_from packets kit_ok out
