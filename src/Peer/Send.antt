-- ===== src/Peer/Send.antt =====
-- source/peer/peer.c: chunks_append_trail, chunks_wrap and queue_pack, and the heartbeat message of
-- peer_tick.
pub mod Trail
pub mod Pack
pub mod Faults
mod Tests
use peer.Prelude.{
  ℕ, zero, suc, ◌+◌, ◌-◌, ◌%◌, min, not, ◌||◌, List, [], ◌∷◌, ◌++◌, Option, none, some, ◌>>=◌,
  bit_or, ltb, ◌==◌, if◌then◌else◌, length, get_elem?,
}
use peer.Prelude.Int.{ℤ, pos}
use peer.Options.{
  Status, kit_ok, undefined, trail_serial_size, trail_scatter_size, trail_scatter_distance,
}
use peer.Options.Error
use peer.Options.MessageMode
use peer.Options.Service
use peer.Options.MessageOffset
use peer.Serial.{Bytes, write_message}
use peer.Kit
use peer.Kit.{Kit, new_bytes}
use peer.Packet.{Packet, pack}
use peer.Queue.{Message, Queue}
use mathlib.Core.Option

-- How many of the messages just below `index` are sent again.
unfoldable pub trail_length : ℕ → ℕ
trail_length index =
    if ltb index trail_serial_size || ltb (index - trail_serial_size) trail_scatter_distance
    then index
    else trail_serial_size

-- From how many messages below `index` others are picked.
unfoldable pub scatter_distance : ℕ → ℕ
unfolding trail_length
scatter_distance index = min trail_scatter_distance (index - trail_length index)

module _ (kit : Kit) where
  -- A message of a queue as a chunk of new memory.
  unfoldable pub message_chunk : ℕ → Message → Option Bytes
  message_chunk i m =
      write_message (new_bytes kit (MessageOffset.message_data + length m.payload))
        MessageMode.application (pos i) m.time m.actor m.payload

  -- The chunks of `n` messages from the index `i` on. The inner `none` is an allocation that failed.
  unfoldable pub message_chunks : Queue → ℕ → ℕ → Option (Option (List Bytes))
  message_chunks q zero i = some (some [])
  message_chunks q (suc n) i = do
    m ← get_elem? q i
    if not (kit.fits Kit.chunk (MessageOffset.message_data + length m.payload))
        then some none
        else (do
          c ← message_chunk i m
          rest ← message_chunks q n (i + 1)
          some (Option.map (◌∷◌ c) rest))

module _ {R : Type 0} (kit : Kit) (generate : R → ℕ × R) where
  -- The chunks of `n` messages picked at random from the `distance` ones from `begin` on.
  unfoldable pub scatter_chunks : Queue → ℕ → ℕ → ℕ → R → Option (Option (List Bytes) × R)
  scatter_chunks q begin distance zero rng = some (some [], rng)
  scatter_chunks q begin distance (suc n) rng = do
    let (value, rng') = generate rng
    let i = begin + value % distance
    m ← get_elem? q i
    if not (kit.fits Kit.chunk (MessageOffset.message_data + length m.payload))
        then some (none, rng')
        else (do
          c ← message_chunk kit i m
          (rest, rng'') ← scatter_chunks q begin distance n rng'
          some (Option.map (◌∷◌ c) rest, rng''))

  unfoldable pub append_scatter : Queue → ℕ → List Bytes → R → Option (Status × List Bytes × R)
  append_scatter q index chunks rng =
      let distance = scatter_distance index in
      let size = min trail_scatter_size distance in
      if size == 0
      then some (kit_ok, chunks, rng)
      else (if not (kit.fits Kit.chunks (length chunks + size))
          then some (Error.bad_alloc, chunks, rng)
          else (do
            (picked, rng') ← scatter_chunks q (index - distance) distance size rng
            elim picked [
              | none ↦ some (Error.bad_alloc, chunks, rng')
              | some cs ↦ some (kit_ok, chunks ++ cs, rng')
            ]))

  -- chunks_append_trail
  unfoldable pub append_trail : Queue → ℕ → List Bytes → R → Option (Status × List Bytes × R)
  append_trail q index chunks rng =
      let size = trail_length index in
      if size == 0
      then append_scatter q index chunks rng
      else (if not (kit.fits Kit.chunks (length chunks + size))
          then some (Error.bad_alloc, chunks, rng)
          else (do
            recent ← message_chunks kit q size (index - size)
            elim recent [
              | none ↦ some (Error.bad_alloc, chunks, rng)
              | some cs ↦ append_scatter q index (chunks ++ cs) rng
            ]))

  -- queue_pack from the point where the chunks of the new messages are made.
  unfoldable pub pack_with_trail :
      Queue → ℕ → ℤ → ℤ → List Bytes → List Packet → R → Option (Status × List Packet × R)
  pack_with_trail q index source_id destination_id chunks out rng = do
    (status, all, rng') ← append_trail q index chunks rng
    if not (kit.fits Kit.refs (length all))
        then some (bit_or status Error.bad_alloc, out, rng')
        else (do
          (s, out') ← pack kit source_id destination_id all out
          some (bit_or status s, out', rng'))

  unfoldable pub queue_pack :
      Queue → ℕ → ℤ → ℤ → List Packet → R → Option (Status × List Packet × R)
  queue_pack q index source_id destination_id out rng =
      if ltb (length q) index
      then some (Error.invalid_out_index, out, rng)
      else (if length q == index
          then some (kit_ok, out, rng)
          else (if not (kit.fits Kit.chunks (length q - index))
              then some (Error.bad_alloc, out, rng)
              else (do
                new ← message_chunks kit q (length q - index) index
                elim new [
                  | none ↦ some (Error.bad_alloc, out, rng)
                  | some cs ↦ pack_with_trail q index source_id destination_id cs out rng
                ])))

  -- The chunks of a heartbeat message, before the trail.
  unfoldable pub heartbeat_chunks : ℤ → ℤ → Option (Status × List Bytes)
  heartbeat_chunks time actor =
      if not (kit.fits Kit.chunk (MessageOffset.message_data + 1))
      then some (Error.bad_alloc, [])
      else (do
        c ←
            write_message (new_bytes kit (MessageOffset.message_data + 1)) MessageMode.service
              undefined time actor (Service.heartbeat ∷ [])
        some (kit_ok, c ∷ []))

  -- A heartbeat packet. The result is `none` inside where the array of chunks cannot be had, and
  -- the status, the packets and the generator where it can. With no array of references to the
  -- chunks, peer_pack is called with no chunks.
  unfoldable pub heartbeat :
      Queue → ℕ → ℤ → ℤ → ℤ → ℤ → List Packet → R → Option (Option (Status × List Packet × R))
  heartbeat q index time actor source_id destination_id out rng =
      if not (kit.fits Kit.chunks 1) then some none else (do
        (s0, chunks) ← heartbeat_chunks time actor
        (s1, all, rng') ← append_trail q index chunks rng
        let wrapped = kit.fits Kit.refs (length all)
        (s3, out') ← pack kit source_id destination_id (if wrapped then all else []) out
        some (
            some (
              bit_or (bit_or (bit_or s0 s1) (if wrapped then kit_ok else Error.bad_alloc)) s3,
              out',
              rng',
            )))
