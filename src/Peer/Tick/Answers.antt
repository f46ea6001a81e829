-- ===== src/Peer/Tick/Answers.antt =====
-- source/peer/peer.c, peer_tick: the service messages of a host are made and packed.
use peer.Prelude.{
  ℕ, ◌+◌, ◌≤◌, ◌≡◌, ap, ◌∙◌, true, List, [], ◌∷◌, ◌++◌, append-nil, some, arith, length,
  length-take, length-tabulate, length-drop, take, drop, take-append_length, All, All-append,
  All-take, All-drop,
}
use peer.Prelude.Int.{ℤ}
use peer.Options.{kit_ok, undefined}
use peer.Options.MessageMode
use peer.Options.Service
use peer.Serial.{Bytes}
use peer.Serial.Layout.{message, memcpy_lem, write_message_lem}
use peer.Kit
use peer.Kit.{Kit, Array, new_bytes}
use peer.Packet.{Packet, read_bytes}
use peer.Packet.Carries.{IsChunk}
use peer.Packet.Pack.{pack-AllSealed}
use peer.Packet.Unpack.{read_bytes-some, read_bytes_first}
use peer.Queue.{Queue}
use peer.Peer.{Slot}
use peer.Peer.Send.{heartbeat_chunks, heartbeat}
use peer.Peer.Send.Pack.{recent, append_trail_lem, chunks_from-IsChunk, older-IsChunk}
use peer.Peer.Send.Trail.{IsSmall, message-IsChunk, past_end}
use peer.Peer.Tick.{session_response_chunk}

abbrev pub beat : ℤ → ℤ → Bytes
beat time actor = message MessageMode.service undefined time actor (Service.heartbeat ∷ [])

module _ {R : Type 0} (kit : Kit) (generate : R → ℕ × R)
    (room : (a : Array) (n : ℕ) → kit.fits a n ≡ true) where
  heartbeat_chunks_lem :
      (time actor : ℤ)
      → heartbeat_chunks kit generate time actor ≡ some (kit_ok, beat time actor ∷ [])
  unfolding heartbeat_chunks
  heartbeat_chunks_lem time actor =
      let new = new_bytes kit 31 in
      rw (
        room Kit.chunk 31,
        write_message_lem new MessageMode.service undefined time actor (Service.heartbeat ∷ [])
            (omega arith) (omega arith) (omega (arith, length-tabulate kit.byte 0 31)),
        past_end 1 (drop 30 new) (omega (arith, length-drop 30 new, length-tabulate kit.byte 0 31)),
        append-nil (beat time actor),
      )

  pub heartbeat-some :
      (q : Queue) (index : ℕ) (time actor s d : ℤ) (out : List Packet) (rng : R)
      → All IsSmall q
      → index ≤ length q
      → (out' : List Packet) × (rng' : R) × (heartbeat kit generate q index time actor s d out rng
          ≡ some (some (kit_ok, out', rng')))
  unfolding heartbeat
  heartbeat-some q index time actor s d out rng small le =
      let c = beat time actor in
      let (picked, rng', e, older) =
        append_trail_lem kit generate room q small index (c ∷ []) rng le in
      let ok : All IsChunk (c ∷ (recent q index ++ picked)) = (
        message-IsChunk MessageMode.service undefined time actor (Service.heartbeat ∷ [])
            (omega arith),
        All-append IsChunk (recent q index) picked
            (chunks_from-IsChunk _ _ (All-take IsSmall _ _ (All-drop IsSmall _ q small)))
            (older-IsChunk q index picked small older),
      ) in
      let (added, packed, _) = pack-AllSealed kit s d room c (recent q index ++ picked) out ok in
      (
        out ++ added,
        rng',
        rw (
          room Kit.chunks 1,
          heartbeat_chunks_lem time actor,
          e,
          room Kit.refs (length (c ∷ (recent q index ++ picked))),
          packed,
        ),
      )

module _ (kit : Kit) where
  -- The message that answers a session request.
  abbrev pub response : ℤ → Slot → Bytes
  response time slot =
      message MessageMode.service undefined time slot.actor
        (Service.session_response ∷ take slot.local.address_size slot.local.address_data)

  pub session_response_chunk_lem :
      (time : ℤ) (slot : Slot)
      → slot.local.address_size ≤ 64
      → length slot.local.address_data ≡ 64
      → (session_response_chunk kit time slot ≡ some (response time slot))
        × IsChunk (response time slot)
  unfolding session_response_chunk
  session_response_chunk_lem time slot le whole =
      let n = slot.local.address_size in
      let address = take n slot.local.address_data in
      let size : length address ≡ n = omega (arith, length-take n slot.local.address_data, whole) in
      let data_of = Service.session_response ∷ address in
      let rest = drop (length data_of) (new_bytes kit 65) in
      let new = new_bytes kit 95 in
      (
        rw
            (
              read_bytes-some n slot.local.address_data (omega (arith, whole)),
              memcpy_lem data_of (new_bytes kit 65)
                  (omega (arith, size, length-tabulate kit.byte 0 65)),
              take-append_length data_of rest (n + 1) (omega (arith, size)),
              write_message_lem new MessageMode.service undefined time slot.actor data_of
                  (omega arith) (omega (arith, size))
                  (omega (arith, size, length-tabulate kit.byte 0 95)),
            )
            (ap (λ k. read_bytes k (response time slot ++ drop (length data_of) (drop 30 new)))
                (omega (arith, size))
              ∙ read_bytes_first (response time slot) (drop (length data_of) (drop 30 new))),
        message-IsChunk MessageMode.service undefined time slot.actor data_of (omega (arith, size)),
      )
