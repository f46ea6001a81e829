-- ===== src/Peer/Receive/Total.antt =====
-- source/peer/peer.c, peer_input: a chunk that has a header is taken in without a fault.
use peer.Prelude.{
  ℕ, ◌-◌, ◌^◌, ◌≤◌, ◌<◌, ◌≡◌, refl, sym, ap, ◌∙◌, true, false, not, Bool-cases, inl, inr, Option,
  some, arith, ◌==◌, ==_iff, length, length-take, length-drop, length-append, take, drop, le→leb,
  get_elem?-some,
}
use peer.Prelude.Int.{pos, ltb_ℤ, ◌==ℤ◌}
use peer.Prelude.Post.{of_post, Returns, Returns-bind, Returns-if, Returns-cases, if_cases}
use peer.Options.{Status}
use peer.Options.MessageMode
use peer.Options.Service
use peer.Serial.{Bytes, read_u8}
use peer.Serial.Layout.{memcpy_lem}
use peer.Kit.{Kit}
use peer.Queue.View.{queue_insert-some}
use peer.Packet.Faults.{IsWhole}
use peer.Packet.Unpack.{read_bytes-some}
use peer.Peer.{Endpoint, Slot, Peer}
use peer.Peer.Receive.{
  Fields, read_fields, read_service, host_message, host_chunk, set_remote_address, session_response,
  client_message, client_chunk,
}
use peer.Peer.Receive.Payload.{read_fields-Told, read_payload-inside}

-- The address of the slot's remote endpoint has its 64 bytes.
abbrev pub HasRoom : Slot → Type 0
HasRoom slot = length slot.remote.address_data ≡ 64

-- A session response has no more than 64 bytes of address.
abbrev pub FitsAddress : Bytes → Type 0
FitsAddress c =
    (f : Fields)
    → read_fields c ≡ some f
    → f.mode ≡ MessageMode.service
    → read_service f c ≡ some Service.session_response
    → length c ≤ 95

-- A message for a queue has an index below INT64_MAX.
abbrev pub FitsQueue : Bytes → Type 0
FitsQueue c =
    (f : Fields)
    → read_fields c ≡ some f
    → (f.mode == MessageMode.service) ≡ false
    → ltb_ℤ f.index (pos (2 ^ 63 - 1)) ≡ true

module _ (c : Bytes) (f : Fields) (whole : IsWhole c) (e : read_fields c ≡ some f) where
  data_size_lem : f.data_size ≡ pos (length c - 30)
  data_size_lem =
      let told = of_post (read_fields-Told c whole.size_field) e in
      told.data_size_is ∙ rw (le→leb 30 (length c) told.has_header)

  read_service-some : (n : ℕ) × (read_service f c ≡ some n)
  unfolding read_service read_u8
  read_service-some = elim (Bool-cases (ltb_ℤ f.data_size (pos 1))) [
    | inl nothing ↦ (0, rw nothing)
    | inr something ↦
        let (b, here) = get_elem?-some (drop 30 c) 0 (
          omega (
            arith,
            length-drop 30 c,
            positive (length c - 30) (ap (λ n. ltb_ℤ n (pos 1)) (sym data_size_lem) ∙ something),
          )) in
        (b, rw something here)
  ]
    where
      positive : (n : ℕ) → ltb_ℤ (pos n) (pos 1) ≡ false → 0 < n
      positive n e = ground arith

-- It has a result, with the slot's remote endpoint as it was.
abbrev pub KeepsRemote : Slot → Option (Status × Slot) → Type 0
KeepsRemote slot m = Returns (λ (r : Status × Slot). r.1.remote ≡ slot.remote) m

module _ (kit : Kit) where
  host_message-KeepsRemote :
      (f : Fields) (c : Bytes) (status : Status) (slot : Slot)
      → IsWhole c
      → FitsQueue c
      → read_fields c ≡ some f
      → KeepsRemote slot (host_message kit f c status slot)
  unfolding host_message
  host_message-KeepsRemote f c status slot whole near e =
      Returns-cases (f.mode == MessageMode.service) _ _
        (λ _.
          let (n, read) = read_service-some c f whole e in
          rw read (Returns-if (n == Service.heartbeat) _ _ (_, refl, refl) (_, refl, refl)))
        λ sent.
          let read = read_payload-inside c whole.size_field f e in
          let (r, put, _) =
            queue_insert-some kit slot.queue f.index f.time (pos f.actor) (drop 30 c)
              (near f e sent) in
          rw (read, put) (_, refl, refl)

  pub host_chunk-KeepsRemote :
      (c : Bytes) (status : Status) (slot : Slot) (f : Fields)
      → IsWhole c
      → FitsQueue c
      → read_fields c ≡ some f
      → KeepsRemote slot (host_chunk kit c status slot)
  unfolding host_chunk
  host_chunk-KeepsRemote c status slot f whole near e = rw e (
      Returns-if (not (f.time ==ℤ pos 0)) _ _ (_, refl, refl)
        (Returns-if (not (pos f.actor ==ℤ slot.actor)) _ _ (_, refl, refl)
          (host_message-KeepsRemote f c status slot whole near e)))

set_remote_address-some :
    (n : ℕ) (c : Bytes) (remote : Endpoint)
    → n ≤ length c - 31
    → n ≤ 64
    → length remote.address_data ≡ 64
    → Returns (λ (r : Endpoint). length r.address_data ≡ 64) (set_remote_address n c remote)
unfolding set_remote_address
set_remote_address-some n c remote inside small room =
    let address = take n (drop 31 c) in
    let size : length address ≤ 64 = omega (arith, length-take n (drop 31 c)) in
    rw
      (
        read_bytes-some n (drop 31 c) (omega (arith, length-drop 31 c)),
        memcpy_lem address remote.address_data (omega (arith, room)),
      )
      (
        _,
        refl,
        omega (
          arith,
          size,
          room,
          length-append address (drop (length address) remote.address_data),
          length-drop (length address) remote.address_data,
        ),
      )

-- The slots and the mode stay, and the slot still has room for an address.
abbrev pub Stays : {R : Type 0} → Peer R → Status × Peer R × Slot → Type 0
Stays peer r = (r.1.slots ≡ peer.slots) × (r.1.mode ≡ peer.mode) × HasRoom r.2

module _ {R : Type 0} (kit : Kit) (peer : Peer R) (slot : Slot) (room : HasRoom slot) where
  session_response-Stays :
      (f : Fields) (c : Bytes) (status : Status)
      → IsWhole c
      → read_fields c ≡ some f
      → length c ≤ 95
      → Returns (Stays peer) (session_response f c status peer slot)
  unfolding session_response
  session_response-Stays f c status whole e small =
      let (remote, made, size) =
        set_remote_address-some (length c - 30 - 1) c slot.remote (omega arith) (omega arith)
          room in
      rw (data_size_lem c f whole e, session_response, made) (_, refl, (refl, refl, size))

  client_message-Stays :
      (f : Fields) (c : Bytes) (status : Status)
      → IsWhole c
      → FitsAddress c
      → FitsQueue c
      → read_fields c ≡ some f
      → Returns (Stays peer) (client_message kit f c status peer slot)
  unfolding client_message
  client_message-Stays f c status whole fits near e =
      Returns-cases (f.mode == MessageMode.service) _ _
        (λ service.
          let (n, read) = read_service-some c f whole e in
          rw read (
            Returns-if (n == Service.heartbeat) _ _ (_, refl, (refl, refl, room))
              (Returns-cases (n == Service.session_response) _ _
                (λ is.
                  session_response-Stays f c status whole e
                    (fits f e ((==_iff _ _).0 service) (read ∙ ap some ((==_iff _ _).0 is))))
                λ _. (_, refl, (refl, refl, room)))))
        λ sent.
          let read = read_payload-inside c whole.size_field f e in
          let (r, put, _) =
            queue_insert-some kit peer.queue f.index f.time (pos f.actor) (drop 30 c)
              (near f e sent) in
          rw (read, put) (_, refl, (refl, refl, room))

  pub client_chunk-Stays :
      (c : Bytes) (status : Status) (f : Fields)
      → IsWhole c
      → FitsAddress c
      → FitsQueue c
      → read_fields c ≡ some f
      → Returns (Stays peer) (client_chunk kit c status peer slot)
  unfolding client_chunk
  client_chunk-Stays c status f whole fits near e = rw e (
      Returns-bind (client_message kit f c status peer slot) _
        (client_message-Stays f c status whole fits near e)
        λ r (slots, mode, has_room). (
          _,
          refl,
          (
            if_cases (λ (p : Peer R). p.slots ≡ peer.slots) (ltb_ℤ r.1.time f.time) _ _ (λ _. slots)
                (λ _. slots),
            if_cases (λ (p : Peer R). p.mode ≡ peer.mode) (ltb_ℤ r.1.time f.time) _ _ (λ _. mode)
                (λ _. mode),
            has_room,
          ),
        ))
