-- ===== src/Peer/Receive/Faults.antt =====
-- source/peer/peer.c, peer_input: where a session response writes past an array.
use peer.Prelude.{
  ℕ, ◌-◌, ◌≤◌, ◌<◌, ◌≡◌, refl, true, Bool-cases, inl, inr, none, some, arith, leb, length,
  length-take, take, drop,
}
use peer.Prelude.Int.{ℤ, pos}
use peer.Options.{Status}
use peer.Options.MessageMode
use peer.Options.Service
use peer.Serial.{Bytes}
use peer.Serial.Layout.{memcpy-none}
use peer.Kit.{Kit}
use peer.Packet.{read_bytes}
use peer.Peer.{Endpoint, Slot, Peer}
use peer.Peer.Receive.{
  read_fields, read_service, set_remote_address, session_response, client_message, client_chunk,
}

set_remote_address-none :
    (n : ℕ) (c : Bytes) (remote : Endpoint)
    → length remote.address_data < n
    → set_remote_address n c remote ≡ none
unfolding set_remote_address read_bytes
set_remote_address-none n c remote long = elim (Bool-cases (leb n (length (drop 31 c)))) [
  | inr past ↦ rw past refl
  | inl inside ↦
      let size : length (take n (drop 31 c)) ≡ n =
        omega (arith, length-take n (drop 31 c), le_of inside) in
      rw (inside, memcpy-none (take n (drop 31 c)) remote.address_data (omega (arith, size)))
]
  where
    le_of : {a b : ℕ} → leb a b ≡ true → a ≤ b
    le_of e = ground arith

module _ {R : Type 0} (kit : Kit) where
  -- A client writes past its 64 bytes of `address_data` when a session response comes with an
  -- address of more than 64 bytes, as a packet of 400 bytes can hold.
  pub client_chunk-none :
      (c : Bytes) (n : ℕ) (index time : ℤ) (actor : ℕ) (status : Status) (peer : Peer R)
      (slot : Slot)
      → read_fields c
        ≡ some (record {
          data_size = pos n;
          mode = MessageMode.service;
          index = index;
          time = time;
          actor = actor;
        })
      → read_service
          (record {
            data_size = pos n;
            mode = MessageMode.service;
            index = index;
            time = time;
            actor = actor;
          })
          c
        ≡ some Service.session_response
      → length slot.remote.address_data ≡ 64
      → 65 < n
      → client_chunk kit c status peer slot ≡ none
  unfolding client_chunk client_message session_response
  client_chunk-none c n index time actor status peer slot fields service room long =
      let over = set_remote_address-none (n - 1) c slot.remote (omega (arith, room)) in
      rw (fields, service, over)
