-- ===== src/Peer/Setup.antt =====
-- source/peer/peer.c, peer_connect: which slot gets the server's id.
use peer.Prelude.{
  ◌≡◌, ◌≢◌, refl, ap, ◌∙◌, true, false, Bool-cases, inl, inr, List, [], ◌∷◌, ◌++◌, none, some, All,
}
use peer.Prelude.Int.{ℤ, ◌==ℤ◌, ==ℤ_eq, ==ℤ_refl}
use peer.Options.{kit_ok, undefined}
use peer.Options.Error
use peer.Peer.{Slot, Peer, connect_slots, connect}

-- A slot that has a remote peer.
abbrev pub IsTaken : Slot → Type 0
IsTaken slot = slot.remote.id ≢ undefined

abbrev pub connected : ℤ → Slot → Slot
connected server_id slot = record slot {
  remote = record slot.remote { id = server_id; is_id_resolved = true; address_size = 0 };
}

taken_test : (slot : Slot) → IsTaken slot → (slot.remote.id ==ℤ undefined) ≡ false
taken_test slot taken = elim (Bool-cases (slot.remote.id ==ℤ undefined)) [
  | inl e ↦ absurd (taken (==ℤ_eq slot.remote.id undefined e))
  | inr e ↦ e
]

connect_slots-first :
    (server_id : ℤ) (before after : List Slot) (slot : Slot)
    → All IsTaken before
    → slot.remote.id ≡ undefined
    → connect_slots server_id (before ++ slot ∷ after)
      ≡ some (before ++ connected server_id slot ∷ after)
unfolding connect_slots
connect_slots-first server_id [] after slot taken free =
    let e : (slot.remote.id ==ℤ undefined) ≡ true = rw free (==ℤ_refl undefined) in rw e
connect_slots-first server_id (a ∷ before) after slot taken free =
    rw (taken_test a taken.0, connect_slots-first server_id before after slot taken.1 free)

connect_slots-full :
    (server_id : ℤ) (slots : List Slot) → All IsTaken slots → connect_slots server_id slots ≡ none
unfolding connect_slots
connect_slots-full server_id [] taken = refl
connect_slots-full server_id (a ∷ slots) taken =
    rw (taken_test a taken.0, connect_slots-full server_id slots taken.1)

-- Where a slot has no remote peer, peer_connect succeeds: the first such slot gets the server's id
-- and an empty address, and nothing else of the peer changes.
pub connect-first :
    {R : Type 0} (peer : Peer R) (server_id : ℤ) (before after : List Slot) (slot : Slot)
    → peer.slots ≡ before ++ slot ∷ after
    → All IsTaken before
    → slot.remote.id ≡ undefined
    → connect peer server_id
      ≡ (kit_ok, record peer { slots = before ++ connected server_id slot ∷ after })
unfolding connect
connect-first peer server_id before after slot is taken free =
    let found =
      ap (connect_slots server_id) is
      ∙ connect_slots-first server_id before after slot taken free in
    rw (found, connect)

-- Where every slot has a remote peer, peer_connect reports it and changes nothing.
pub connect-full :
    {R : Type 0} (peer : Peer R) (server_id : ℤ)
    → All IsTaken peer.slots
    → connect peer server_id ≡ (Error.no_free_slots, peer)
unfolding connect
connect-full peer server_id taken =
    let missing = connect_slots-full server_id peer.slots taken in rw (missing, connect)
