-- ===== src/Peer/Destroy/Tests.antt =====
-- A client with a message that waits and two that have come.
use peer.Prelude.{ℕ, ◌≡◌, not, ◌&&◌, [], ◌∷◌, some}
use peer.Prelude.Int.{pos}
use peer.Options.{kit_ok}
use peer.Queue.View.{ready}
use peer.Peer.{Slot, Peer, client, init, new_slot}
use peer.Peer.Destroy.{Live, Place, destroy}
use peer.Peer.Destroy.Frees.{is_of, destroy-frees}

abbrev waiting : Slot
waiting = record (new_slot client 0 (pos 20)) { queue = ready (pos 0) (pos 1) (42 ∷ []) ∷ [] }

abbrev player : Peer ℕ
player = record (init (λ n. n) (λ n. n) client) {
  slots = waiting ∷ new_slot client 1 (pos 21) ∷ [];
  queue = ready (pos 10) (pos 0) [] ∷ ready (pos 20) (pos 1) (43 ∷ []) ∷ [];
}

-- Its arrays are all that are there.
abbrev only_its : Live
only_its = is_of player

destroy-frees_example :
    (after : Live) × (destroy player only_its ≡ some (kit_ok, after))
    × ((x : Place) → after x ≡ (only_its x && not (is_of player x)))
destroy-frees_example = destroy-frees player only_its (λ x e. e)
