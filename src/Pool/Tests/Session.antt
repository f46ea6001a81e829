-- ===== src/Pool/Tests/Session.antt =====
-- A host tells a client that the port 40 is its own.
use peer.Prelude.{ℕ, ◌≡◌, refl, true, false, [], ◌∷◌, some, arith}
use peer.Prelude.Int.{pos}
use peer.Options.{kit_ok}
use peer.Serial.{Bytes}
use peer.Sockets.{Sockets}
use peer.Peer.{Endpoint, Slot, Peer, host, client, init, new_slot}
use peer.Peer.Receive.{client_chunk}
use peer.Peer.Tick.{session_response_chunk}
use peer.Pool.{Pool}
use peer.Pool.Find.{Found}
use peer.Pool.Resolve.{set_local_address, resolve}
use peer.Pool.Session.{at_port, session-resolve_port}
use peer.Pool.Tests.{ample, system, system-IsExact, here, there}

-- The nodes of the pool stay where they are.
abbrev in_place : Sockets Bytes
in_place = record system { moves = λ n. false }

-- The host's slot for the client, and the client's for the host, whose node has the id 1.
abbrev for_client : Slot
for_client = record (new_slot host 2 (pos 0)) { actor = pos 2 }

abbrev for_host : Slot
for_host = record (new_slot client 0 (pos 0)) {
  local = record (new_slot client 0 (pos 0)).local { is_address_resolved = true };
  remote = record (new_slot client 0 (pos 0)).remote { id = pos 1; is_address_resolved = true };
}

abbrev newcomer : Peer ℕ
newcomer = record (init (λ n. n) (λ n. n) client) { slots = for_host ∷ [] }

abbrev known : Pool
known = here ∷ there (49 ∷ []) ∷ []

session-resolve_port_example :
    (local : Endpoint) × (c : Bytes) × (peer' : Peer ℕ) × (port' : Slot) × (j : ℕ) × (pool' : Pool)
    × (set_local_address here for_client.local ≡ some local)
    × (session_response_chunk ample (pos 70) (record for_client { local = local }) ≡ some c)
    × (client_chunk ample c kit_ok newcomer for_host ≡ some (kit_ok, peer', port'))
    × (resolve ample in_place known (record peer' { slots = port' ∷ [] })
        ≡ some (
          kit_ok,
          pool',
          record peer' {
            slots =
                record port' { remote = record port'.remote { id = pos j; is_id_resolved = true } }
                ∷ [];
          },
        ))
    × Found known (at_port (there (49 ∷ [])) 40) j pool'
session-resolve_port_example =
    session-resolve_port ample in_place system-IsExact (pos 70) here for_client 2 kit_ok newcomer
      for_host known 1 (there (49 ∷ [])) refl (omega arith) refl refl (omega arith) (omega arith)
      refl refl refl refl refl (omega arith) refl refl
