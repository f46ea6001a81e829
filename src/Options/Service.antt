-- ===== src/Options/Service.antt =====
-- source/peer/options.h: PEER_M_*, the ids of service-level messages.
use peer.Prelude.{ℕ}

abbrev pub heartbeat : ℕ
heartbeat = 1

abbrev ping : ℕ
ping = 2

abbrev pong : ℕ
pong = 3

abbrev session_request : ℕ
session_request = 4

abbrev pub session_response : ℕ
session_response = 5

abbrev session_resume : ℕ
session_resume = 6
