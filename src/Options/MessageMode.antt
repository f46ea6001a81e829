-- ===== src/Options/MessageMode.antt =====
-- source/peer/options.h: PEER_MESSAGE_MODE_*.
use peer.Prelude.{ℕ}

abbrev pub service : ℕ
service = 0

abbrev pub application : ℕ
application = 1
