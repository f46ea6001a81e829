-- ===== src/Options/PacketOffset.antt =====
-- source/peer/options.h: PEER_N_PACKET_*, offsets into a packet.
use peer.Prelude.{ℕ}

abbrev pub mode : ℕ
mode = 12

abbrev pub size : ℕ
size = 13

abbrev pub messages : ℕ
messages = 15
