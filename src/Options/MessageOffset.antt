-- ===== src/Options/MessageOffset.antt =====
-- source/peer/options.h: PEER_N_MESSAGE_*, offsets into a message.
use peer.Prelude.{ℕ}

abbrev pub checksum : ℕ
checksum = 0

abbrev pub size : ℕ
size = 8

abbrev pub size_and_mode : ℕ
size_and_mode = 9

abbrev pub index : ℕ
index = 10

abbrev pub time : ℕ
time = 18

abbrev pub actor : ℕ
actor = 26

abbrev pub message_data : ℕ
message_data = 30
