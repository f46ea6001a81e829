-- ===== src/Options.antt =====
-- source/peer/options.h: the protocol's constants, data offsets and error codes.
pub mod MessageMode
pub mod Service
pub mod PacketOffset
pub mod MessageOffset
pub mod Error
use PacketOffset
use MessageOffset
use peer.Prelude.{ℕ, ◌-◌}
use peer.Prelude.Int.{ℤ, pos, negsuc}

-- PEER_UNDEFINED, for an id, an index or an actor.
abbrev pub undefined : ℤ
undefined = negsuc 0

-- PEER_VERSION and PEER_DEVELOPMENT.
abbrev version : ℕ
version = 1

abbrev development : ℕ
development = 1

abbrev pub address_size : ℕ
address_size = 64

abbrev pub packet_size : ℕ
packet_size = 400

abbrev pub mt64_key_size : ℕ
mt64_key_size = 128

abbrev pub trail_serial_size : ℕ
trail_serial_size = 5

abbrev pub trail_scatter_size : ℕ
trail_scatter_size = 5

abbrev pub trail_scatter_distance : ℕ
trail_scatter_distance = 100

abbrev pub timeout_heartbeat : ℤ
timeout_heartbeat = pos 10

-- Nothing reads the two timeouts below and the mode of encrypted packets yet.
abbrev timeout_ping : ℤ
timeout_ping = pos 200

abbrev timeout_connection : ℤ
timeout_connection = pos 2000

abbrev pub packet_mode_plain : ℕ
packet_mode_plain = 0

abbrev packet_mode_mt64 : ℕ
packet_mode_mt64 = 1

abbrev pub max_message_size : ℕ
max_message_size = packet_size - PacketOffset.messages - MessageOffset.message_data

-- `peer_time_t`, an `int64_t`.
abbrev Time : Type 0
Time = ℤ

-- A `kit_status_t`: the bits of an `int`. `KIT_OK` is 0.
abbrev pub Status : Type 0
Status = ℕ

abbrev pub kit_ok : Status
kit_ok = 0
