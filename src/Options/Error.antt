-- ===== src/Options/Error.antt =====
-- source/peer/options.h: PEER_ERROR_*.
use peer.Prelude.{◌-◌, ◌^◌}
use peer.Options.{Status}

abbrev pub bad_alloc : Status
bad_alloc = 0x00000001

abbrev invalid_peer : Status
invalid_peer = 0x00000008

abbrev pub invalid_mode : Status
invalid_mode = 0x00000010

abbrev invalid_message : Status
invalid_message = 0x00000020

abbrev pub invalid_id : Status
invalid_id = 0x00000040

abbrev pub invalid_time_elapsed : Status
invalid_time_elapsed = 0x00000080

abbrev pub invalid_message_size : Status
invalid_message_size = 0x00000100

abbrev pub invalid_packet_size : Status
invalid_packet_size = 0x00000200

abbrev pub invalid_message_index : Status
invalid_message_index = 0x00000400

abbrev pub invalid_message_time : Status
invalid_message_time = 0x00000800

abbrev pub invalid_message_actor : Status
invalid_message_actor = 0x00001040

abbrev pub no_free_slots : Status
no_free_slots = 0x00002000

abbrev slot_not_found : Status
slot_not_found = 0x00004000

abbrev pub unknown_service_id : Status
unknown_service_id = 0x00008000

abbrev pub invalid_out_index : Status
invalid_out_index = 0x00010000

abbrev pub time_overflow : Status
time_overflow = 0x00020000

abbrev pub invalid_cipher : Status
invalid_cipher = 0x00000002

abbrev pub invalid_key : Status
invalid_key = 0x00000004

abbrev invalid_slot_state : Status
invalid_slot_state = 0x00040000

abbrev invalid_pool : Status
invalid_pool = 0x00080000

abbrev pub unknown_protocol : Status
unknown_protocol = 0x00100000

abbrev pub invalid_count : Status
invalid_count = 0x00200000

abbrev pub create_socket_failed : Status
create_socket_failed = 0x00400000

abbrev pub make_socket_nonblocking_failed : Status
make_socket_nonblocking_failed = 0x00800000

abbrev pub bind_socket_failed : Status
bind_socket_failed = 0x01000000

abbrev pub get_socket_name_failed : Status
get_socket_name_failed = 0x02000000

abbrev pub invalid_address : Status
invalid_address = 0x04000000

abbrev pub invalid_port : Status
invalid_port = 0x08000000

abbrev pub socket_receive_failed : Status
socket_receive_failed = 0x10000000

abbrev pub socket_send_failed : Status
socket_send_failed = 0x20000000

abbrev pub invalid_socket : Status
invalid_socket = 0x40000000

-- -1, as the bits of a 32-bit `int`.
abbrev pub not_implemented : Status
not_implemented = 2 ^ 32 - 1
