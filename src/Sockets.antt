-- ===== src/Sockets.antt =====
-- source/peer/sockets.h, its branch for systems other than Windows, and what the socket pool asks
-- of the system and of the kit library's string comparison, neither of which is part of the
-- program.
mod Windows
use peer.Prelude.{ℕ, ◌-◌, Bool, bit_and, bit_or}
use peer.Prelude.Int.{ℤ, pos, negsuc}
use peer.Serial.{Bytes}

-- `socket_t`, an `int`, and INVALID_SOCKET.
abbrev pub Socket : Type 0
Socket = ℤ

abbrev pub invalid_socket : Socket
invalid_socket = negsuc 0

-- The fields of a `struct sockaddr_in` that are used, in the network's byte order.
pub record SocketName : Type 0 where
  pub port : ℕ
  pub address : ℕ

-- What recvfrom returns, and what it leaves in `errno`, in the buffer and in the remote name.
pub record Received : Type 0 where
  pub size : ℤ
  pub error : ℤ
  pub buf : Bytes
  pub remote : SocketName

-- The state `W` of the system is passed through every call that may change it. A call that fills a
-- name is given the one that is there before.
pub record Sockets (W : Type 0) : Type 0 where
  pub socket : W → Socket × W
  pub fcntl_getfl : W → Socket → ℤ × W
  pub fcntl_setfl : W → Socket → ℤ → ℤ × W
  pub bind : W → Socket → SocketName → ℤ × W
  pub getsockname : W → Socket → SocketName → ℤ × SocketName × W
  pub recvfrom : W → Socket → Received × W
  pub sendto : W → Socket → Bytes → SocketName → ℤ × W
  pub closesocket : W → Socket → W
  pub htons : ℕ → ℕ
  pub ntohs : ℕ → ℕ
  pub any_address : ℕ
  pub inet_ntop : ℕ → Bytes
  pub inet_pton : Bytes → ℕ → ℤ × ℕ
  pub o_nonblock : ℕ
  pub eagain : ℤ
  -- AR_EQUAL of two strings.
  pub equal : Bytes → Bytes → Bool
  -- Whether DA_RESIZE moves the nodes in memory when it makes them that many.
  pub moves : ℕ → Bool

-- peer_sockets_init, where `ignore_pipe` is `signal(SIGPIPE, SIG_IGN)`, and peer_sockets_cleanup.
unfoldable sockets_init : {W : Type 0} → (ignore_pipe : W → W) → W → ℤ × W
sockets_init ignore_pipe w = (pos 0, ignore_pipe w)

unfoldable sockets_cleanup : {W : Type 0} → W → ℤ × W
sockets_cleanup w = (pos 0, w)

-- `flags | mask` and `flags & ~mask` of an `int`, where `mask` is not negative.
abbrev pub or_mask : ℤ → ℕ → ℤ
or_mask (pos n) mask = pos (bit_or n mask)
or_mask (negsuc n) mask = negsuc (n - bit_and n mask)

abbrev pub and_not_mask : ℤ → ℕ → ℤ
and_not_mask (pos n) mask = pos (n - bit_and n mask)
and_not_mask (negsuc n) mask = negsuc (bit_or n mask)

module _ {W : Type 0} (sys : Sockets W) where
  unfoldable pub set_nonblocking : W → Socket → ℤ × W
  set_nonblocking w s =
      let (flags, w') = sys.fcntl_getfl w s in sys.fcntl_setfl w' s (or_mask flags sys.o_nonblock)

  unfoldable pub set_blocking : W → Socket → ℤ × W
  set_blocking w s =
      let (flags, w') = sys.fcntl_getfl w s in
      sys.fcntl_setfl w' s (and_not_mask flags sys.o_nonblock)
