-- ===== src/Sockets/Windows.antt =====
-- source/peer/sockets.h, its branch for Windows, and what it asks of Winsock.
use peer.Prelude.{ℕ, not, if◌then◌else◌}
use peer.Prelude.Int.{ℤ, pos, negsuc, ◌==ℤ◌}
use peer.Sockets.{Socket}

-- The state `W` of the system is passed through every call.
record Winsock (W : Type 0) : Type 0 where
  wsa_startup : W → ℕ → ℤ × W
  wsa_cleanup : W → W
  ioctlsocket : W → Socket → ℤ → ℕ → ℤ × W
  makeword : ℕ → ℕ → ℕ
  error_success : ℤ
  fionbio : ℤ

module _ {W : Type 0} (sys : Winsock W) where
  unfoldable sockets_init : W → ℤ × W
  sockets_init w =
      let (r, w') = sys.wsa_startup w (sys.makeword 2 2) in
      (if not (r ==ℤ sys.error_success) then negsuc 0 else pos 0, w')

  unfoldable sockets_cleanup : W → ℤ × W
  sockets_cleanup w = (pos 0, sys.wsa_cleanup w)

  -- `ioctlsocket` with FIONBIO and the flag.
  abbrev set_mode : ℕ → W → Socket → ℤ × W
  set_mode flag w s =
      let (r, w') = sys.ioctlsocket w s sys.fionbio flag in
      (if r ==ℤ negsuc 0 then negsuc 0 else pos 0, w')

  unfoldable set_blocking : W → Socket → ℤ × W
  set_blocking w s = set_mode 0 w s

  unfoldable set_nonblocking : W → Socket → ℤ × W
  set_nonblocking w s = set_mode 1 w s
