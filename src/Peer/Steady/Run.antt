-- ===== src/Peer/Steady/Run.antt =====
-- source/peer/peer.c: after whatever calls, a host can be ticked.
use peer.Prelude.{ℕ, ◌≤◌, Option, length}
use peer.Prelude.Post.{Post}
use mathlib.Core.Option
use peer.Options.{Status}
use peer.Options.Error
use peer.Kit
use peer.Kit.{Kit}
use peer.Packet.{Packet}
use peer.Queue.{Queue}
use peer.Peer.{Peer}
use peer.Peer.Log.{Step, opens, connects, queues, inputs, ticks, Run, start, then_step}
use peer.Peer.Steady.{IsSteady}

module _ {R : Type 0} (kit : Kit) where
  abbrev Steady : Status × Peer R → Type 0
  Steady r = IsSteady r.1

module _ {R : Type 0} (generate : R → ℕ × R) where
  -- The data of a call of peer_queue fit a packet.
  abbrev pub Fits : {p q : Peer R} → Step generate p q → Type 0
  Fits (opens kit p ids) = Unit
  Fits (connects p id) = Unit
  Fits (queues kit p data_of) = length data_of ≤ 355
  Fits (inputs kit packets status e) = Unit
  Fits (ticks kit elapsed status packets e) = Unit

  abbrev pub AllFit : {p q : Peer R} → Run generate p q → Type 0
  AllFit start = Unit
  AllFit (then_step run step) = AllFit run × Fits step
