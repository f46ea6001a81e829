-- ===== src/Pool/Tick/Kept.antt =====
-- source/peer/socket_pool.c, peer_pool_tick: what it keeps of a pool and of a host.
use peer.Prelude.{ℕ, ◌≤◌, ◌≡◌, refl, sym, ap, subst, ◌∙◌, List, some, arith, bit_or}
use peer.Prelude.Int.{ℤ, pos, ltb_ℤ}
use peer.Prelude.Post.{Post, of_post, from_result, post_some, Post-if, Post-bind, Post-then}
use peer.Prelude.Pairs.{Pairwise, Pairwise-refl, Pairwise-trans, Pairwise-map}
use peer.Options.{Status}
use peer.Kit.{Kit}
use peer.Packet.{Packet}
use peer.Peer.{Slot, Peer}
use peer.Peer.Kept.{Stays, Stays-refl, Stays-trans, SlotKept}
use peer.Peer.Input.{input}
use peer.Peer.Input.Frame.{input-PeerKept}
use peer.Peer.Log.{LogStep, LogRun, here, next, IsHost, log_of}
use peer.Peer.Log.Input.{SameLog, SameLog-LogStep, input-SameLog}
use peer.Peer.Log.Tick.{tick-LogStep}
use peer.Peer.Tick.{tick}
use peer.Peer.Tick.Frame.{tick-AfterTick}
use peer.Peer.Tick.Kept.{SlotTicked}
use peer.Pool.{Pool}
use peer.Pool.Find.{Extends, Extends-refl, Extends-trans}
use peer.Pool.Resolve.{resolve}
use peer.Pool.Resolve.Kept.{SlotResolved, resolve-Resolved}
use peer.Pool.Tick.{receive, send_packets, pool_tick_on, pool_tick}
use peer.Pool.Tick.Packets.{IsSystem}
use peer.Pool.Tick.Receive.{receive_total}
use peer.Sockets.{Sockets}

-- A slot keeps its local id and the messages that have come, and its places in the queues do not go
-- back.
pub record SlotServed (a b : Slot) : Type 0 where
  pub local_id_is : b.local.id ≡ a.local.id
  pub in_index_le : a.in_index ≤ b.in_index
  pub out_index_le : a.out_index ≤ b.out_index
  pub stays : Stays a.queue b.queue

SlotServed-refl : (a : Slot) → SlotServed a a
SlotServed-refl a = record {
  local_id_is = refl;
  in_index_le = omega arith;
  out_index_le = omega arith;
  stays = Stays-refl a.queue;
}

SlotServed-trans : (a b c : Slot) → SlotServed a b → SlotServed b c → SlotServed a c
SlotServed-trans a b c h k = record {
  local_id_is = k.local_id_is ∙ h.local_id_is;
  in_index_le = omega (arith, h.in_index_le, k.in_index_le);
  out_index_le = omega (arith, h.out_index_le, k.out_index_le);
  stays = Stays-trans a.queue b.queue c.queue h.stays k.stays;
}

resolved-SlotServed : (a b : Slot) → SlotResolved a b → SlotServed a b
resolved-SlotServed a b h = record {
  local_id_is = h.local_id_is;
  in_index_le = omega (arith, h.in_index_is);
  out_index_le = omega (arith, h.out_index_is);
  stays = subst (Stays a.queue) (sym h.queue_is) (Stays-refl a.queue);
}

kept-SlotServed : (a b : Slot) → SlotKept a b → SlotServed a b
kept-SlotServed a b h = record {
  local_id_is = ap (λ e. e.id) h.local_is;
  in_index_le = omega (arith, h.in_index_is);
  out_index_le = omega (arith, h.out_index_is);
  stays = h.stays;
}

ticked-SlotServed : (a b : Slot) → SlotTicked a b → SlotServed a b
ticked-SlotServed a b h = record {
  local_id_is = ap (λ e. e.id) h.local_is;
  in_index_le = h.in_index_le;
  out_index_le = h.out_index_le;
  stays = subst (Stays a.queue) (sym h.queue_is) (Stays-refl a.queue);
}

-- A host after calls of which each is a step of its log.
pub record Served {R : Type 0} (p q : Peer R) : Type 0 where
  pub is_host : IsHost q
  pub log : LogRun (log_of p) (log_of q)
  pub slots : Pairwise SlotServed p.slots q.slots

module _ {R : Type 0} where
  Served-refl : (p : Peer R) → IsHost p → Served p p
  Served-refl p h = record {
    is_host = h;
    log = here;
    slots = Pairwise-refl SlotServed SlotServed-refl p.slots;
  }

  Served-step :
      (p q r : Peer R)
      → Served p q
      → IsHost r × LogStep (log_of q) (log_of r)
      → Pairwise SlotServed q.slots r.slots
      → Served p r
  Served-step p q r h (k, step) slots = record {
    is_host = k;
    log = next h.log step;
    slots = Pairwise-trans SlotServed SlotServed-trans p.slots q.slots r.slots h.slots slots;
  }

module _ {R W : Type 0} (kit : Kit) (sys : Sockets W) (generate : R → ℕ × R) where
  resolve-Served :
      (pool : Pool) (p : Peer R)
      → IsHost p
      → Post (λ r. Extends pool r.1 × Served p r.2) (resolve kit sys pool p)
  resolve-Served pool p h = from_result _ λ r e.
      let d = of_post (resolve-Resolved kit sys pool p) e in
      let same : SameLog p r.2 = record {
        mode_is = ap (λ x. x.mode) d.peer_is;
        queue_is = ap (λ x. x.queue) d.peer_is;
        index_is = ap (λ x. x.queue_index) d.peer_is;
        time_is = ap (λ x. x.time_local) d.peer_is;
      } in
      (
        d.extends,
        Served-step p p r.2 (Served-refl p h) (SameLog-LogStep p r.2 h same)
            (Pairwise-map SlotResolved SlotServed resolved-SlotServed p.slots r.2.slots d.slots),
      )

  input-Served :
      (p q : Peer R) (packets : List Packet)
      → Served p q
      → Post (λ r. Served p r.1) (input kit q packets)
  input-Served p q packets h = from_result _ λ r e.
      let kept = input-PeerKept kit q r.1 packets r.0 e in
      Served-step p q r.1 h
        (SameLog-LogStep q r.1 h.is_host (input-SameLog kit q r.1 packets r.0 h.is_host.mode_is e))
        (Pairwise-map SlotKept SlotServed kept-SlotServed q.slots r.1.slots kept.slots)

  tick-Served :
      (p q : Peer R) (elapsed : ℤ)
      → Served p q
      → Post (λ r. Served p r.1) (tick kit generate q elapsed)
  tick-Served p q elapsed h = from_result _ λ r e.
      let host = h.is_host in
      let after = tick-AfterTick kit generate q r.1 elapsed r.0 r.2 host.index_in host.time_in e in
      Served-step p q r.1 h (tick-LogStep kit generate q r.1 elapsed r.0 r.2 host e)
        (Pairwise-map SlotTicked SlotServed ticked-SlotServed q.slots r.1.slots after.kept.slots)

  module _ (known : IsSystem sys) where
    receive-Extends :
        (pool : Pool) (status : Status) (w : W)
        → Post (λ r. Extends pool r.1) (receive kit sys pool status w)
    receive-Extends pool status w =
        let (s, pool', packets, w', e, extends, _) = receive_total kit sys known pool status w in
        subst (Post (λ r. Extends pool r.1)) (sym e) (post_some extends)

    pool_tick_on-Served :
        (pool : Pool) (p : Peer R) (elapsed : ℤ) (w : W)
        → IsHost p
        → Post
            (λ r. Extends pool r.1 × Served p r.2)
            (pool_tick_on kit sys generate pool p elapsed w)
    unfolding pool_tick_on
    pool_tick_on-Served pool p elapsed w h = Post-then (resolve-Served pool p h) λ a (x, served).
        Post-then (receive-Extends a.1 a.0 w) λ b y.
          Post-then (input-Served p a.2 b.2 served) λ c served'.
            Post-then (tick-Served p c.1 elapsed served') λ d served''.
              Post-bind (send_packets kit sys b.1 d.2 (bit_or b.0 c.0) b.3)
                λ e. post_some (Extends-trans pool a.1 b.1 x y, served'')

    -- Where the system keeps to what it promises, peer_pool_tick of a host, whatever comes, keeps
    -- the pool's nodes, each with its id, and does to the host's log only steps of it: what the
    -- host has taken in for good stays, and what it adds is behind that, with the time of its
    -- clock. It keeps the slots in number and order, each with its local id and the messages that
    -- have come, and moves their places in the queues only forward. The host is one whose place in
    -- the mutual queue is in it, whose time is at most INT64_MAX and whose messages are all there,
    -- and it stays so.
    pub pool_tick-Served :
        (pool pool' : Pool) (p q : Peer R) (elapsed : ℤ) (status : Status) (w w' : W)
        → IsHost p
        → pool_tick kit sys generate pool p elapsed w ≡ some (status, pool', q, w')
        → Extends pool pool' × Served p q
    unfolding pool_tick
    pool_tick-Served pool pool' p q elapsed status w w' h e =
        of_post {P = λ r. Extends pool r.1 × Served p r.2}
          (Post-if (ltb_ℤ elapsed (pos 0)) (post_some (Extends-refl pool, Served-refl p h))
            (pool_tick_on-Served pool p elapsed w h))
          e
