-- ===== src/Pool/Resolve/Kept.antt =====
-- source/peer/socket_pool.c, resolve_address_and_id: what it keeps of a pool and of a peer.
use peer.Prelude.{
  ℕ, ◌+◌, ◌-◌, ◌≡◌, refl, true, not, ◌&&◌, List, [], ◌∷◌, Option, none, some, ◌>>=◌, bit_or, ltb,
  ◌==◌, length, take, drop, find_index,
}
use peer.Prelude.Int.{ℤ, pos, ◌==ℤ◌}
use peer.Prelude.Post.{Post, post_some, post_none, Post-if, Post-bind, Post-then}
use peer.Prelude.Pairs.{Pairwise}
use peer.Options.{Status, kit_ok, undefined}
use peer.Options.Error
use peer.Kit
use peer.Kit.{Kit}
use peer.Packet.{read_bytes}
use peer.Peer.{Endpoint, Slot, Peer}
use peer.Pool.{
  Node, Pool, Remote, node_of, udp_ipv4, is_remote, remote_node, add_node, find_pool_node,
}
use peer.Pool.Find.{Extends, Extends-refl, Extends-trans}
use peer.Pool.Resolve.{
  is_unresolved, set_local_address, set_remote_node, resolve_address, read_protocol, read_port,
  identify, resolve_port, resolve_id, resolve_slot, resolve_slots, resolve,
}
use peer.Sockets.{Sockets}

-- A slot of which only the endpoints change, and not the local id.
pub record SlotResolved (a b : Slot) : Type 0 where
  pub local_id_is : b.local.id ≡ a.local.id
  pub queue_is : b.queue ≡ a.queue
  pub in_index_is : b.in_index ≡ a.in_index
  pub out_index_is : b.out_index ≡ a.out_index

abbrev SameId : Endpoint → Status × Endpoint → Type 0
SameId e r = r.1.id ≡ e.id

set_local_address-id :
    (node : Node) (e : Endpoint) → Post (λ r. r.id ≡ e.id) (set_local_address node e)
unfolding set_local_address
set_local_address-id node e = Post-bind _ λ d. post_some refl

resolve_address-SameId :
    (pool : Pool) (e : Endpoint) → Post (SameId e) (resolve_address set_local_address pool e)
unfolding resolve_address
resolve_address-SameId pool e =
    Post-if (is_unresolved e.is_address_resolved e.id) (by_node (node_of pool e.id))
      (post_some refl)
  where
    by_node :
        (o : Option Node)
        → Post (SameId e) (elim o [
          | none ↦ some (Error.invalid_id, e)
          | some node ↦ (set_local_address node e >>= λ e'. some (kit_ok, e'))
        ])
    by_node none = post_some refl
    by_node (some node) = Post-then (set_local_address-id node e) λ e' h. post_some h

module _ {W : Type 0} (kit : Kit) (sys : Sockets W) where
  abbrev Grows : {A : Type 0} → Pool → Status × Pool × A → Type 0
  Grows pool r = Extends pool r.1

  find_pool_node-Extends :
      (pool : Pool) (r : Remote) → Post (λ a. Extends pool a.2) (find_pool_node kit sys pool r)
  unfolding find_pool_node add_node
  find_pool_node-Extends pool r =
      Post-if (not (r.protocol ==ℤ udp_ipv4)) (post_some (Extends-refl pool))
        (searched (find_index (is_remote sys r) 0 pool))
    where
      searched :
          (o : Option ℕ)
          → Post
              (λ (a : Status × ℤ × Pool). Extends pool a.2)
              (elim o [ some i ↦ some (kit_ok, pos i, pool) | none ↦ add_node kit sys pool r ])
      searched (some i) = post_some (Extends-refl pool)
      searched none =
          Post-if (not (kit.fits Kit.nodes (length pool + 1))) (post_some (Extends-refl pool)) (
            Post-if ((r.inside && sys.moves (length pool + 1)) && not (length r.address == 0))
              post_none (Post-bind (remote_node r) λ node. post_some (node ∷ [], refl)))

  identify-Grows :
      (pool : Pool) (r : Remote) (e : Endpoint) → Post (Grows pool) (identify kit sys pool r e)
  unfolding identify
  identify-Grows pool r e = Post-then (find_pool_node-Extends pool r) λ a h. post_some h

  resolve_port-Grows :
      (pool : Pool) (e : Endpoint) → Post (Grows pool) (resolve_port kit sys pool e)
  unfolding resolve_port
  resolve_port-Grows pool e =
      Post-if (not e.is_id_resolved && (e.address_size == 3) && not (e.id ==ℤ undefined))
        (by_node (node_of pool e.id)) (post_some (Extends-refl pool))
    where
      by_node :
          (o : Option Node)
          → Post (Grows pool) (elim o [
            | none ↦ some (Error.invalid_id, pool, e)
            | some node ↦ (do
              protocol ← read_protocol e.address_data
              port ← read_port e.address_data
              let address = take node.remote_address_size node.remote_address
              identify kit sys pool
                  (record { protocol = protocol; port = port; address = address; inside = true })
                  e)
          ])
      by_node none = post_some (Extends-refl pool)
      by_node (some node) =
          Post-bind (read_protocol e.address_data)
            λ protocol. Post-bind (read_port e.address_data) λ port. identify-Grows pool _ e

  resolve_id-Grows : (pool : Pool) (e : Endpoint) → Post (Grows pool) (resolve_id kit sys pool e)
  unfolding resolve_id
  resolve_id-Grows pool e =
      Post-if (not e.is_id_resolved && ltb 3 e.address_size)
        (Post-bind (read_protocol e.address_data) λ protocol.
          Post-bind (read_port e.address_data) λ port.
            Post-bind (read_bytes (e.address_size - 3) (drop 3 e.address_data))
              λ address. identify-Grows pool _ e)
        (post_some (Extends-refl pool))

  resolve_slot-Resolved :
      (pool : Pool) (slot : Slot)
      → Post (λ r. Extends pool r.1 × SlotResolved slot r.2) (resolve_slot kit sys pool slot)
  unfolding resolve_slot
  resolve_slot-Resolved pool slot = Post-then (resolve_address-SameId pool slot.local) λ a same.
      Post-bind (resolve_address set_remote_node pool slot.remote) λ b.
        Post-then (resolve_port-Grows pool b.1) λ c h. Post-then (resolve_id-Grows c.1 c.2) λ d k.
          post_some (
            Extends-trans pool c.1 d.1 h k,
            record { local_id_is = same; queue_is = refl; in_index_is = refl; out_index_is = refl },
          )

  resolve_slots-Resolved :
      (pool : Pool) (slots : List Slot) (status : Status)
      → Post
          (λ r. Extends pool r.1 × Pairwise SlotResolved slots r.2)
          (resolve_slots kit sys pool slots status)
  unfolding resolve_slots
  resolve_slots-Resolved pool [] status = post_some (Extends-refl pool, tt)
  resolve_slots-Resolved pool (slot ∷ slots) status =
      Post-then (resolve_slot-Resolved pool slot) λ a h.
        Post-then (resolve_slots-Resolved a.1 slots (bit_or status a.0))
          λ b k. post_some (Extends-trans pool a.1 b.1 h.0 k.0, (h.1, k.1))

  -- What is resolved of a peer.
  pub record Resolved {R : Type 0} (pool : Pool) (peer : Peer R) (result : Status × Pool × Peer R)
      : Type 0 where
    pub extends : Extends pool result.1
    pub peer_is : result.2 ≡ record peer { slots = result.2.slots }
    pub slots : Pairwise SlotResolved peer.slots result.2.slots

  pub resolve-Resolved :
      {R : Type 0} (pool : Pool) (peer : Peer R)
      → Post (Resolved pool peer) (resolve kit sys pool peer)
  unfolding resolve
  resolve-Resolved pool peer =
      Post-then (resolve_slots-Resolved pool peer.slots kit_ok)
        λ a h. post_some (record { extends = h.0; peer_is = refl; slots = h.1 })
