-- ===== src/Pool/Outcome.antt =====
-- source/peer/socket_pool.c: everything that find_pool_node may return.
use peer.Prelude.{
  ◌==◌, get_elem?-last, ℕ, zero, suc, ◌+◌, ◌≤◌, ◌≡◌, ◌≢◌, refl, sym, ap, subst, ◌∙◌, false, not,
  ◌&&◌, Bool-cases, inl, inr, [], ◌∷◌, ◌++◌, append-nil, Option, none, some, Option-cases, arith,
  length, get_elem?, find_index, find_index-some,
}
use peer.Prelude.Int.{ℤ, pos, ◌==ℤ◌}
use peer.Prelude.Post.{Returns, Post, of_post, post_some, post_none, Post-if}
use peer.Options.{Status, kit_ok, undefined}
use peer.Options.Error
use peer.Kit
use peer.Kit.{Kit}
use peer.Sockets.{Sockets}
use peer.Pool.{Node, Pool, Remote, udp_ipv4, is_remote, add_node, find_pool_node}
use peer.Pool.Find.{IsExact, IsFor, Extends, Found, is_remote-IsFor, remote_node-IsFor}

-- An error and the pool as it was, or the id of a node for the address.
pub data Outcome (pool : Pool) (r : Remote) (result : Status × ℤ × Pool) : Type 0 where
  failed : result.0 ≢ kit_ok → result.2 ≡ pool → Outcome pool r result
  found :
      (i : ℕ)
      → result.0 ≡ kit_ok
      → result.1 ≡ pos i
      → Found pool r i result.2
      → Outcome pool r result

module _ {W : Type 0} (kit : Kit) (sys : Sockets W) (exact : IsExact sys) (r : Remote)
    (small : length r.address ≤ 62) where
  add_node-Outcome : (pool : Pool) → Post (Outcome pool r) (add_node kit sys pool r)
  unfolding add_node
  add_node-Outcome pool =
      let (node, made, is_for) = remote_node-IsFor r small in
      rw made (
        Post-if (not (kit.fits Kit.nodes (length pool + 1)))
          (post_some (failed (λ (e : ◌≡◌ {A = ℕ} 1 0). omega arith) refl))
          (Post-if ((r.inside && sys.moves (length pool + 1)) && not (length r.address == 0))
            post_none
            (post_some (
              found (length pool) refl refl (record {
                extends = (node ∷ [], refl);
                few = omega arith;
                closed = (is_for.socket_is, tt);
                node = node;
                here = get_elem?-last pool node;
                is_for = is_for;
              })))))

  pub find_pool_node-Outcome : (pool : Pool) → Post (Outcome pool r) (find_pool_node kit sys pool r)
  unfolding find_pool_node
  find_pool_node-Outcome pool =
      Post-if (not (r.protocol ==ℤ udp_ipv4))
        (post_some (failed (λ (e : ◌≡◌ {A = ℕ} 0x100000 0). omega arith) refl))
        (searched (find_index (is_remote sys r) 0 pool) refl)
    where
      searched :
          (o : Option ℕ)
          → find_index (is_remote sys r) 0 pool ≡ o
          → Post
              (Outcome pool r)
              (elim o [ some i ↦ some (kit_ok, pos i, pool) | none ↦ add_node kit sys pool r ])
      searched none e = add_node-Outcome pool
      searched (some i) e =
          let (k, node, at_k, here, passes) = find_index-some (is_remote sys r) 0 pool i e in
          let same : i ≡ k = omega (arith, at_k) in
          post_some (
            found i refl refl (record {
              extends = ([], sym (append-nil pool));
              few = omega arith;
              closed = tt;
              node = node;
              here = rw same here;
              is_for = is_remote-IsFor sys exact r node passes;
            }))

  add_node-some :
      (pool : Pool)
      → r.inside ≡ false
      → (result : Status × ℤ × Pool) × (add_node kit sys pool r ≡ some result)
  unfolding add_node
  add_node-some pool outside =
      let (node, made, _) = remote_node-IsFor r small in
      let still : (r.inside && sys.moves (length pool + 1)) ≡ false =
        ap (λ b. b && sys.moves (length pool + 1)) outside in
      elim (Bool-cases (kit.fits Kit.nodes (length pool + 1))) [
        | inl fits ↦ ((kit_ok, pos (length pool), pool ++ node ∷ []), rw (fits, still, made))
        | inr full ↦ ((Error.bad_alloc, undefined, pool), rw full)
      ]

  find_pool_node-some :
      (pool : Pool)
      → r.inside ≡ false
      → (result : Status × ℤ × Pool) × (find_pool_node kit sys pool r ≡ some result)
  unfolding find_pool_node
  find_pool_node-some pool outside = elim (Bool-cases (r.protocol ==ℤ udp_ipv4)) [
    | inr other ↦ ((Error.unknown_protocol, kit.word, pool), rw other)
    | inl udp ↦ elim (Option-cases (find_index (is_remote sys r) 0 pool)) [
      | inl new ↦
          let (result, e) = add_node-some pool outside in (result, rw (udp, new, find_pool_node, e))
      | inr (i, old) ↦ ((kit_ok, pos i, pool), rw (udp, old, find_pool_node))
    ]
  ]

  -- It returns where the address is not in the pool itself, whatever memory there is.
  pub find_pool_node-Returns :
      (pool : Pool) → r.inside ≡ false → Returns (Outcome pool r) (find_pool_node kit sys pool r)
  find_pool_node-Returns pool outside =
      let (result, e) = find_pool_node-some pool outside in
      (result, e, of_post (find_pool_node-Outcome pool) e)

pub get_elem?-Extends :
    (pool pool' : Pool) (i : ℕ) (node : Node)
    → Extends pool pool'
    → get_elem? pool i ≡ some node
    → get_elem? pool' i ≡ some node
get_elem?-Extends pool pool' i node (more, e) here = rw e (kept pool i here)
  where
    kept : (p : Pool) (k : ℕ) → get_elem? p k ≡ some node → get_elem? (p ++ more) k ≡ some node
    kept [] k h = absurd (cc)
    kept (x ∷ p) zero h = h
    kept (x ∷ p) (suc k) h = kept p k h

Found-separates :
    (pool pool' pool'' : Pool) (r s : Remote) (i : ℕ)
    → Found pool r i pool'
    → Found pool' s i pool''
    → (r.protocol ≡ s.protocol) × (r.port ≡ s.port) × (r.address ≡ s.address)
Found-separates pool pool' pool'' r s i a b =
    let still = get_elem?-Extends pool' pool'' i a.node b.extends a.here in
    let same : a.node ≡ b.node = cc in
    let f : IsFor r b.node = subst (IsFor r) same a.is_for in
    let g = b.is_for in
    (
      sym f.protocol_is ∙ g.protocol_is,
      sym f.remote_port_is ∙ g.remote_port_is,
      sym f.address_is ∙ g.address_is,
    )

module _ {W : Type 0} (kit : Kit) (sys : Sockets W) (exact : IsExact sys) where
  answer_of :
      (pool pool' : Pool) (r : Remote) (id : ℤ)
      → length r.address ≤ 62
      → find_pool_node kit sys pool r ≡ some (kit_ok, id, pool')
      → (i : ℕ) × (id ≡ pos i) × Found pool r i pool'
  answer_of pool pool' r id small e =
      elim (of_post (find_pool_node-Outcome kit sys exact r small pool) e) [
        | failed bad _ ↦ absurd (bad refl)
        | found i _ is f ↦ (i, is, f)
      ]

  -- Where find_pool_node gives one id for two addresses, the second time in the pool that it left
  -- the first time, the two have the same protocol, port and bytes. The comparison of strings is
  -- exact, and the addresses fit a node.
  pub find_pool_node-separates :
      (pool pool' pool'' : Pool) (r s : Remote) (id : ℤ)
      → length r.address ≤ 62
      → length s.address ≤ 62
      → find_pool_node kit sys pool r ≡ some (kit_ok, id, pool')
      → find_pool_node kit sys pool' s ≡ some (kit_ok, id, pool'')
      → (r.protocol ≡ s.protocol) × (r.port ≡ s.port) × (r.address ≡ s.address)
  find_pool_node-separates pool pool' pool'' r s id small small' e e' =
      let (i, is_i, f) = answer_of pool pool' r id small e in
      let (j, is_j, g) = answer_of pool' pool'' s id small' e' in
      let same : j ≡ i = cc in
      Found-separates pool pool' pool'' r s i f (subst (λ k. Found pool' s k pool'') same g)
