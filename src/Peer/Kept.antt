-- ===== src/Peer/Kept.antt =====
-- source/peer/peer.c: what peer_input keeps of a slot and of a peer, whatever it is called with.
use peer.Prelude.{◌⊎◌, inl, inr, ℕ, ◌≡◌, refl, ◌∙◌, sym, List, [], ◌∷◌, some, arith}
use peer.Prelude.Int.{ℤ, ◌≤ℤ◌}
use peer.Prelude.Pairs.{Pairwise, Pairwise-refl, Pairwise-trans}
use peer.Options.{undefined}
use peer.Queue.{Message, Queue}
use peer.Queue.View.{lookup}
use peer.Peer.{Endpoint, Slot, Peer}
use peer.Peer.Receive.{set_actors}

-- A message that has come stays, with its time and its bytes; its actor may be set again.
abbrev pub Stays : Queue → Queue → Type 0
Stays q q' =
    (j : ℕ) (m : Message)
    → lookup q j ≡ some m
    → (n : Message) × (lookup q' j ≡ some n) × (n.time ≡ m.time) × (n.payload ≡ m.payload)

pub Stays-refl : (q : Queue) → Stays q q
Stays-refl q j m h = (m, h, refl, refl)

pub Stays-trans : (p q r : Queue) → Stays p q → Stays q r → Stays p r
Stays-trans p q r h k j m e =
    let (n, e', t, b) = h j m e in let (o, e'', t', b') = k j n e' in (o, e'', t' ∙ t, b' ∙ b)

pub set_actors-Stays : (actor : ℤ) (q : Queue) → Stays q (set_actors actor q)
unfolding lookup
set_actors-Stays actor [] j m e = absurd (cc)
set_actors-Stays actor (x ∷ q) ℕ.zero m e =
    (record x { actor = actor }, ground arith, ground arith, ground arith)
set_actors-Stays actor (x ∷ q) (ℕ.suc j) m e = set_actors-Stays actor q j m e

-- A slot keeps its local endpoint, its place in both queues, the peer that it is for, once it has
-- one, and the messages that have come.
pub record SlotKept (a b : Slot) : Type 0 where
  pub local_is : b.local ≡ a.local
  pub in_index_is : b.in_index ≡ a.in_index
  pub out_index_is : b.out_index ≡ a.out_index
  pub remote_is : (a.remote.id ≡ undefined) ⊎ (b.remote.id ≡ a.remote.id)
  pub stays : Stays a.queue b.queue

pub SlotKept-refl : (a : Slot) → SlotKept a a
SlotKept-refl a = record {
  local_is = refl;
  in_index_is = refl;
  out_index_is = refl;
  remote_is = inr refl;
  stays = Stays-refl a.queue;
}

-- A slot of which only the queue changes, or the queue and where its remote peer is.
pub SlotKept-queue : (a : Slot) (q : Queue) → Stays a.queue q → SlotKept a (record a { queue = q })
SlotKept-queue a q h = record {
  local_is = refl;
  in_index_is = refl;
  out_index_is = refl;
  remote_is = inr refl;
  stays = h;
}

pub SlotKept-remote :
    (a : Slot) (r : Endpoint) (q : Queue)
    → r.id ≡ a.remote.id
    → Stays a.queue q
    → SlotKept a (record a { remote = r; queue = q })
SlotKept-remote a r q e h = record {
  local_is = refl;
  in_index_is = refl;
  out_index_is = refl;
  remote_is = inr e;
  stays = h;
}

pub SlotKept-trans : (a b c : Slot) → SlotKept a b → SlotKept b c → SlotKept a c
SlotKept-trans a b c h k = record {
  local_is = k.local_is ∙ h.local_is;
  in_index_is = k.in_index_is ∙ h.in_index_is;
  out_index_is = k.out_index_is ∙ h.out_index_is;
  remote_is = remote_trans h.remote_is k.remote_is;
  stays = Stays-trans a.queue b.queue c.queue h.stays k.stays;
}
  where
    remote_trans :
        {x y z : ℤ}
        → (x ≡ undefined) ⊎ (y ≡ x)
        → (y ≡ undefined) ⊎ (z ≡ y)
        → (x ≡ undefined) ⊎ (z ≡ x)
    remote_trans (inl e) r = inl e
    remote_trans (inr e) (inl f) = inl (sym e ∙ f)
    remote_trans (inr e) (inr f) = inr (f ∙ e)

-- A peer keeps its mode and its local clock, what it has sent of the mutual queue, its slots, one
-- by one, and the messages of the mutual queue; and the mutual time does not go back.
pub record PeerKept {R : Type 0} (p q : Peer R) : Type 0 where
  pub mode_is : q.mode ≡ p.mode
  pub time_local_is : q.time_local ≡ p.time_local
  pub queue_index_is : q.queue_index ≡ p.queue_index
  pub mt64_is : q.mt64 ≡ p.mt64
  pub time_le : p.time ≤ℤ q.time
  pub stays : Stays p.queue q.queue
  pub slots : Pairwise SlotKept p.slots q.slots

module _ {R : Type 0} where
  pub PeerKept-refl : (p : Peer R) → PeerKept p p
  PeerKept-refl p = record {
    mode_is = refl;
    time_local_is = refl;
    queue_index_is = refl;
    mt64_is = refl;
    time_le = omega arith;
    stays = Stays-refl p.queue;
    slots = Pairwise-refl SlotKept SlotKept-refl p.slots;
  }

  -- A peer of which only the actor, the time, the mutual queue or the slots change.
  pub PeerKept-fields :
      (p : Peer R) (t actor : ℤ) (q : Queue) (slots : List Slot)
      → p.time ≤ℤ t
      → Stays p.queue q
      → Pairwise SlotKept p.slots slots
      → PeerKept p (record p { time = t; actor = actor; queue = q; slots = slots })
  PeerKept-fields p t actor q slots le h k = record {
    mode_is = refl;
    time_local_is = refl;
    queue_index_is = refl;
    mt64_is = refl;
    time_le = le;
    stays = h;
    slots = k;
  }

  pub PeerKept-trans : (p q r : Peer R) → PeerKept p q → PeerKept q r → PeerKept p r
  PeerKept-trans p q r h k = record {
    mode_is = k.mode_is ∙ h.mode_is;
    time_local_is = k.time_local_is ∙ h.time_local_is;
    queue_index_is = k.queue_index_is ∙ h.queue_index_is;
    mt64_is = k.mt64_is ∙ h.mt64_is;
    time_le = omega (arith, h.time_le, k.time_le);
    stays = Stays-trans p.queue q.queue r.queue h.stays k.stays;
    slots = Pairwise-trans SlotKept SlotKept-trans p.slots q.slots r.slots h.slots k.slots;
  }
