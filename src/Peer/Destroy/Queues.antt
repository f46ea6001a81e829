-- ===== src/Peer/Destroy/Queues.antt =====
-- source/peer/peer.c, queue_destroy: every array of a queue is released once.
use peer.Prelude.{
  ℕ, suc, ◌+◌, ◌≡◌, refl, ◌∙◌, Bool, true, false, not, ◌&&◌, [], ◌∷◌, Option, some, arith, ltb, leb,
  length,
}
use peer.Queue.{Queue}
use peer.Peer.Destroy.{
  Owner, mutual_queue, slot_queue, Place, slots_array, messages, payload, Live, same_owner,
  same_place, reads, release, reads_queue, queue_destroy,
}

-- The arrays of a queue from the message with the index `k` on, `n` of them.
abbrev pub in_queue : Owner → ℕ → ℕ → Place → Bool
in_queue o k n slots_array = false
in_queue o k n (messages p) = same_owner o p
in_queue o k n (payload p j) = same_owner o p && (leb k j && ltb j (k + n))

-- A memory without the arrays of which `gone` says so.
pub record Without (gone : Place → Bool) (live : Live) (r : Option Live) : Type 0 where
  pub after : Live
  pub result : r ≡ some after
  pub is : (x : Place) → after x ≡ (live x && not (gone x))

same_owner_refl : (o : Owner) → same_owner o o ≡ true
same_owner_refl mutual_queue = refl
same_owner_refl (slot_queue i) = ground arith

-- The queue can be read where it stands.
abbrev pub CanRead : Owner → Live → Type 0
CanRead mutual_queue live = Unit
CanRead (slot_queue i) live = live slots_array ≡ true

reads_queue-some : (o : Owner) (live : Live) → CanRead o live → reads_queue o live ≡ some live
unfolding reads_queue reads
reads_queue-some mutual_queue live h = refl
reads_queue-some (slot_queue i) live h = rw h

-- Releasing one message leaves the others of its queue.
one_less :
    (o : Owner) (k n : ℕ) (x : Place) (b : Bool)
    → ((b && not (same_place (payload o k) x)) && not (in_queue o (k + 1) n x))
      ≡ (b && not (in_queue o k (suc n) x))
one_less o k n slots_array b = ground arith
one_less o k n (messages p) b = ground arith
one_less o k n (payload p j) b = ground arith

none_left :
    (o : Owner) (k : ℕ) (x : Place) (b : Bool)
    → (b && not (same_place (messages o) x)) ≡ (b && not (in_queue o k 0 x))
none_left o k slots_array b = refl
none_left o k (messages p) b = refl
none_left o k (payload p j) b = ground arith

-- An array that is left is not the one that is released first.
still_owned :
    (o : Owner) (k n : ℕ) (x : Place)
    → in_queue o (k + 1) n x ≡ true
    → (in_queue o k (suc n) x ≡ true) × (same_place (payload o k) x ≡ false)
still_owned o k n slots_array e = absurd (cc)
still_owned o k n (messages p) e = (e, refl)
still_owned o k n (payload p j) e = (ground arith, ground arith)

first_owned : (o : Owner) (k n : ℕ) → in_queue o k (suc n) (payload o k) ≡ true
first_owned o k n = let e = same_owner_refl o in ground arith

CanRead-after :
    (o : Owner) (k : ℕ) (live : Live)
    → CanRead o live
    → CanRead o (λ y. live y && not (same_place (payload o k) y))
CanRead-after mutual_queue k live can = tt
CanRead-after (slot_queue i) k live can = rw can

pub queue_destroy-Without :
    (o : Owner) (k : ℕ) (q : Queue) (live : Live)
    → CanRead o live
    → ((x : Place) → in_queue o k (length q) x ≡ true → live x ≡ true)
    → Without (in_queue o k (length q)) live (queue_destroy o k q live)
unfolding queue_destroy reads release
queue_destroy-Without o k [] live can owns = record {
  after = λ y. live y && not (same_place (messages o) y);
  result = rw (reads_queue-some o live can, owns (messages o) (same_owner_refl o));
  is = λ x. none_left o k x (live x);
}
queue_destroy-Without o k (m ∷ q) live can owns =
    let l : Live = λ y. live y && not (same_place (payload o k) y) in
    let r = queue_destroy-Without o (k + 1) q l (CanRead-after o k live can) λ x e.
      let (owned, other) = still_owned o k (length q) x e in
      let there = owns x owned in rw (there, other) in
    record {
      after = r.after;
      result =
          rw
            (
              reads_queue-some o live can,
              owns (messages o) (same_owner_refl o),
              owns (payload o k) (first_owned o k (length q)),
            )
            r.result;
      is = λ x. r.is x ∙ one_less o k (length q) x (live x);
    }
