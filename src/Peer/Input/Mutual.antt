-- ===== src/Peer/Input/Mutual.antt =====
-- source/peer/peer.c, peer_input: a client's mutual queue comes to agree with its host's.
use peer.Prelude.{
  ℕ, ◌≡◌, refl, sym, ap, subst, ◌∙◌, true, List, [], ◌∷◌, Option, none, some, arith, ==-false,
  eq→==, get_elem?, All,
}
use native.Mathlib.Decide.{ℕ_discrete}
use peer.Options.{Status}
use peer.Serial.{Bytes}
use peer.Kit.{Kit, Array}
use peer.Queue.{Message, Queue}
use peer.Queue.View.{put, lookup, keep_first, lookup-put}
use peer.Peer.{Slot, Peer}
use peer.Peer.Send.Trail.{chunk_at}
use peer.Peer.Receive.Mutual.{IsSent, took, client_chunk_lem}
use peer.Peer.Input.{client_chunks}

-- The messages that have come for the queue `q` are those of the host's queue `h`, each at its index.
abbrev pub Agrees : Queue → Queue → Type 0
Agrees h q = (j : ℕ) (m : Message) → lookup q j ≡ some m → get_elem? h j ≡ some m

-- The chunk of a message that the host can send.
abbrev pub IsSentBy : Queue → Bytes → Type 0
IsSentBy h c = (j : ℕ) × (m : Message) × (get_elem? h j ≡ some m) × IsSent j m × (c ≡ chunk_at j m)

-- The message of the chunk has come for the queue `q`.
abbrev pub HasCome : Queue → Bytes → Type 0
HasCome q c = (j : ℕ) × (m : Message) × (lookup q j ≡ some m) × (c ≡ chunk_at j m)

lookup-put_self :
    (q : Queue) (i : ℕ) (m : Message)
    → m.is_ready ≡ true
    → lookup (put q i m) i ≡ some (keep_first (lookup q i) m)
lookup-put_self q i m r = lookup-put q i i m r ∙ rw (eq→== i i refl)

pub put-holds :
    (q : Queue) (i j : ℕ) (m n : Message)
    → m.is_ready ≡ true
    → lookup q j ≡ some n
    → lookup (put q i m) j ≡ some n
put-holds q i j m n r e = elim (ℕ_discrete i j) [
  | no differ ↦ lookup-put q i j m r ∙ rw (==-false i j differ) e
  | yes same ↦
      let at_i : lookup q i ≡ some n = subst (λ k. lookup q k ≡ some n) (sym same) e in
      subst (λ k. lookup (put q i m) k ≡ some n) same
        (lookup-put_self q i m r ∙ ap (λ o. some (keep_first o m)) at_i)
]

module _ (h : Queue) where
  -- What stands at the index of a message of the host once the message is put there.
  pub put-at :
      (q : Queue) (i : ℕ) (m : Message) (o : Option Message)
      → get_elem? h i ≡ some m
      → m.is_ready ≡ true
      → Agrees h q
      → lookup q i ≡ o
      → lookup (put q i m) i ≡ some m
  put-at q i m none here r agrees e = lookup-put_self q i m r ∙ ap (λ o. some (keep_first o m)) e
  put-at q i m (some old) here r agrees e =
      lookup-put_self q i m r ∙ ap (λ o. some (keep_first o m)) e ∙ sym (agrees i old e) ∙ here

  pub put-Agrees :
      (q : Queue) (i : ℕ) (m : Message)
      → get_elem? h i ≡ some m
      → m.is_ready ≡ true
      → Agrees h q
      → Agrees h (put q i m)
  put-Agrees q i m here r agrees j n e = elim (ℕ_discrete i j) [
    | no differ ↦
        let same_place : lookup (put q i m) j ≡ lookup q j =
          lookup-put q i j m r ∙ rw (==-false i j differ) in
        agrees j n (sym same_place ∙ e)
    | yes same ↦
        subst (λ k. get_elem? h k ≡ some n) same
          (here
            ∙ sym (put-at q i m (lookup q i) here r agrees refl)
            ∙ subst (λ k. lookup (put q i m) k ≡ some n) (sym same) e)
  ]

  module _ {R : Type 0} (kit : Kit) (room : (a : Array) (n : ℕ) → kit.fits a n ≡ true) where
    -- What a client holds after chunks of the host's messages.
    record Caught (status : Status) (slot : Slot) (before : Queue) (cs : List Bytes)
        (r : Option (Status × Peer R × Slot)) : Type 0 where
      peer : Peer R
      result : r ≡ some (status, peer, slot)
      agrees : Agrees h peer.queue
      come : All (HasCome peer.queue) cs
      stay : (j : ℕ) (m : Message) → lookup before j ≡ some m → lookup peer.queue j ≡ some m

    took-queue :
        (i : ℕ) (m : Message) (peer : Peer R) → (took kit room i m peer).queue ≡ put peer.queue i m
    took-queue i m peer = ground arith

    caught :
        (cs : List Bytes) (status : Status) (peer : Peer R) (slot : Slot)
        → Agrees h peer.queue
        → All (IsSentBy h) cs
        → Caught status slot peer.queue cs (client_chunks kit cs status peer slot)
    unfolding client_chunks
    caught [] status peer slot agrees sent = record {
      peer = peer;
      result = refl;
      agrees = agrees;
      come = tt;
      stay = λ j m e. e;
    }
    caught (c ∷ cs) status peer slot agrees ((i, m, here, s, is), sent) =
        let next = took kit room i m peer in
        let q : next.queue ≡ put peer.queue i m = took-queue i m peer in
        let r =
          caught cs status next slot
            (subst (Agrees h) (sym q) (put-Agrees peer.queue i m here s.is_ready agrees)) sent in
        record {
          peer = r.peer;
          result = rw (is, client_chunk_lem kit room i m status peer slot s) r.result;
          agrees = r.agrees;
          come = (
            (
              i,
              m,
              r.stay i m (
                  ap (λ x. lookup x i) q
                  ∙ put-at peer.queue i m (lookup peer.queue i) here s.is_ready agrees refl),
              is,
            ),
            r.come,
          );
          stay = λ j n e.
              r.stay j n (ap (λ x. lookup x j) q ∙ put-holds peer.queue i j m n s.is_ready e);
        }

    -- With memory to be had, a client whose mutual queue agrees with its host's takes in chunks of
    -- the host's messages, in whatever order they come and however often, without an error. Its
    -- mutual queue still agrees with the host's, and the message of every chunk stands in it at its
    -- index.
    pub client_chunks-Agrees :
        (cs : List Bytes) (status : Status) (peer : Peer R) (slot : Slot)
        → Agrees h peer.queue
        → All (IsSentBy h) cs
        → (peer' : Peer R) × (client_chunks kit cs status peer slot ≡ some (status, peer', slot))
          × Agrees h peer'.queue
          × All (HasCome peer'.queue) cs
    client_chunks-Agrees cs status peer slot agrees sent =
        let r = caught cs status peer slot agrees sent in (r.peer, r.result, r.agrees, r.come)
