-- ===== src/Queue/Order.antt =====
-- source/peer/peer.c: the order in which messages are delivered does not matter to queue_insert.
use peer.Prelude.{
  ℕ, zero, suc, ◌+◌, ◌≡◌, ◌≢◌, refl, sym, ap, ap₂, subst, ◌∙◌, true, List, [], ◌∷◌, Option, none,
  some, ◌>>=◌, >>=_ext, >>=_assoc, arith, leb, length, if◌then◌else◌, Bool-cases, inl, inr, All,
}
use peer.Prelude.Int.{ℤ, pos}
use peer.Serial.{Bytes}
use peer.Kit.{Kit, Array}
use peer.Queue.{Message, Queue, queue_insert}
use peer.Queue.View.{put, ready, is_too_far, insert_at-put}
use mathlib.Core.List.{Permᴰ, Perm}
use mathlib.Core.List.Permᴰ.{nil, cons, swap, trans}
use mathlib.Core.Logic.{∥∥₁_elim}
use native.Mathlib.Decide.{ℕ_discrete}

put_comm : (q : Queue) (i j : ℕ) (m n : Message) → i ≢ j → put (put q i m) j n ≡ put (put q j n) i m
unfolding put
put_comm [] zero zero m n ne = absurd (ne refl)
put_comm [] zero (suc j) m n ne = ground arith
put_comm [] (suc i) zero m n ne = ground arith
put_comm [] (suc i) (suc j) m n ne = ground (arith, put_comm [] i j m n)
put_comm (x ∷ q) zero zero m n ne = absurd (ne refl)
put_comm (x ∷ q) zero (suc j) m n ne = ground arith
put_comm (x ∷ q) (suc i) zero m n ne = ground arith
put_comm (x ∷ q) (suc i) (suc j) m n ne = ground (arith, put_comm q i j m n)

-- A message that has come for a peer's queue.
pub record Delivery : Type 0 where
  pub index : ℕ
  pub time : ℤ
  pub actor : ℤ
  pub payload : Bytes

abbrev pub message_of : Delivery → Message
message_of e = ready e.time e.actor e.payload

-- queue_insert for each delivery in turn.
unfoldable pub deliver : Kit → Queue → List Delivery → Option Queue
deliver kit q [] = some q
deliver kit q (e ∷ es) = do
  (s, q') ← queue_insert kit q (pos e.index) e.time e.actor e.payload
  deliver kit q' es

reach : Queue → ℕ → Message → Option Queue
reach q i m = if is_too_far q i then none else some (put q i m)

put_all : Queue → List Delivery → Option Queue
put_all q [] = some q
put_all q (e ∷ es) = do q' ← reach q e.index (message_of e); put_all q' es

deliver-eq-put_all :
    (kit : Kit) (q : Queue) (es : List Delivery)
    → ((a : Array) (n : ℕ) → kit.fits a n ≡ true)
    → deliver kit q es ≡ put_all q es
unfolding deliver put_all reach queue_insert
deliver-eq-put_all kit q [] room = refl
deliver-eq-put_all kit q (e ∷ es) room =
    rw (insert_at-put kit q e.index e.time e.actor e.payload room)
      (elim (Bool-cases (is_too_far q e.index)) [
        | inl far ↦ rw far refl
        | inr near ↦ rw near (deliver-eq-put_all kit (put q e.index (message_of e)) es room)
      ])

length-put :
    (q : Queue) (i : ℕ) (m : Message)
    → length (put q i m) ≡ (if leb (length q) i then i + 1 else length q)
unfolding put
length-put [] zero m = ground arith
length-put [] (suc i) m = ground (arith, length-put [] i m)
length-put (x ∷ q) zero m = ground arith
length-put (x ∷ q) (suc i) m = ground (arith, length-put q i m)

-- An index that is too far stays so, unless one further away has been reached.
reach_comm :
    (q : Queue) (i j : ℕ) (m n : Message)
    → i ≢ j
    → (reach q i m >>= λ r. reach r j n) ≡ (reach q j n >>= λ r. reach r i m)
unfolding reach
reach_comm q i j m n ne =
    let a = length-put q i m in
    let b = length-put q j n in let c = put_comm q i j m n ne in ground (arith, a, b, c)

-- The deliveries are all taken from one sequence of messages, `history`.
abbrev pub AreOf : (ℕ → Message) → List Delivery → Type 0
AreOf history = All λ e. message_of e ≡ history e.index

module _ (history : ℕ → Message) where
  AreOf-Permᴰ : {ds es : List Delivery} → Permᴰ ds es → AreOf history ds → AreOf history es
  AreOf-Permᴰ nil h = h
  AreOf-Permᴰ (cons e p) (h, hs) =
      (subst (λ a. message_of a ≡ history a.index) e h, AreOf-Permᴰ p hs)
  AreOf-Permᴰ (swap e e') (h, (h', hs)) = (
    subst (λ a. message_of a ≡ history a.index) e' h',
    (subst (λ a. message_of a ≡ history a.index) e h, hs),
  )
  AreOf-Permᴰ (trans p p') h = AreOf-Permᴰ p' (AreOf-Permᴰ p h)

  put_twice :
      (q : Queue) (d e : Delivery)
      → message_of d ≡ history d.index
      → message_of e ≡ history e.index
      → (reach q d.index (message_of d) >>= λ r. reach r e.index (message_of e))
        ≡ (reach q e.index (message_of e) >>= λ r. reach r d.index (message_of d))
  put_twice q d e hd he = elim (ℕ_discrete d.index e.index) [
    | yes same ↦ rw (hd, he, same)
    | no differ ↦ reach_comm q d.index e.index (message_of d) (message_of e) differ
  ]

  put_all-Permᴰ :
      {ds es : List Delivery} (q : Queue)
      → Permᴰ ds es
      → AreOf history ds
      → put_all q ds ≡ put_all q es
  unfolding put_all
  put_all-Permᴰ q nil h = refl
  put_all-Permᴰ q (cons {a = d} {l₂ = l} e p) (h, hs) =
      >>=_ext (reach q d.index (message_of d)) (λ r. put_all-Permᴰ r p hs)
      ∙ ap (λ a. reach q a.index (message_of a) >>= λ r. put_all r l) e
  put_all-Permᴰ q (swap {a = d} {b = d'} {l = l} e e') (h, (h', hs)) =
      sym (>>=_assoc (reach q d.index (message_of d)) _ _)
      ∙ ap (λ x. x >>= λ r. put_all r l) (put_twice q d d' h h')
      ∙ >>=_assoc (reach q d'.index (message_of d')) _ _
      ∙ ap₂ (λ a b. put_all q (a ∷ b ∷ l)) e' e
  put_all-Permᴰ q (trans p p') h = put_all-Permᴰ q p h ∙ put_all-Permᴰ q p' (AreOf-Permᴰ p h)

Queues-set : IsSet (Option Queue)
Queues-set = hlevel

-- With memory to be had, deliveries that are all taken from one sequence of messages leave a queue
-- the same in whatever order they come, a message that comes more than once included; and where in
-- one order the code cannot grow the queue to one of the indexes, it cannot in any order.
pub deliver_perm :
    (kit : Kit) (history : ℕ → Message) (q : Queue) (ds es : List Delivery)
    → ((a : Array) (n : ℕ) → kit.fits a n ≡ true)
    → AreOf history ds
    → Perm ds es
    → deliver kit q ds ≡ deliver kit q es
deliver_perm kit history q ds es room h p =
    deliver-eq-put_all kit q ds room
    ∙ ∥∥₁_elim p (Queues-set _ _) (λ d. put_all-Permᴰ history q d h)
    ∙ sym (deliver-eq-put_all kit q es room)
