-- ===== src/Peer/Delivery/Sent.antt =====
-- source/peer/peer.c: what queue_pack packs for a client gets there.
use peer.Prelude.{
  get_elem?-drop, ℕ, zero, suc, ◌+◌, ◌<◌, ◌≡◌, refl, sym, ap, subst, ◌∙◌, true, List, [], ◌∷◌, ◌++◌,
  Option, Option-cases, none, some, inl, inr, arith, get_elem?, length, take, drop, All, All-append,
  All-get_elem?,
}
use peer.Prelude.Int.{ℤ, pos, pos_part}
use peer.Options.{kit_ok}
use peer.Serial.{Bytes}
use peer.Kit.{Kit, Array}
use peer.Packet.{Packet}
use peer.Packet.Pack.{AllSealed, nil, cons}
use peer.Queue.{Message, Queue}
use peer.Queue.View.{lookup}
use peer.Peer.{Peer}
use peer.Peer.Delivery.{Sends, Came, IsClient, input-Came}
use peer.Peer.Input.{input}
use peer.Peer.Input.Mutual.{Agrees, IsSentBy, HasCome}
use peer.Peer.Receive.{Fields, read_fields}
use peer.Peer.Receive.Mutual.{IsSent, read_fields_lem}
use peer.Peer.Send.{queue_pack}
use peer.Peer.Send.Trail.{IsSmall, IsOlder, chunk_at, chunks_from}
use peer.Peer.Send.Pack.{recent, queue_pack_lem}

-- Every message of the queue can be sent.
abbrev pub IsSendable : Queue → Type 0
IsSendable h = (j : ℕ) (m : Message) → get_elem? h j ≡ some m → IsSent j m

-- Packets, each one of `packets`.
abbrev pub AreAmong : List Packet → List Packet → Type 0
AreAmong packets arrived = All (λ p. (k : ℕ) × (get_elem? packets k ≡ some p)) arrived

pub All-split : (P : Bytes → Type 0) (xs ys : List Bytes) → All P (xs ++ ys) → All P xs × All P ys
All-split P [] ys h = (tt, h)
All-split P (x ∷ xs) ys (a, h) = let (b, c) = All-split P xs ys h in ((a, b), c)

get_elem?-take :
    (n : ℕ) (q : Queue) (k : ℕ) (m : Message)
    → get_elem? (take n q) k ≡ some m
    → get_elem? q k ≡ some m
get_elem?-take zero q k m e = absurd (cc)
get_elem?-take (suc n) [] k m e = absurd (cc)
get_elem?-take (suc n) (x ∷ q) zero m e = e
get_elem?-take (suc n) (x ∷ q) (suc k) m e = get_elem?-take n q k m e

module _ (h : Queue) (sendable : IsSendable h) where
  -- The queue `q` is a part of `h` from the index `i` on.
  abbrev StandsAt : ℕ → Queue → Type 0
  StandsAt i q = (k : ℕ) (m : Message) → get_elem? q k ≡ some m → get_elem? h (i + k) ≡ some m

  first-StandsAt : (i : ℕ) (x : Message) (q : Queue) → StandsAt i (x ∷ q) → get_elem? h i ≡ some x
  first-StandsAt i x q at = subst (λ n. get_elem? h n ≡ some x) (omega arith) (at 0 x refl)

  rest-StandsAt : (i : ℕ) (x : Message) (q : Queue) → StandsAt i (x ∷ q) → StandsAt (i + 1) q
  rest-StandsAt i x q at k m e = subst (λ n. get_elem? h n ≡ some m) (omega arith) (at (suc k) m e)

  whole-StandsAt : StandsAt 0 h
  whole-StandsAt k m e = subst (λ n. get_elem? h n ≡ some m) (omega arith) e

  drop-StandsAt : (i : ℕ) → StandsAt i (drop i h)
  drop-StandsAt i k m e = sym (get_elem?-drop i h k) ∙ e

  take-StandsAt : (n i : ℕ) (q : Queue) → StandsAt i q → StandsAt i (take n q)
  take-StandsAt n i q at k m e = at k m (get_elem?-take n q k m e)

  all-IsSmall : (q : Queue) (i : ℕ) → StandsAt i q → All IsSmall q
  all-IsSmall [] i at = tt
  all-IsSmall (x ∷ q) i at = (
    (sendable i x (first-StandsAt i x q at)).small,
    all-IsSmall q (i + 1) (rest-StandsAt i x q at),
  )

  chunks_sent : (q : Queue) (i : ℕ) → StandsAt i q → All (IsSentBy h) (chunks_from i q)
  chunks_sent [] i at = tt
  chunks_sent (x ∷ q) i at =
      let here = first-StandsAt i x q at in
      ((i, x, here, sendable i x here, refl), chunks_sent q (i + 1) (rest-StandsAt i x q at))

  older_sent : (index : ℕ) (cs : List Bytes) → All (IsOlder h index) cs → All (IsSentBy h) cs
  older_sent index [] a = tt
  older_sent index (c ∷ cs) ((j, m, _, e, is), a) =
      ((j, m, e, sendable j m e, is), older_sent index cs a)

  all-Sends :
      (s d : ℤ) {ps : List Packet} {cs : List Bytes}
      → AllSealed s d ps cs
      → All (IsSentBy h) cs
      → All (Sends h s d) ps
  all-Sends s d nil a = tt
  all-Sends s d (cons {p} {ps} {cs = cs} {ds = ds} v vs e) a =
      let (b, c) = All-split (IsSentBy h) cs ds (subst (All (IsSentBy h)) e a) in
      (record { chunks = cs; sealed = v; sent = b }, all-Sends s d vs c)

pub all_come :
    (s d : ℤ) (q : Queue) {ps : List Packet} {cs : List Bytes}
    → AllSealed s d ps cs
    → All (Came s d q) ps
    → All (HasCome q) cs
all_come s d q nil a = tt
all_come s d q (cons {cs = cs} {ds = ds} v vs e) (a, b) =
    subst (All (HasCome q)) (sym e) (All-append (HasCome q) cs ds (a cs v) (all_come s d q vs b))

pub All-among :
    (P : Packet → Type 0) (packets arrived : List Packet)
    → All P packets
    → AreAmong packets arrived
    → All P arrived
All-among P packets [] h a = tt
All-among P packets (p ∷ ps) h ((k, e), a) =
    (All-get_elem? P packets k p h e, All-among P packets ps h a)

pub chunks_from-all :
    (P : Bytes → Type 0) (i : ℕ) (q : Queue) (k : ℕ) (m : Message)
    → All P (chunks_from i q)
    → get_elem? q k ≡ some m
    → P (chunk_at (i + k) m)
chunks_from-all P i [] k m h e = absurd (cc)
chunks_from-all P i (x ∷ q) zero m (a, b) e =
    let same : x ≡ m = cc in
    let z : i + 0 ≡ i = omega arith in rw z (subst (λ y. P (chunk_at i y)) same a)
chunks_from-all P i (x ∷ q) (suc k) m (a, b) e =
    let z : i + suc k ≡ i + 1 + k = omega arith in rw z (chunks_from-all P (i + 1) q k m b e)

abbrev index_of : Option Fields → ℤ
index_of none = pos 0
index_of (some f) = f.index

-- The index of a chunk is read back, so that the chunks of two places differ.
chunk_at-index :
    (i j : ℕ) (m n : Message) → IsSent i m → IsSent j n → chunk_at i m ≡ chunk_at j n → i ≡ j
chunk_at-index i j m n s t e =
    let a = read_fields_lem i m s in
    let b = read_fields_lem j n t in
    let same : pos i ≡ pos j = ap index_of (sym a ∙ ap read_fields e ∙ b) in ap pos_part same

module _ (h : Queue) (sendable : IsSendable h) where
  pub come_at :
      (q : Queue) (j : ℕ) (m : Message)
      → Agrees h q
      → get_elem? h j ≡ some m
      → HasCome q (chunk_at j m)
      → lookup q j ≡ some m
  come_at q j m agrees here (i, n, e, is) =
      let there = agrees i n e in
      let same : j ≡ i = chunk_at-index j i m n (sendable j m here) (sendable i n there) is in
      let eq : n ≡ m = let x = ap (get_elem? h) same in cc in
      subst (λ x. lookup q x ≡ some m) (sym same) (e ∙ ap some eq)

  -- Nothing but what the host has stands in an agreeing queue.
  pub lookup-get_elem? :
      (q : Queue) (j : ℕ)
      → Agrees h q
      → ((m : Message) → get_elem? h j ≡ some m → lookup q j ≡ some m)
      → lookup q j ≡ get_elem? h j
  lookup-get_elem? q j agrees back = elim (Option-cases (get_elem? h j)) [
    | inr (m, e) ↦ back m e ∙ sym e
    | inl e ↦ elim (Option-cases (lookup q j)) [
      | inl e' ↦ e' ∙ sym e
      | inr (m, e') ↦ let x = agrees j m e' in absurd (cc)
    ]
  ]

pub sendable-IsSmall : (h : Queue) → IsSendable h → All IsSmall h
sendable-IsSmall h sendable = all-IsSmall h sendable h 0 (whole-StandsAt h sendable)

module _ {R : Type 0} (kit : Kit) (generate : R → ℕ × R)
    (room : (a : Array) (n : ℕ) → kit.fits a n ≡ true) (h : Queue) (sendable : IsSendable h)
    (index : ℕ) (s d : ℤ) (rng rng' : R) (inside : index < length h) (packets : List Packet)
    (packed : queue_pack kit generate h index s d [] rng ≡ some (kit_ok, packets, rng')) where
  -- What is packed.
  pub packed-Sends :
      (older : List Bytes) × AllSealed s d packets (chunks_from index (drop index h) ++ older)
      × All (Sends h s d) packets
  packed-Sends =
      let small = sendable-IsSmall h sendable in
      let (ps, picked, r, e, seals, picks) =
        queue_pack_lem kit generate room h small index s d [] rng inside in
      let same : ps ≡ packets = cc in
      let older = recent h index ++ picked in
      let seals' : AllSealed s d packets (chunks_from index (drop index h) ++ older) =
        subst (λ x. AllSealed s d x (chunks_from index (drop index h) ++ older)) same seals in
      let sent : All (IsSentBy h) (chunks_from index (drop index h) ++ older) =
        All-append (IsSentBy h) (chunks_from index (drop index h)) older
          (chunks_sent h sendable (drop index h) index (drop-StandsAt h sendable index))
          (All-append (IsSentBy h) (recent h index) picked
            (chunks_sent h sendable _ _
              (take-StandsAt h sendable _ _ _ (drop-StandsAt h sendable _)))
            (older_sent h sendable index picked picks)) in
      (older, seals', all-Sends h sendable s d seals' sent)

module _ {R S : Type 0} (kit kit' : Kit) (generate : R → ℕ × R)
    (room : (a : Array) (n : ℕ) → kit.fits a n ≡ true)
    (room' : (a : Array) (n : ℕ) → kit'.fits a n ≡ true) (h : Queue) (sendable : IsSendable h)
    (index : ℕ) (s d : ℤ) (rng rng' : R) (inside : index < length h) (packets : List Packet)
    (packed : queue_pack kit generate h index s d [] rng ≡ some (kit_ok, packets, rng'))
    (arrived : List Packet) (among : AreAmong packets arrived) (peer : Peer S)
    (is_client : IsClient s d peer) (agrees : Agrees h peer.queue) where
  -- A client whose mutual queue agrees with its host's takes in packets of queue_pack, whichever
  -- of them come, in any order and however often, without an error, and its mutual queue agrees
  -- with the host's then. The queue and the client are any with memory to be had, with an index
  -- below the size of the queue, all of whose messages can be sent.
  pub input-Agrees :
      (peer' : Peer S) × (input kit' peer arrived ≡ some (kit_ok, peer')) × Agrees h peer'.queue
  input-Agrees =
      let (older, seals, sends) =
        packed-Sends kit generate room h sendable index s d rng rng' inside packets packed in
      let (peer', ran, still, _) =
        input-Came h s d kit' room' arrived peer is_client agrees
          (All-among (Sends h s d) packets arrived sends among) in
      (peer', ran, still)

  -- Once every packet of queue_pack has come, in any order and however often, a client's mutual
  -- queue is that of its host from the index on: the message of every place from there on has come
  -- to its place, and behind the last of them there is none. The conditions are memory to be had,
  -- an index below the size of the queue, messages that can all be sent, and a client that agreed
  -- with the host.
  pub input_complete :
      AreAmong arrived packets
      → (peer' : Peer S) × (input kit' peer arrived ≡ some (kit_ok, peer'))
        × ((k : ℕ) → lookup peer'.queue (index + k) ≡ get_elem? h (index + k))
  input_complete all =
      let (older, seals, sends) =
        packed-Sends kit generate room h sendable index s d rng rng' inside packets packed in
      let (peer', ran, still, came) =
        input-Came h s d kit' room' arrived peer is_client agrees
          (All-among (Sends h s d) packets arrived sends among) in
      let chunks = chunks_from index (drop index h) in
      let come : All (HasCome peer'.queue) chunks =
        (All-split (HasCome peer'.queue) chunks older (
          all_come s d peer'.queue seals
            (All-among (Came s d peer'.queue) arrived packets came all))).0 in
      (
        peer',
        ran,
        λ k. lookup-get_elem? h sendable peer'.queue (index + k) still λ m e.
            come_at h sendable peer'.queue (index + k) m still e (
              chunks_from-all (HasCome peer'.queue) index (drop index h) k m come
                (get_elem?-drop index h k ∙ e)),
      )
