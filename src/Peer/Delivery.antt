-- ===== src/Peer/Delivery.antt =====
-- source/peer/peer.c: a client takes in the packets of its host, whichever of them come, in any
-- order and however often.
pub mod Sent
pub mod ToHost
pub mod Ticked
mod Tests
use peer.Prelude.{
  ℕ, ◌≡◌, refl, sym, ap, ap₂, ◌&&◌, subst, ◌∙◌, true, List, [], ◌∷◌, ◌++◌, Option, none, some,
  ◌>>=◌, arith, get_elem?, set, set_same, All, All-append, All-get_elem?, find_index,
}
use peer.Prelude.Bits.{bit_or-zero}
use peer.Prelude.Int.{ℤ, ◌==ℤ◌}
use peer.Prelude.Post.{of_post}
use peer.Options.{Status, kit_ok}
use peer.Serial.{Bytes}
use peer.Kit.{Kit, Array}
use peer.Packet.{Packet, unpack, unpack_from, unpack_packet}
use peer.Packet.Pack.{Sealed}
use peer.Packet.Unpack.{unpack_packet-Carries}
use peer.Queue.{Message, Queue}
use peer.Queue.View.{lookup}
use peer.Peer.{Slot, Peer, Mode, client}
use peer.Peer.Kept.{Stays, Stays-refl, PeerKept}
use peer.Peer.Input.{is_for, is_from, client_chunks, process, input_packet, input_from, input}
use peer.Peer.Input.Frame.{client_chunks-Kept, input-PeerKept}
use peer.Peer.Input.Mutual.{Agrees, IsSentBy, HasCome, client_chunks-Agrees}

-- A packet with chunks of the host's messages.
pub record Sends (h : Queue) (s d : ℤ) (p : Packet) : Type 0 where
  pub chunks : List Bytes
  pub sealed : Sealed s d p chunks
  pub sent : All (IsSentBy h) chunks

-- The messages of all chunks of a packet have come.
abbrev pub Came : ℤ → ℤ → Queue → Packet → Type 0
Came s d q p = (chunks : List Bytes) → Sealed s d p chunks → All (HasCome q) chunks

-- A client that has a slot for the peer `s` with the id `d` on this side.
pub record IsClient {R : Type 0} (s d : ℤ) (p : Peer R) : Type 0 where
  pub mode_is : p.mode ≡ client
  pub place : ℕ
  pub slot : Slot
  pub slot_is : get_elem? p.slots place ≡ some slot
  pub first : ℕ
  pub for_us : find_index (λ x. x.local.id ==ℤ d) 0 p.slots ≡ some first
  pub from_them : find_index (λ x. (x.local.id ==ℤ d) && (x.remote.id ==ℤ s)) 0 p.slots ≡ some place

module _ {s d : ℤ} (kit : Kit) (room : (a : Array) (n : ℕ) → kit.fits a n ≡ true) where
  -- What a packet carries is told by its bytes.
  Sealed-unique : (p : Packet) (cs ds : List Bytes) → Sealed s d p cs → Sealed s d p ds → cs ≡ ds
  Sealed-unique p cs ds v u =
      let a = unpack_packet-Carries kit room kit_ok [] v.carries v.size_set in
      let b = unpack_packet-Carries kit room kit_ok [] u.carries u.size_set in cc

  unpack_one :
      (p : Packet) (cs : List Bytes) → Sealed s d p cs → unpack kit (p ∷ []) [] ≡ some (kit_ok, cs)
  unfolding unpack unpack_from
  unpack_one p cs v = rw (unpack_packet-Carries kit room kit_ok [] v.carries v.size_set)

-- What has come in an agreeing queue stays.
come_stays :
    (h q q' : Queue) (cs : List Bytes)
    → Agrees h q
    → Agrees h q'
    → Stays q q'
    → All (HasCome q) cs
    → All (HasCome q') cs
come_stays h q q' [] a b stays come = tt
come_stays h q q' (c ∷ cs) a b stays ((j, m, e, is), come) =
    let (n, e', _, _) = stays j m e in
    let same : n ≡ m = let x = a j m e in let y = b j n e' in cc in
    ((j, m, subst (λ x. lookup q' j ≡ some x) same e', is), come_stays h q q' cs a b stays come)

module _ {R : Type 0} (h : Queue) (s d : ℤ) (kit : Kit)
    (room : (a : Array) (n : ℕ) → kit.fits a n ≡ true) where
  -- A client after a packet.
  record Caught (p : Packet) (before after : Peer R) : Type 0 where
    is_client : IsClient s d after
    agrees : Agrees h after.queue
    came : Came s d after.queue p

  process_client :
      (m : Mode) (cs : List Bytes) (peer next : Peer R) (place : ℕ) (slot : Slot)
      → m ≡ client
      → client_chunks kit cs kit_ok peer slot ≡ some (kit_ok, next, slot)
      → get_elem? next.slots place ≡ some slot
      → process kit m cs kit_ok peer place slot ≡ some (kit_ok, next)
  unfolding process
  process_client client cs peer next place slot e took here =
      rw (took, set_same next.slots place slot here)
  process_client Mode.host cs peer next place slot e took here = absurd (cc)

  input_packet-Caught :
      (p : Packet) (peer : Peer R)
      → IsClient s d peer
      → Agrees h peer.queue
      → Sends h s d p
      → (peer' : Peer R) × (input_packet kit p kit_ok peer ≡ some (kit_ok, peer'))
        × Caught p peer peer'
  unfolding input_packet
  input_packet-Caught p peer c agrees v =
      let to_us : find_index (is_for p) 0 peer.slots ≡ some c.first =
        ap (λ x. find_index (λ y. y.local.id ==ℤ x) 0 peer.slots) v.sealed.carries.to ∙ c.for_us in
      let from_them : find_index (is_from p) 0 peer.slots ≡ some c.place =
        ap₂ (λ x z. find_index (λ y. (y.local.id ==ℤ x) && (y.remote.id ==ℤ z)) 0 peer.slots)
          v.sealed.carries.to v.sealed.carries.from
        ∙ c.from_them in
      let (next, took, still, come) =
        client_chunks-Agrees h kit room v.chunks kit_ok peer c.slot agrees v.sent in
      let (kept, _, slots) = of_post (client_chunks-Kept kit v.chunks kit_ok peer c.slot) took in
      let here : get_elem? next.slots c.place ≡ some c.slot =
        subst (λ x. get_elem? x c.place ≡ some c.slot) (sym slots) c.slot_is in
      (
        next,
        rw (to_us, from_them, input_packet, c.slot_is, unpack_one kit room p v.chunks v.sealed)
            (process_client peer.mode v.chunks peer next c.place c.slot c.mode_is took here),
        record {
          is_client = record {
            mode_is = kept.mode_is ∙ c.mode_is;
            place = c.place;
            slot = c.slot;
            slot_is = here;
            first = c.first;
            for_us =
                subst (λ x. find_index (λ y. y.local.id ==ℤ d) 0 x ≡ some c.first) (sym slots)
                  c.for_us;
            from_them =
                subst
                  (λ x.
                    find_index (λ y. (y.local.id ==ℤ d) && (y.remote.id ==ℤ s)) 0 x ≡ some c.place)
                  (sym slots) c.from_them;
          };
          agrees = still;
          came = λ chunks u.
              subst (All (HasCome next.queue)) (Sealed-unique kit room p v.chunks chunks v.sealed u)
                come;
        },
      )

  pub input-Came :
      (ps : List Packet) (peer : Peer R)
      → IsClient s d peer
      → Agrees h peer.queue
      → All (Sends h s d) ps
      → (peer' : Peer R) × (input kit peer ps ≡ some (kit_ok, peer'))
        × Agrees h peer'.queue
        × All (Came s d peer'.queue) ps
  unfolding input input_from
  input-Came [] peer c agrees vs = (peer, refl, agrees, tt)
  input-Came (p ∷ ps) peer c agrees (v, vs) =
      let (next, ran, caught) = input_packet-Caught p peer c agrees v in
      let (after, rest, still, came) = input-Came ps next caught.is_client caught.agrees vs in
      let kept = input-PeerKept kit next after ps kit_ok rest in
      (
        after,
        rw (ran, rest),
        still,
        (
          λ cs u.
              come_stays h next.queue after.queue cs caught.agrees still kept.stays
                (caught.came cs u),
          came,
        ),
      )
