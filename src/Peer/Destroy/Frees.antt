-- ===== src/Peer/Destroy/Frees.antt =====
-- source/peer/peer.c, peer_destroy: every array of a peer is released once, and not read after.
use peer.Prelude.{
  ℕ, ◌+◌, ◌<◌, ◌≡◌, refl, ap, ◌∙◌, Bool, true, false, not, ◌&&◌, ◌||◌, Bool-cases, inl, inr, List,
  [], ◌∷◌, some, arith, length,
}
use peer.Options.{kit_ok}
use peer.Peer.{Slot, Peer}
use peer.Peer.Destroy.{
  mutual_queue, slot_queue, Place, slots_array, messages, payload, Live, same_place, release,
  slots_destroy, destroy,
}
use peer.Peer.Destroy.Queues.{in_queue, Without, queue_destroy-Without}

abbrev pub is_slots_array : Place → Bool
is_slots_array slots_array = true
is_slots_array (messages p) = false
is_slots_array (payload p j) = false

-- The arrays of the slots from the number `i` on, and that of the slots.
abbrev pub in_slots : ℕ → List Slot → Place → Bool
in_slots i [] x = is_slots_array x
in_slots i (slot ∷ slots) x =
    in_queue (slot_queue i) 0 (length slot.queue) x || in_slots (i + 1) slots x

-- The arrays of a peer.
abbrev pub is_of : {R : Type 0} → Peer R → Place → Bool
is_of peer x = in_slots 0 peer.slots x || in_queue mutual_queue 0 (length peer.queue) x

-- Queues of different owners have no array in common.
apart_owners :
    (i j : ℕ) (m n : ℕ) (x : Place)
    → i < j
    → in_queue (slot_queue j) 0 n x ≡ true
    → in_queue (slot_queue i) 0 m x ≡ false
apart_owners i j m n slots_array lt e = refl
apart_owners i j m n (messages mutual_queue) lt e = refl
apart_owners i j m n (messages (slot_queue k)) lt e = ground arith
apart_owners i j m n (payload mutual_queue l) lt e = refl
apart_owners i j m n (payload (slot_queue k) l) lt e = ground arith

apart_slots :
    (i j m : ℕ) (slots : List Slot) (x : Place)
    → i < j
    → in_slots j slots x ≡ true
    → in_queue (slot_queue i) 0 m x ≡ false
apart_slots i j m [] slots_array lt e = refl
apart_slots i j m [] (messages p) lt e = absurd (cc)
apart_slots i j m [] (payload p k) lt e = absurd (cc)
apart_slots i j m (slot ∷ slots) x lt e =
    elim (Bool-cases (in_queue (slot_queue j) 0 (length slot.queue) x)) [
      | inl here ↦ apart_owners i j m (length slot.queue) x lt here
      | inr later ↦ apart_slots i (j + 1) m slots x (omega arith) (rw later at e)
    ]

array_left :
    (x : Place) (b : Bool) → (b && not (same_place slots_array x)) ≡ (b && not (is_slots_array x))
array_left slots_array b = refl
array_left (messages p) b = refl
array_left (payload p k) b = refl

slots_owned : (i : ℕ) (slots : List Slot) → in_slots i slots slots_array ≡ true
slots_owned i [] = refl
slots_owned i (slot ∷ slots) = slots_owned (i + 1) slots

or_left : (a b : Bool) → a ≡ true → (a || b) ≡ true
or_left a b e = ground arith

or_right : (a b : Bool) → b ≡ true → (a || b) ≡ true
or_right a b e = ground arith

both_gone : (b g h : Bool) → ((b && not g) && not h) ≡ (b && not (g || h))
both_gone b g h = ground arith

left_of : (b g : Bool) → b ≡ true → g ≡ false → (b && not g) ≡ true
left_of b g e f = ground arith

slots_destroy-Without :
    (i : ℕ) (slots : List Slot) (live : Live)
    → ((x : Place) → in_slots i slots x ≡ true → live x ≡ true)
    → Without (in_slots i slots) live (slots_destroy i slots live)
unfolding slots_destroy release
slots_destroy-Without i [] live owns = record {
  after = λ y. live y && not (same_place slots_array y);
  result = rw (owns slots_array refl);
  is = λ x. array_left x (live x);
}
slots_destroy-Without i (slot ∷ slots) live owns =
    let n = length slot.queue in
    let q =
      queue_destroy-Without (slot_queue i) 0 slot.queue live
        (owns slots_array (slots_owned (i + 1) slots)) (λ x e. owns x (or_left _ _ e)) in
    let r = slots_destroy-Without (i + 1) slots q.after λ x e.
      q.is x
      ∙ left_of (live x) (in_queue (slot_queue i) 0 n x) (owns x (or_right _ _ e))
          (apart_slots i (i + 1) n slots x (omega arith) e) in
    record {
      after = r.after;
      result = rw q.result r.result;
      is = λ x.
          r.is x
          ∙ ap (λ b. b && not (in_slots (i + 1) slots x)) (q.is x)
          ∙ both_gone (live x) (in_queue (slot_queue i) 0 n x) (in_slots (i + 1) slots x);
    }

-- The mutual queue has no array in common with the slots.
apart_mutual :
    (i : ℕ) (slots : List Slot) (n : ℕ) (x : Place)
    → in_queue mutual_queue 0 n x ≡ true
    → in_slots i slots x ≡ false
apart_mutual i [] n slots_array e = absurd (cc)
apart_mutual i [] n (messages p) e = refl
apart_mutual i [] n (payload p k) e = refl
apart_mutual i (slot ∷ slots) n x e =
    let rest = apart_mutual (i + 1) slots n x e in rw (other x e, rest)
  where
    other :
        (x : Place)
        → in_queue mutual_queue 0 n x ≡ true
        → in_queue (slot_queue i) 0 (length slot.queue) x ≡ false
    other slots_array e = refl
    other (messages mutual_queue) e = refl
    other (messages (slot_queue k)) e = absurd (cc)
    other (payload mutual_queue k) e = refl
    other (payload (slot_queue j) k) e = absurd (cc)

module _ {R : Type 0} where
  -- peer_destroy of a peer all of whose arrays are there releases each of them once, the data of
  -- every message of every queue included, and no other array; and it never reads an array that has
  -- been released.
  pub destroy-frees :
      (peer : Peer R) (live : Live)
      → ((x : Place) → is_of peer x ≡ true → live x ≡ true)
      → (after : Live) × (destroy peer live ≡ some (kit_ok, after))
        × ((x : Place) → after x ≡ (live x && not (is_of peer x)))
  unfolding destroy
  destroy-frees peer live owns =
      let r = slots_destroy-Without 0 peer.slots live (λ x e. owns x (or_left _ _ e)) in
      let n = length peer.queue in
      let q = queue_destroy-Without mutual_queue 0 peer.queue r.after tt λ x e.
        r.is x
        ∙ left_of (live x) (in_slots 0 peer.slots x) (owns x (or_right _ _ e))
            (apart_mutual 0 peer.slots n x e) in
      (
        q.after,
        rw (r.result, q.result),
        λ x.
            q.is x
            ∙ ap (λ b. b && not (in_queue mutual_queue 0 n x)) (r.is x)
            ∙ both_gone (live x) (in_slots 0 peer.slots x) (in_queue mutual_queue 0 n x),
      )
