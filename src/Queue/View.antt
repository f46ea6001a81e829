-- ===== src/Queue/View.antt =====
-- source/peer/peer.c: queue_insert against a plain description of a queue with gaps.
use peer.Prelude.{
  ℕ, zero, suc, ◌+◌, ◌-◌, ◌^◌, ◌<◌, ◌≡◌, refl, ap, ◌∙◌, Bool, true, false, not, ◌&&◌, [], ◌∷◌, ◌++◌,
  Option, none, some, arith, ltb, leb, ltb-false, ==-false, subst, le→leb, ◌==◌, if◌then◌else◌,
  length, set, replicate,
}
use native.Mathlib.Decide.{ℕ_discrete}
use peer.Prelude.Int.{ℤ, pos, negsuc, ltb_ℤ}
use peer.Prelude.Post.{
  Post, of_post, post_some, post_none, Post-if, Post-cases, if_cases, Returns-if,
}
use peer.Options.{Status, kit_ok}
use peer.Serial.{Bytes}
use peer.Kit
use peer.Kit.{Kit, Array}
use peer.Queue.{Message, Queue, cleared, is_ready_at, drop_payload, grow, insert_at, queue_insert}

-- The message goes to its place, past the end after a gap of cleared messages; where a message has
-- come before, that one stays.
unfoldable pub put : Queue → ℕ → Message → Queue
put [] zero m = m ∷ []
put [] (suc i) m = cleared ∷ put [] i m
put (x ∷ q) zero m = if x.is_ready then x ∷ q else m ∷ q
put (x ∷ q) (suc i) m = x ∷ put q i m

-- The message that has come for an index.
unfoldable pub lookup : Queue → ℕ → Option Message
lookup [] i = none
lookup (x ∷ q) zero = if x.is_ready then some x else none
lookup (x ∷ q) (suc i) = lookup q i

-- What is left of a list once it is grown and set.
stored : Queue → ℕ → Message → Queue
stored q i m = if ltb i (length q) && is_ready_at q i then q else set (grow q i) i m

stored-nil : (i : ℕ) (m : Message) → set (replicate (i + 1) cleared) i m ≡ put [] i m
unfolding put
stored-nil zero m = refl
stored-nil (suc i) m =
    let e : suc i + 1 ≡ suc (i + 1) = omega arith in rw e (ap (◌∷◌ cleared) (stored-nil i m))

stored-cons :
    (x : Message) (q : Queue) (i : ℕ) (m : Message) → stored (x ∷ q) (suc i) m ≡ x ∷ stored q i m
unfolding stored
stored-cons x q i m =
    let e : suc i + 1 - suc (length q) ≡ i + 1 - length q = omega arith in rw e (ground arith)

stored-eq-put : (q : Queue) (i : ℕ) (m : Message) → stored q i m ≡ put q i m
unfolding stored put
stored-eq-put [] i m =
    let e : i + 1 - 0 ≡ i + 1 = omega arith in
    rw (ltb-false i 0 (omega arith), le→leb 0 i (omega arith), e) (stored-nil i m)
stored-eq-put (x ∷ q) zero m = ground arith
stored-eq-put (x ∷ q) (suc i) m = stored-cons x q i m ∙ ap (◌∷◌ x) (stored-eq-put q i m)

abbrev pub ready : ℤ → ℤ → Bytes → Message
ready time actor payload = record { is_ready = true; time = time; actor = actor; payload = payload }

-- The queue cannot be grown to have the index, since a ptrdiff_t holds no number above it.
abbrev pub is_too_far : Queue → ℕ → Bool
is_too_far q i = leb (length q) i && leb (2 ^ 63) (i + 1)

pub insert_at-put :
    (kit : Kit) (q : Queue) (i : ℕ) (time actor : ℤ) (payload : Bytes)
    → ((a : Array) (n : ℕ) → kit.fits a n ≡ true)
    → insert_at kit q i time actor payload
      ≡ (if is_too_far q i then none else some (kit_ok, put q i (ready time actor payload)))
unfolding insert_at stored
insert_at-put kit q i time actor payload room =
    rw
      (
        room Kit.messages (i + 1),
        room Kit.payload (length payload),
        ← stored-eq-put q i (ready time actor payload),
      )
      (ground arith)

pub insert_at-eq-put :
    (kit : Kit) (q : Queue) (i : ℕ) (time actor : ℤ) (payload : Bytes)
    → ((a : Array) (n : ℕ) → kit.fits a n ≡ true)
    → i < 2 ^ 63 - 1
    → insert_at kit q i time actor payload ≡ some (kit_ok, put q i (ready time actor payload))
insert_at-eq-put kit q i time actor payload room below =
    rw (insert_at-put kit q i time actor payload room) (ground arith)

-- The message that came first.
abbrev pub keep_first : Option Message → Message → Message
keep_first none m = m
keep_first (some old) m = old

-- What stands at each index of a queue after a message is put.
pub lookup-put :
    (q : Queue) (i j : ℕ) (m : Message)
    → m.is_ready ≡ true
    → lookup (put q i m) j ≡ (if i == j then some (keep_first (lookup q i) m) else lookup q j)
unfolding lookup put
lookup-put [] zero zero m r = ground arith
lookup-put [] zero (suc j) m r = ground arith
lookup-put [] (suc i) zero m r = ground arith
lookup-put [] (suc i) (suc j) m r = ground (arith, lookup-put [] i j m r)
lookup-put (x ∷ q) zero zero m r = ground arith
lookup-put (x ∷ q) zero (suc j) m r = ground arith
lookup-put (x ∷ q) (suc i) zero m r = ground arith
lookup-put (x ∷ q) (suc i) (suc j) m r = ground (arith, lookup-put q i j m r)

lookup-gap : (n j : ℕ) → lookup (replicate n cleared) j ≡ none
unfolding lookup
lookup-gap zero j = refl
lookup-gap (suc n) zero = refl
lookup-gap (suc n) (suc j) = lookup-gap n j

lookup-append_gap : (q : Queue) (n j : ℕ) → lookup (q ++ replicate n cleared) j ≡ lookup q j
unfolding lookup
lookup-append_gap [] n j = lookup-gap n j
lookup-append_gap (x ∷ q) n zero = refl
lookup-append_gap (x ∷ q) n (suc j) = lookup-append_gap q n j

lookup-grow : (q : Queue) (i j : ℕ) → lookup (grow q i) j ≡ lookup q j
lookup-grow q i j = ground (arith, lookup-append_gap q (i + 1 - length q) j)

lookup-drop_payload :
    (q : Queue) (i j : ℕ) → lookup q i ≡ none → lookup (drop_payload q i) j ≡ lookup q j
unfolding lookup
lookup-drop_payload [] i j h = refl
lookup-drop_payload (x ∷ q) zero zero h = ground arith
lookup-drop_payload (x ∷ q) zero (suc j) h = refl
lookup-drop_payload (x ∷ q) (suc i) zero h = refl
lookup-drop_payload (x ∷ q) (suc i) (suc j) h = lookup-drop_payload q i j h

lookup_of_not_ready :
    (q : Queue) (i : ℕ) → (ltb i (length q) && is_ready_at q i) ≡ false → lookup q i ≡ none
unfolding lookup
lookup_of_not_ready [] i h = refl
lookup_of_not_ready (x ∷ q) zero h = ground arith
lookup_of_not_ready (x ∷ q) (suc i) h = lookup_of_not_ready q i (ground arith)

-- Where no message has come for `i`, growing and setting keep those that have come.
lookup-set-grow :
    (q : Queue) (i j : ℕ) (new m : Message)
    → (ltb i (length q) && is_ready_at q i) ≡ false
    → new.is_ready ≡ true
    → lookup q j ≡ some m
    → lookup (set (grow q i) i new) j ≡ some m
unfolding stored
lookup-set-grow q i j new m e r h =
    let is_put : set (grow q i) i new ≡ put q i new = rw e at (stored-eq-put q i new) in
    rw (is_put, lookup-put q i j new r)
      (elim (ℕ_discrete i j) [
        | yes same ↦
            let gone : lookup q j ≡ none =
              subst (λ k. lookup q k ≡ none) same (lookup_of_not_ready q i e) in
            absurd (cc)
        | no differ ↦ rw (==-false i j differ) h
      ])

-- The queue holds every message that the other one does.
abbrev pub Holds : Queue → Status × Queue → Type 0
Holds q r = (j : ℕ) (m : Message) → lookup q j ≡ some m → lookup r.1 j ≡ some m

insert_at-Holds :
    (kit : Kit) (q : Queue) (i : ℕ) (time actor : ℤ) (payload : Bytes)
    → Post (Holds q) (insert_at kit q i time actor payload)
unfolding insert_at
insert_at-Holds kit q i time actor payload =
    Post-cases (ltb i (length q) && is_ready_at q i) (λ _. post_some (λ j m h. h))
      λ e. Post-if (is_too_far q i) post_none (
        post_some (
          if_cases (Holds q) (leb (length q) i && not (kit.fits Kit.messages (i + 1))) _ _
            (λ _ j m h. h)
            λ _.
              if_cases (Holds q) (not (kit.fits Kit.payload (length payload))) _ _
                (λ _ j m h.
                  lookup-drop_payload (grow q i) i j (lookup-grow q i i ∙ lookup_of_not_ready q i e)
                  ∙ lookup-grow q i j
                  ∙ h)
                λ _ j m h. lookup-set-grow q i j (ready time actor payload) m e refl h))

pub queue_insert-Holds :
    (kit : Kit) (q : Queue) (index time actor : ℤ) (payload : Bytes)
    → Post (Holds q) (queue_insert kit q index time actor payload)
unfolding queue_insert
queue_insert-Holds kit q (negsuc n) time actor payload = post_some λ j m h. ground arith
queue_insert-Holds kit q (pos i) time actor payload = insert_at-Holds kit q i time actor payload

pub queue_insert-some :
    (kit : Kit) (q : Queue) (index time actor : ℤ) (payload : Bytes)
    → ltb_ℤ index (pos (2 ^ 63 - 1)) ≡ true
    → (r : Status × Queue) × (queue_insert kit q index time actor payload ≡ some r) × Unit {0}
unfolding queue_insert insert_at
queue_insert-some kit q (negsuc n) time actor payload below = (_, refl, tt)
queue_insert-some kit q (pos i) time actor payload below =
    let near : is_too_far q i ≡ false = ground arith in
    Returns-if (ltb i (length q) && is_ready_at q i) _ _ (_, refl, tt) (rw near (_, refl, tt))

-- In a build without asserts, queue_insert returns at every index below INT64_MAX, with memory or
-- without, and whatever its status is, a message that had come for an index is still there.
pub lookup-queue_insert :
    (kit : Kit) (q : Queue) (index time actor : ℤ) (payload : Bytes) (j : ℕ) (m : Message)
    → ltb_ℤ index (pos (2 ^ 63 - 1)) ≡ true
    → lookup q j ≡ some m
    → (r : Status × Queue) × (queue_insert kit q index time actor payload ≡ some r)
      × (lookup r.1 j ≡ some m)
lookup-queue_insert kit q index time actor payload j m below h =
    let (r, e, _) = queue_insert-some kit q index time actor payload below in
    (r, e, of_post (queue_insert-Holds kit q index time actor payload) e j m h)
