-- ===== src/Peer/Steady/Queues.antt =====
-- source/peer/peer.c, queue_append and queue_insert: a message that fits packets leaves a queue of
-- such messages one.
use peer.Prelude.{
  ℕ, suc, ◌+◌, ◌-◌, ◌^◌, ◌≤◌, not, ◌&&◌, [], ◌∷◌, arith, ltb, leb, length, All, All-append, All-set,
  All-replicate,
}
use peer.Prelude.Int.{ℤ, pos, negsuc, ◌==ℤ◌}
use peer.Prelude.Post.{Post, post_some, post_none, Post-if, if_cases}
use peer.Options.{Status, undefined}
use peer.Serial.{Bytes}
use peer.Kit
use peer.Kit.{Kit}
use peer.Queue.{
  Queue, cleared, grow, drop_payload, is_ready_at, queue_append, insert_at, queue_insert,
}
use peer.Peer.Send.Trail.{IsSmall}

abbrev AllSmall : Status × Queue → Type 0
AllSmall r = All IsSmall r.1

pub queue_append-IsSmall :
    (kit : Kit) (q : Queue) (time actor : ℤ) (payload : Bytes)
    → length payload ≤ 355
    → All IsSmall q
    → All IsSmall (queue_append kit q time actor payload).1
unfolding queue_append
queue_append-IsSmall kit q time actor payload small h =
    if_cases AllSmall (not (kit.fits Kit.messages (length q + 1))) _ _ (λ _. h)
      λ _.
        if_cases AllSmall (not (kit.fits Kit.payload (length payload))) _ _ (λ _. h)
          λ _. All-append IsSmall q (_ ∷ []) h (small, tt)

grow-IsSmall : (q : Queue) (i : ℕ) → All IsSmall q → All IsSmall (grow q i)
grow-IsSmall q i h =
    if_cases (All IsSmall) (leb (length q) i) _ _
      (λ _.
        All-append IsSmall q _ h (All-replicate IsSmall (i + 1 - length q) cleared (omega arith)))
      (λ _. h)

drop_payload-IsSmall : (q : Queue) (i : ℕ) → All IsSmall q → All IsSmall (drop_payload q i)
drop_payload-IsSmall [] i h = tt
drop_payload-IsSmall (m ∷ q) ℕ.zero h = (omega arith, h.1)
drop_payload-IsSmall (m ∷ q) (suc i) h = (h.0, drop_payload-IsSmall q i h.1)

insert_at-IsSmall :
    (kit : Kit) (q : Queue) (i : ℕ) (time actor : ℤ) (payload : Bytes)
    → length payload ≤ 355
    → All IsSmall q
    → Post AllSmall (insert_at kit q i time actor payload)
unfolding insert_at
insert_at-IsSmall kit q i time actor payload small h =
    Post-if (ltb i (length q) && is_ready_at q i) (post_some h) (
      Post-if (leb (length q) i && leb (2 ^ 63) (i + 1)) post_none (
        post_some (
          if_cases AllSmall (leb (length q) i && not (kit.fits Kit.messages (i + 1))) _ _ (λ _. h)
            λ _.
              if_cases AllSmall (not (kit.fits Kit.payload (length payload))) _ _
                (λ _. drop_payload-IsSmall (grow q i) i (grow-IsSmall q i h))
                λ _. All-set IsSmall (grow q i) i _ small (grow-IsSmall q i h))))

pub queue_insert-IsSmall :
    (kit : Kit) (q : Queue) (index time actor : ℤ) (payload : Bytes)
    → length payload ≤ 355
    → All IsSmall q
    → Post AllSmall (queue_insert kit q index time actor payload)
unfolding queue_insert
queue_insert-IsSmall kit q (pos i) time actor payload small h =
    insert_at-IsSmall kit q i time actor payload small h
queue_insert-IsSmall kit q (negsuc n) time actor payload small h =
    post_some (if_cases AllSmall (negsuc n ==ℤ undefined) _ _ (λ _. h) (λ _. h))
