-- ===== src/Peer/Log/Order.antt =====
-- source/peer/peer.c: a log that is only appended to stays in the order of time.
use peer.Prelude.{
  ◌≡◌, sym, ap, subst, ◌∙◌, true, List, [], ◌∷◌, ◌++◌, append_assoc, append-nil, All, All-append,
}
use peer.Prelude.Int.{ℤ, ◌≤ℤ◌, int_laws}
use peer.Queue.{Message, Queue}
use peer.Peer.Log.{Log, LogStep, LogRun, here, next, IsStamped}

-- The times of messages do not go back, from `low` on.
abbrev pub IsSorted : ℤ → Queue → Type 0
IsSorted low [] = Unit
IsSorted low (m ∷ ms) = (low ≤ℤ m.time) × IsSorted m.time ms

-- A log in the order of time, up to its clock, of messages that are all there.
pub record IsInOrder (low : ℤ) (log : Log) : Type 0 where
  pub clock_low : low ≤ℤ log.clock
  pub sorted : IsSorted low log.entries
  pub past : All (λ m. m.time ≤ℤ log.clock) log.entries
  pub all_ready : All (λ m. m.is_ready ≡ true) log.entries

stamped-IsSorted : (low t : ℤ) (ms : Queue) → low ≤ℤ t → All (IsStamped t) ms → IsSorted low ms
stamped-IsSorted low t [] le h = tt
stamped-IsSorted low t (m ∷ ms) le ((r, e), h) = (
  subst (λ x. low ≤ℤ x) (sym e) le,
  subst (λ x. IsSorted x ms) (sym e) (stamped-IsSorted t t ms (omega int_laws) h),
)

append-IsSorted :
    (low t : ℤ) (ms more : Queue)
    → low ≤ℤ t
    → IsSorted low ms
    → All (λ m. m.time ≤ℤ t) ms
    → All (IsStamped t) more
    → IsSorted low (ms ++ more)
append-IsSorted low t [] more le s p h = stamped-IsSorted low t more le h
append-IsSorted low t (m ∷ ms) more le (a, s) (b, p) h =
    (a, append-IsSorted m.time t ms more b s p h)

stamped-past : (t : ℤ) (ms : Queue) → All (IsStamped t) ms → All (λ m. m.time ≤ℤ t) ms
stamped-past t [] h = tt
stamped-past t (m ∷ ms) ((r, e), h) =
    (subst (λ x. x ≤ℤ t) (sym e) (omega int_laws), stamped-past t ms h)

pub stamped-ready : (t : ℤ) (ms : Queue) → All (IsStamped t) ms → All (λ m. m.is_ready ≡ true) ms
stamped-ready t [] h = tt
stamped-ready t (m ∷ ms) ((r, e), h) = (r, stamped-ready t ms h)

later : (t u : ℤ) (ms : Queue) → t ≤ℤ u → All (λ m. m.time ≤ℤ t) ms → All (λ m. m.time ≤ℤ u) ms
later t u [] le h = tt
later t u (m ∷ ms) le (a, h) = (omega (int_laws, a, le), later t u ms le h)

step-IsInOrder : (low : ℤ) (a b : Log) → IsInOrder low a → LogStep a b → IsInOrder low b
step-IsInOrder low a b h s =
    let le : low ≤ℤ b.clock = omega (int_laws, h.clock_low, s.clock_le) in
    let past = later a.clock b.clock a.entries s.clock_le h.past in
    record {
      clock_low = le;
      sorted =
          subst (IsSorted low) (sym s.grown)
            (append-IsSorted low b.clock a.entries s.more le h.sorted past s.stamped);
      past =
          subst (All (λ m. m.time ≤ℤ b.clock)) (sym s.grown)
            (All-append _ a.entries s.more past (stamped-past b.clock s.more s.stamped));
      all_ready =
          subst (All (λ m. m.is_ready ≡ true)) (sym s.grown)
            (All-append _ a.entries s.more h.all_ready (stamped-ready b.clock s.more s.stamped));
    }

pub run-IsInOrder : (low : ℤ) {a b : Log} → IsInOrder low a → LogRun a b → IsInOrder low b
run-IsInOrder low h here = h
run-IsInOrder low h (next {b} {c} r s) = step-IsInOrder low b c (run-IsInOrder low h r) s

-- What is in a log stays there, each at its place.
pub run-extends : {a b : Log} → LogRun a b → (more : List Message) × (b.entries ≡ a.entries ++ more)
run-extends {a} here = ([], sym (append-nil a.entries))
run-extends {a} (next {b} {c} r s) =
    let (more, e) = run-extends r in
    (more ++ s.more, s.grown ∙ ap (λ q. q ++ s.more) e ∙ append_assoc a.entries more s.more)
