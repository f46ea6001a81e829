-- ===== src/Prelude/Post.antt =====
-- What holds of the result of a computation, if it has one; with rules for the shapes of code.
use mathlib.Core.Path.{◌≡◌, refl, sym, subst}
use mathlib.Core.Bool.{Bool, true, false}
use mathlib.Core.Option.{Option, none, some}
use peer.Prelude.{◌>>=◌, if◌then◌else◌}

pub data Post {A : Type 0} (P : A → Type 0) : Option A → Type 0 where
  post_some : {a : A} → P a → Post P (some a)
  post_none : Post P none

pub of_post : {A : Type 0} {P : A → Type 0} {m : Option A} {a : A} → Post P m → m ≡ some a → P a
of_post {P = P} (post_some h) e = subst P (cc) h
of_post post_none e = absurd (cc)

module _ {A : Type 0} {P : A → Type 0} where
  pub Post-if : (b : Bool) {x y : Option A} → Post P x → Post P y → Post P (if b then x else y)
  Post-if true hx hy = hx
  Post-if false hx hy = hy

  -- The branches may use what the test says.
  pub Post-cases :
      (b : Bool) {x y : Option A}
      → (b ≡ true → Post P x)
      → (b ≡ false → Post P y)
      → Post P (if b then x else y)
  Post-cases true hx hy = hx refl
  Post-cases false hx hy = hy refl

  pub Post-bind :
      {B : Type 0} (m : Option B) {f : B → Option A} → ((b : B) → Post P (f b)) → Post P (m >>= f)
  Post-bind none h = post_none
  Post-bind (some b) h = h b

  -- After a part that has a postcondition of its own.
  pub Post-then :
      {B : Type 0} {Q : B → Type 0} {m : Option B} {f : B → Option A}
      → Post Q m
      → ((b : B) → Q b → Post P (f b))
      → Post P (m >>= f)
  Post-then (post_some {a = b} q) h = h b q
  Post-then post_none h = post_none

  pub Post-map : {Q : A → Type 0} {m : Option A} → ((a : A) → Q a → P a) → Post Q m → Post P m
  Post-map h (post_some {a = b} q) = post_some (h b q)
  Post-map h post_none = post_none

-- What holds in both branches, each with what the test says.
pub if_cases :
    {A : Type 0} (P : A → Type 0) (b : Bool) (x y : A)
    → (b ≡ true → P x)
    → (b ≡ false → P y)
    → P (if b then x else y)
if_cases P true x y hx hy = hx refl
if_cases P false x y hx hy = hy refl

-- A computation that has a result, of which something holds.
abbrev pub Returns : {A : Type 0} → (A → Type 0) → Option A → Type 0
Returns {A} P m = (a : A) × (m ≡ some a) × P a

module _ {A : Type 0} {P : A → Type 0} where
  pub Returns-bind :
      {B : Type 0} (m : Option B) (f : B → Option A) {Q : B → Type 0}
      → Returns Q m
      → ((b : B) → Q b → Returns P (f b))
      → Returns P (m >>= f)
  Returns-bind (some b) f {Q} (c, e, q) h = let same : c ≡ b = cc in h b (subst Q same q)
  Returns-bind none f (c, e, q) h = absurd (cc)

  pub Returns-if :
      (b : Bool) (x y : Option A) → Returns P x → Returns P y → Returns P (if b then x else y)
  Returns-if true x y hx hy = hx
  Returns-if false x y hx hy = hy

  pub Returns-cases :
      (b : Bool) (x y : Option A)
      → (b ≡ true → Returns P x)
      → (b ≡ false → Returns P y)
      → Returns P (if b then x else y)
  Returns-cases true x y hx hy = hx refl
  Returns-cases false x y hx hy = hy refl

pub Returns-Post : {A : Type 0} {P : A → Type 0} {m : Option A} → Returns P m → Post P m
Returns-Post {P = P} (a, e, p) = subst (Post P) (sym e) (post_some p)

pub from_result :
    {A : Type 0} {P : A → Type 0} (m : Option A) → ((a : A) → m ≡ some a → P a) → Post P m
from_result (some a) h = post_some (h a refl)
from_result none h = post_none
