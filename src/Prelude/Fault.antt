-- ===== src/Prelude/Fault.antt =====
-- Computations that may fault: `none` is an access outside an array, where C has no defined result.
use mathlib.Core.Path.{◌≡◌, refl, ap}
use mathlib.Core.Option.{Option, none, some}

infixl 5 ◌>>=◌ ◌>>◌
abbrev pub ◌>>=◌ {ℓ κ} : {A : Type ℓ} {B : Type κ} → Option A → (A → Option B) → Option B
some a >>= f = f a
none >>= f = none

abbrev pub ◌>>◌ {ℓ κ} : {A : Type ℓ} {B : Type κ} → Option A → Option B → Option B
m >> k = m >>= λ _. k

-- Inversion of a bind that gave a result.
pub >>=-eq-some {ℓ κ} :
    {A : Type ℓ} {B : Type κ} (m : Option A) (f : A → Option B) {b : B}
    → (m >>= f) ≡ some b
    → (a : A) × (m ≡ some a) × (f a ≡ some b)
>>=-eq-some (some a) f h = (a, refl, h)
>>=-eq-some none f h = cc

pub bind-map {ℓ κ μ} :
    {A : Type ℓ} {B : Type κ} {C : Type μ} (m : Option A) (f : A → B) (g : B → C)
    → ((m >>= λ a. some (f a)) >>= λ b. some (g b)) ≡ (m >>= λ a. some (g (f a)))
bind-map (some a) f g = refl
bind-map none f g = refl

pub bind-eq_some {ℓ κ μ} :
    {A : Type ℓ} {B : Type κ} {C : Type μ} (m : Option A) (f : A → Option B) (g : B → Option C)
    {b : B}
    → (m >>= f) ≡ some b
    → (m >>= λ a. f a >>= g) ≡ g b
bind-eq_some (some a) f g e = ap (λ o. o >>= g) e
bind-eq_some none f g e = absurd (cc)

-- A fault of every continuation is one of the whole, whatever the first part does.
pub bind-none {ℓ κ} :
    {A : Type ℓ} {B : Type κ} (m : Option A) (f : A → Option B)
    → ((a : A) → f a ≡ none)
    → (m >>= f) ≡ none
bind-none none f h = refl
bind-none (some a) f h = h a

pub bind-bind-none {ℓ κ μ} :
    {A : Type ℓ} {B : Type κ} {C : Type μ} (m : Option A) (f : A → Option B) (g : B → Option C)
    → (m >>= f) ≡ none
    → (m >>= λ a. f a >>= g) ≡ none
bind-bind-none none f g h = refl
bind-bind-none (some a) f g h = ap (λ o. o >>= g) h

module _ {A B : Type 0} where
  pub >>=_ext : (m : Option A) {f g : A → Option B} → ((a : A) → f a ≡ g a) → (m >>= f) ≡ (m >>= g)
  >>=_ext none h = refl
  >>=_ext (some a) h = h a

  pub >>=_assoc :
      {C : Type 0} (m : Option A) (f : A → Option B) (g : B → Option C)
      → ((m >>= f) >>= g) ≡ (m >>= λ a. f a >>= g)
  >>=_assoc none f g = refl
  >>=_assoc (some a) f g = refl
