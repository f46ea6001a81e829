-- ===== src/Prelude/Pairs.antt =====
-- Two lists whose elements are related one by one.
use Prim.Native.Nat.{ℕ, zero, suc}
use mathlib.Core.Path.{◌≡◌, refl, ap, subst}
use mathlib.Core.List.{List, [], ◌∷◌}
use mathlib.Core.Option.{some}
use peer.Prelude.{length, get_elem?, set}

module _ {ℓ} {A : Type ℓ} (R : A → A → Type 0) where
  abbrev pub Pairwise : List A → List A → Type 0
  Pairwise [] [] = Unit
  Pairwise [] (y ∷ ys) = ⊥
  Pairwise (x ∷ xs) [] = ⊥
  Pairwise (x ∷ xs) (y ∷ ys) = R x y × Pairwise xs ys

  pub Pairwise-refl : ((x : A) → R x x) → (xs : List A) → Pairwise xs xs
  Pairwise-refl r [] = tt
  Pairwise-refl r (x ∷ xs) = (r x, Pairwise-refl r xs)

  pub Pairwise-trans :
      ((x y z : A) → R x y → R y z → R x z)
      → (xs ys zs : List A) → Pairwise xs ys
      → Pairwise ys zs
      → Pairwise xs zs
  Pairwise-trans t [] [] zs h k = k
  Pairwise-trans t [] (y ∷ ys) zs h k = absurd h
  Pairwise-trans t (x ∷ xs) [] zs h k = absurd h
  Pairwise-trans t (x ∷ xs) (y ∷ ys) [] h k = absurd k
  Pairwise-trans t (x ∷ xs) (y ∷ ys) (z ∷ zs) h k =
      (t x y z h.0 k.0, Pairwise-trans t xs ys zs h.1 k.1)

  pub Pairwise-set :
      ((x : A) → R x x)
      → (xs : List A) (i : ℕ) (x y : A) → get_elem? xs i ≡ some x
      → R x y
      → Pairwise xs (set xs i y)
  Pairwise-set r [] i x y e h = tt
  Pairwise-set r (z ∷ xs) zero x y e h =
      let same : x ≡ z = cc in (subst (λ a. R a y) same h, Pairwise-refl r xs)
  Pairwise-set r (z ∷ xs) (suc i) x y e h = (r z, Pairwise-set r xs i x y e h)

  pub Pairwise-length : (xs ys : List A) → Pairwise xs ys → length ys ≡ length xs
  Pairwise-length [] [] h = refl
  Pairwise-length [] (y ∷ ys) h = absurd h
  Pairwise-length (x ∷ xs) [] h = absurd h
  Pairwise-length (x ∷ xs) (y ∷ ys) h = ap suc (Pairwise-length xs ys h.1)

  pub Pairwise-get_elem? :
      (xs ys : List A) (i : ℕ) (x : A)
      → Pairwise xs ys
      → get_elem? xs i ≡ some x
      → (y : A) × (get_elem? ys i ≡ some y) × R x y
  Pairwise-get_elem? [] [] i x h e = absurd (cc)
  Pairwise-get_elem? [] (y ∷ ys) i x h e = absurd h
  Pairwise-get_elem? (z ∷ xs) [] i x h e = absurd h
  Pairwise-get_elem? (z ∷ xs) (y ∷ ys) zero x h e =
      let same : z ≡ x = cc in (y, refl, subst (λ a. R a y) same h.0)
  Pairwise-get_elem? (z ∷ xs) (y ∷ ys) (suc i) x h e = Pairwise-get_elem? xs ys i x h.1 e

pub Pairwise-map {ℓ} :
    {A : Type ℓ} (R S : A → A → Type 0)
    → ((x y : A) → R x y → S x y)
    → (xs ys : List A) → Pairwise R xs ys
    → Pairwise S xs ys
Pairwise-map R S f [] [] h = tt
Pairwise-map R S f [] (y ∷ ys) h = absurd h
Pairwise-map R S f (x ∷ xs) [] h = absurd h
Pairwise-map R S f (x ∷ xs) (y ∷ ys) (a, h) = (f x y a, Pairwise-map R S f xs ys h)
