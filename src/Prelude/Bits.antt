-- ===== src/Prelude/Bits.antt =====
-- C's `&` with a mask of low bits, and `|` of fields that do not overlap, as arithmetic.
use Prim.Native.Nat.{
  ℕ, zero, suc, ◌+◌, ◌-◌, ◌*◌, ◌/◌, ◌%◌, ◌^◌, ◌≤◌, ◌<◌, min, max, digits, bitwise, bit_and, bit_or,
  bit_and-bitwise, bit_or-bitwise,
}
use mathlib.Core.Path.{◌≡◌, refl, ap, subst}
use native.Mathlib.Nat.{pow-suc, one-le-pow}
use native.Mathlib.Omega.{arith}

-- The native operations recurse on binary digits with fuel. A round more than the number `a` needs
-- changes nothing, and so `a` rounds do as well as any more.
module _ (z : ℕ → ℕ) (f : ℕ → ℕ → ℕ) where
  one_more : (n a b : ℕ) → a ≤ n → digits z f (suc n) a b ≡ digits z f n a b
  one_more zero zero b h = refl
  one_more (suc n) zero b h = refl
  one_more zero (suc a) b h = absurd (omega arith)
  one_more (suc n) (suc a) b h = rw (one_more n (suc a / 2) (b / 2) (omega arith))

  any_more : (k a b : ℕ) → digits z f (k + a) a b ≡ digits z f a a b
  any_more zero a b = let e : 0 + a ≡ a = omega arith in rw e
  any_more (suc k) a b =
      let e : suc k + a ≡ suc (k + a) = omega arith in
      rw (e, one_more (k + a) a b (omega arith)) (any_more k a b)

  -- Where 0 goes by its halves, every number does.
  of_halves :
      ((b : ℕ) → z b ≡ z (b / 2) * 2 + f 0 (b % 2))
      → (a b : ℕ) → bitwise z f a b ≡ bitwise z f (a / 2) (b / 2) * 2 + f (a % 2) (b % 2)
  of_halves edge zero b = edge b
  of_halves edge (suc a) b =
      let h : a - suc a / 2 + suc a / 2 ≡ a = omega arith in
      let fewer : digits z f a (suc a / 2) (b / 2) ≡ bitwise z f (suc a / 2) (b / 2) =
        subst (λ n. digits z f n (suc a / 2) (b / 2) ≡ bitwise z f (suc a / 2) (b / 2)) h
          (any_more (a - suc a / 2) (suc a / 2) (b / 2)) in
      ap (λ (t : ℕ). t * 2 + f (suc a % 2) (b % 2)) fewer

pub bit_and_step : (x y : ℕ) → bit_and x y ≡ bit_and (x / 2) (y / 2) * 2 + min (x % 2) (y % 2)
bit_and_step x y = simp bit_and-bitwise (of_halves (λ b. 0) min (λ b. omega arith) x y)

pub bit_or_step : (x y : ℕ) → bit_or x y ≡ bit_or (x / 2) (y / 2) * 2 + max (x % 2) (y % 2)
bit_or_step x y = simp bit_or-bitwise (of_halves (λ b. b) max (λ b. omega arith) x y)

-- Each law below goes from the halves to the number: `n` bounds how often it can halve.
or_zero : (n a : ℕ) → a ≤ n → bit_or a 0 ≡ a
or_zero zero a h = let e : a ≡ 0 = omega arith in rw e
or_zero (suc n) zero h = refl
or_zero (suc n) (suc a) h =
    omega (arith, bit_or_step (suc a) 0, or_zero n (suc a / 2) (omega arith))

pub bit_or-zero : (a : ℕ) → bit_or a 0 ≡ a
bit_or-zero a = or_zero a a (omega arith)

zero_or : (n a : ℕ) → a ≤ n → bit_or 0 a ≡ a
zero_or zero a h = let e : a ≡ 0 = omega arith in rw e
zero_or (suc n) zero h = refl
zero_or (suc n) (suc a) h =
    omega (arith, bit_or_step 0 (suc a), zero_or n (suc a / 2) (omega arith))

pub zero-bit_or : (a : ℕ) → bit_or 0 a ≡ a
zero-bit_or a = zero_or a a (omega arith)

and_zero : (n a : ℕ) → a ≤ n → bit_and a 0 ≡ 0
and_zero zero a h = let e : a ≡ 0 = omega arith in rw e
and_zero (suc n) zero h = refl
and_zero (suc n) (suc a) h =
    omega (arith, bit_and_step (suc a) 0, and_zero n (suc a / 2) (omega arith))

pub bit_and-zero : (a : ℕ) → bit_and a 0 ≡ 0
bit_and-zero a = and_zero a a (omega arith)

double_shift : (q k : ℕ) → q * 2 ^ suc k ≡ 2 * (q * 2 ^ k)
double_shift q k = omega (arith, ap (λ (t : ℕ). q * t) (pow-suc 2 k))

and_split : (k q r : ℕ) → r < 2 ^ k → bit_and (q * 2 ^ k + r) (2 ^ k - 1) ≡ r
and_split zero q r h = omega (arith, bit_and-zero (q * 2 ^ 0 + r))
and_split (suc k) q r h = ground (
  arith,
  double_shift q k,
  pow-suc 2 k,
  bit_and_step (q * 2 ^ suc k + r) (2 ^ suc k - 1),
  and_split k q (r / 2) (omega (arith, pow-suc 2 k)),
)

-- `x & (2 ^ k - 1)` keeps the `k` low bits.
pub bit_and_low : (k a : ℕ) → bit_and a (2 ^ k - 1) ≡ a % 2 ^ k
bit_and_low k a = ground (arith, one-le-pow k 2, and_split k (a / 2 ^ k) (a % 2 ^ k))

-- `r | (q << k)` is a sum where `r` has `k` bits.
pub bit_or_high : (k r q : ℕ) → r < 2 ^ k → bit_or r (q * 2 ^ k) ≡ r + q * 2 ^ k
bit_or_high zero r q h =
    let e : r ≡ 0 = omega arith in rw (e, zero-bit_or (q * 2 ^ 0)) (omega arith)
bit_or_high (suc k) r q h = ground (
  arith,
  bit_or_step r (q * 2 ^ suc k),
  double_shift q k,
  pow-suc 2 k,
  bit_or_high k (r / 2) q (omega (arith, pow-suc 2 k)),
)

left-le-or : (n a b : ℕ) → a ≤ n → a ≤ bit_or a b
left-le-or zero a b h = omega arith
left-le-or (suc n) zero b h = omega arith
left-le-or (suc n) (suc a) b h =
    omega (arith, bit_or_step (suc a) b, left-le-or n (suc a / 2) (b / 2) (omega arith))

pub le-bit_or_left : (a b : ℕ) → a ≤ bit_or a b
le-bit_or_left a b = left-le-or a a b (omega arith)

right-le-or : (n a b : ℕ) → b ≤ n → b ≤ bit_or a b
right-le-or zero a b h = omega arith
right-le-or (suc n) a zero h = omega arith
right-le-or (suc n) a (suc b) h =
    omega (arith, bit_or_step a (suc b), right-le-or n (a / 2) (suc b / 2) (omega arith))

pub le-bit_or_right : (a b : ℕ) → b ≤ bit_or a b
le-bit_or_right a b = right-le-or b a b (omega arith)

or_and : (n a b : ℕ) → b ≤ n → bit_and (bit_or a b) b ≡ b
or_and zero a b h = let e : b ≡ 0 = omega arith in rw e (bit_and-zero (bit_or a 0))
or_and (suc n) a zero h = bit_and-zero (bit_or a 0)
or_and (suc n) a (suc b) h = ground (
  arith,
  bit_and_step (bit_or a (suc b)) (suc b),
  bit_or_step a (suc b),
  halves,
  or_and n (a / 2) (suc b / 2),
)
  where
    halves : bit_or a (suc b) / 2 ≡ bit_or (a / 2) (suc b / 2)
    halves = omega (arith, bit_or_step a (suc b))

-- What `s |= e` sets, a test by `s & e` finds.
pub bit_and-bit_or : (a b : ℕ) → bit_and (bit_or a b) b ≡ b
bit_and-bit_or a b = or_and b a b (omega arith)
