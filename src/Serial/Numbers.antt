-- ===== src/Serial/Numbers.antt =====
-- source/peer/serial.h: the numbers that peer_read_u* and peer_write_u* move are little-endian.
use peer.Prelude.{
  ℕ, zero, suc, ◌+◌, ◌*◌, ◌/◌, ◌%◌, ◌^◌, ◌<◌, bit_and, bit_or, ◌≡◌, refl, ap, ◌∙◌, [], ◌∷◌, ◌++◌,
  some, arith, length, All,
}
use peer.Prelude.Bits.{bit_and_low, bit_or_high}
use native.Mathlib.Nat.{pow-suc}
use peer.Serial.{Bytes, u8, read_u16, read_u32, read_u64, write_u16, write_u32, write_u64}

-- The `k` low bytes of a number, the lowest first.
abbrev pub le_bytes : ℕ → ℕ → Bytes
le_bytes zero x = []
le_bytes (suc k) x = x % 256 ∷ le_bytes k (x / 256)

-- The number that such bytes stand for.
abbrev pub le_value : Bytes → ℕ
le_value [] = 0
le_value (b ∷ bs) = b + 256 * le_value bs

abbrev pub AreBytes : Bytes → Type 0
AreBytes = All λ b. b < 256

pub le_bytes-AreBytes : (k x : ℕ) → AreBytes (le_bytes k x)
le_bytes-AreBytes zero x = tt
le_bytes-AreBytes (suc k) x = (omega arith, le_bytes-AreBytes k (x / 256))

pub length-le_bytes : (k x : ℕ) → length (le_bytes k x) ≡ k
length-le_bytes zero x = refl
length-le_bytes (suc k) x = ap suc (length-le_bytes k (x / 256))

pub low_byte : (x : ℕ) → u8 (bit_and x 0xff) ≡ x % 256
low_byte x = omega (arith, bit_and_low 8 x)

pub write_u16_lem :
    (x c0 c1 : ℕ) (rest : Bytes) → write_u16 x (c0 ∷ c1 ∷ rest) ≡ some (le_bytes 2 x ++ rest)
unfolding write_u16
write_u16_lem x c0 c1 rest = rw (low_byte x) (ground arith)

pub write_u32_lem :
    (x c0 c1 c2 c3 : ℕ) (rest : Bytes)
    → write_u32 x (c0 ∷ c1 ∷ c2 ∷ c3 ∷ rest) ≡ some (le_bytes 4 x ++ rest)
unfolding write_u32
write_u32_lem x c0 c1 c2 c3 rest = rw (low_byte x) (ground arith)

pub write_u64_lem :
    (x c0 c1 c2 c3 c4 c5 c6 c7 : ℕ) (rest : Bytes)
    → write_u64 x (c0 ∷ c1 ∷ c2 ∷ c3 ∷ c4 ∷ c5 ∷ c6 ∷ c7 ∷ rest) ≡ some (le_bytes 8 x ++ rest)
unfolding write_u64
write_u64_lem x c0 c1 c2 c3 c4 c5 c6 c7 rest = rw (low_byte x) (ground arith)

pub read_u16_lem :
    (b0 b1 : ℕ) (rest : Bytes)
    → b0 < 256
    → read_u16 (b0 ∷ b1 ∷ rest) ≡ some (le_value (b0 ∷ b1 ∷ []))
unfolding read_u16
read_u16_lem b0 b1 rest h = ap some (bit_or_high 8 b0 b1 h ∙ omega arith)

low32 :
    (b0 b1 b2 b3 : ℕ)
    → AreBytes (b0 ∷ b1 ∷ b2 ∷ b3 ∷ [])
    → bit_or (bit_or (bit_or b0 (b1 * 2 ^ 8)) (b2 * 2 ^ 16)) (b3 * 2 ^ 24)
      ≡ le_value (b0 ∷ b1 ∷ b2 ∷ b3 ∷ [])
low32 b0 b1 b2 b3 h =
    rw
      (
        bit_or_high 8 b0 b1 h.0,
        bit_or_high 16 (b0 + b1 * 2 ^ 8) b2 (omega arith),
        bit_or_high 24 (b0 + b1 * 2 ^ 8 + b2 * 2 ^ 16) b3 (omega arith),
      )
      (omega arith)

pub read_u32_lem :
    (b0 b1 b2 b3 : ℕ) (rest : Bytes)
    → AreBytes (b0 ∷ b1 ∷ b2 ∷ b3 ∷ [])
    → read_u32 (b0 ∷ b1 ∷ b2 ∷ b3 ∷ rest) ≡ some (le_value (b0 ∷ b1 ∷ b2 ∷ b3 ∷ []))
unfolding read_u32
read_u32_lem b0 b1 b2 b3 rest h = ap some (low32 b0 b1 b2 b3 h)

pub read_u64_lem :
    (b0 b1 b2 b3 b4 b5 b6 b7 : ℕ) (rest : Bytes)
    → AreBytes (b0 ∷ b1 ∷ b2 ∷ b3 ∷ b4 ∷ b5 ∷ b6 ∷ b7 ∷ [])
    → read_u64 (b0 ∷ b1 ∷ b2 ∷ b3 ∷ b4 ∷ b5 ∷ b6 ∷ b7 ∷ rest)
      ≡ some (le_value (b0 ∷ b1 ∷ b2 ∷ b3 ∷ b4 ∷ b5 ∷ b6 ∷ b7 ∷ []))
unfolding read_u64
read_u64_lem b0 b1 b2 b3 b4 b5 b6 b7 rest h =
    let v3 = le_value (b0 ∷ b1 ∷ b2 ∷ b3 ∷ []) in
    rw
      (
        low32 b0 b1 b2 b3 (omega arith),
        bit_or_high 32 v3 b4 (omega arith),
        bit_or_high 40 (v3 + b4 * 2 ^ 32) b5 (omega arith),
        bit_or_high 48 (v3 + b4 * 2 ^ 32 + b5 * 2 ^ 40) b6 (omega arith),
        bit_or_high 56 (v3 + b4 * 2 ^ 32 + b5 * 2 ^ 40 + b6 * 2 ^ 48) b7 (omega arith),
      )
      (ap some (omega arith))

-- The `k` low bytes of a number that has no more stand for it.
pub le_value-le_bytes : (k x : ℕ) → x < 256 ^ k → le_value (le_bytes k x) ≡ x
le_value-le_bytes zero x h = omega arith
le_value-le_bytes (suc k) x h =
    omega (arith, pow-suc 256 k, le_value-le_bytes k (x / 256) (omega (arith, pow-suc 256 k)))

pub read_u16-le_bytes :
    (x : ℕ) (rest : Bytes) → x < 2 ^ 16 → read_u16 (le_bytes 2 x ++ rest) ≡ some x
read_u16-le_bytes x rest h =
    read_u16_lem (x % 256) ((x / 256) % 256) rest (omega arith) ∙ ap some (le_value-le_bytes 2 x h)

pub read_u32-le_bytes :
    (x : ℕ) (rest : Bytes) → x < 2 ^ 32 → read_u32 (le_bytes 4 x ++ rest) ≡ some x
read_u32-le_bytes x rest h =
    read_u32_lem (x % 256) ((x / 256) % 256) ((x / 256 / 256) % 256) ((x / 256 / 256 / 256) % 256)
      rest (le_bytes-AreBytes 4 x)
    ∙ ap some (le_value-le_bytes 4 x h)

pub read_u64-le_bytes :
    (x : ℕ) (rest : Bytes) → x < 2 ^ 64 → read_u64 (le_bytes 8 x ++ rest) ≡ some x
read_u64-le_bytes x rest h =
    read_u64_lem (x % 256) ((x / 256) % 256) ((x / 256 / 256) % 256) ((x / 256 / 256 / 256) % 256)
      ((x / 256 / 256 / 256 / 256) % 256) ((x / 256 / 256 / 256 / 256 / 256) % 256)
      ((x / 256 / 256 / 256 / 256 / 256 / 256) % 256)
      ((x / 256 / 256 / 256 / 256 / 256 / 256 / 256) % 256) rest (le_bytes-AreBytes 8 x)
    ∙ ap some (le_value-le_bytes 8 x h)
