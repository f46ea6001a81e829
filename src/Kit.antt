-- ===== src/Kit.antt =====
-- What the program asks of the allocator and of the kit library's dynamic arrays, which are not
-- part of it. DA_INIT and DA_RESIZE give an array of the size that is asked for, with nothing
-- promised of the new elements; if there is no memory, DA_INIT gives an empty array and DA_RESIZE
-- leaves the array as it was. An array can always be made smaller.
use peer.Prelude.{ℕ, Bool, List, tabulate}
use peer.Prelude.Int.{ℤ}

-- The arrays that the program allocates.
pub data Array : Type 0 where
  packets chunks chunk refs messages payload slots nodes ids : Array

-- `fits a n` tells whether an array `a` of `n` elements can be had. The other fields are what
-- memory holds that nothing has been written to.
pub record Kit : Type 0 where
  pub fits : Array → ℕ → Bool
  pub byte : ℕ → ℕ
  pub word : ℤ

-- `n` bytes of new memory.
abbrev pub new_bytes : Kit → ℕ → List ℕ
new_bytes kit n = tabulate kit.byte 0 n
