-- ===== src/Base/Blocks.antt =====
-- Positions in a row of blocks of equal size.
use Prim.Native.Nat.{ℕ, ◌+◌, ◌*◌, ◌/◌, ◌%◌, ◌≤◌, ◌<◌}
use mathlib.Core.Path.{◌≡◌}
use native.Mathlib.Nat.{
  mul-add-div_right, mul-add-mod_self_right, mod-eq_of_lt, div-add-mod', div-eq_of_lt,
}
use native.Mathlib.Omega.{arith}

module _ (b : ℕ) (pos : 0 < b) where
  -- The `r`-th place of block `q`.
  pub block-div : (q r : ℕ) → r < b → (q * b + r) / b ≡ q
  block-div q r h = rw (mul-add-div_right pos q r, div-eq_of_lt h) (omega arith)

  pub block-mod : (q r : ℕ) → r < b → (q * b + r) % b ≡ r
  block-mod q r h = rw (mul-add-mod_self_right q b r) (mod-eq_of_lt h)

  -- Moving on inside a block.
  pub div-add_small : (t j : ℕ) → t % b + j < b → (t + j) / b ≡ t / b
  div-add_small t j h =
      let e : t + j ≡ t / b * b + (t % b + j) = omega (arith, div-add-mod' t b) in
      rw e (block-div (t / b) (t % b + j) h)

  pub mod-add_small : (t j : ℕ) → t % b + j < b → (t + j) % b ≡ t % b + j
  mod-add_small t j h =
      let e : t + j ≡ t / b * b + (t % b + j) = omega (arith, div-add-mod' t b) in
      rw e (block-mod (t / b) (t % b + j) h)

pub mul_le : (b r s : ℕ) → r ≤ s → b * r ≤ b * s
mul_le b r s h = grind arith
