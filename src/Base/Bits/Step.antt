-- ===== src/Base/Bits/Step.antt =====
-- `bit_and` and `bit_or` by their lowest digit. The kernel's operations stand for `digits`, a walk
-- over binary digits on fuel; any fuel that covers the first operand gives the same number.
use Prim.Native.Nat.{
  ℕ, zero, suc, ◌+◌, ◌-◌, ◌*◌, ◌/◌, ◌%◌, ◌≤◌, ◌<◌, min, max, bit_and, bit_or, digits,
  bit_and-bitwise, bit_or-bitwise,
}
use mathlib.Core.Path.{◌≡◌, refl, ap}
use native.Mathlib.Omega.{arith}

-- One more unit of fuel than needed changes nothing.
more_fuel :
    (z : ℕ → ℕ) (op : ℕ → ℕ → ℕ) (n a b : ℕ) → a ≤ n → digits z op (suc n) a b ≡ digits z op n a b
more_fuel z op zero zero b h = refl
more_fuel z op zero (suc a) b h = absurd (omega arith)
more_fuel z op (suc n) zero b h = refl
more_fuel z op (suc n) (suc a) b h =
    ap (λ t. t * 2 + op (suc a % 2) (b % 2)) (more_fuel z op n (suc a / 2) (b / 2) (omega arith))

spare_fuel :
    (z : ℕ → ℕ) (op : ℕ → ℕ → ℕ) (extra n a b : ℕ)
    → a ≤ n
    → digits z op (extra + n) a b ≡ digits z op n a b
spare_fuel z op zero n a b h = rw Prim.Native.Nat.add.zero
spare_fuel z op (suc extra) n a b h =
    rw (Prim.Native.Nat.add.suc, more_fuel z op (extra + n) a b (omega arith))
      (spare_fuel z op extra n a b h)

exact_fuel :
    (z : ℕ → ℕ) (op : ℕ → ℕ → ℕ) (a b : ℕ)
    → digits z op a (suc a / 2) b ≡ digits z op (suc a / 2) (suc a / 2) b
exact_fuel z op a b =
    let split : a ≡ (a - suc a / 2) + suc a / 2 = omega arith in
    rw (ap (λ n. digits z op n (suc a / 2) b) split)
      (spare_fuel z op (a - suc a / 2) (suc a / 2) (suc a / 2) b (omega arith))

-- The lowest digit comes last.
pub bit_or_step : (x y : ℕ) → bit_or x y ≡ bit_or (x / 2) (y / 2) * 2 + max (x % 2) (y % 2)
bit_or_step zero y = simp bit_or-bitwise (omega arith)
bit_or_step (suc x) y =
    let same = exact_fuel (λ z. z) max x (y / 2) in simp bit_or-bitwise (omega (arith, same))

pub bit_and_step : (x y : ℕ) → bit_and x y ≡ bit_and (x / 2) (y / 2) * 2 + min (x % 2) (y % 2)
bit_and_step zero y = simp bit_and-bitwise (omega arith)
bit_and_step (suc x) y =
    let same = exact_fuel (λ z. 0) min x (y / 2) in simp bit_and-bitwise (omega (arith, same))
