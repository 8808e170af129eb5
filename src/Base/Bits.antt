-- ===== src/Base/Bits.antt =====
-- `&`, `|` and `~` on words by their binary digits, and masks of one bit and of the low bits.
mod Step
pub use Step.*
use native.Mathlib.Nat.{pow-suc, one-le-pow}
use Prim.Native.Nat.{
  ℕ, zero, suc, ◌+◌, ◌-◌, ◌*◌, ◌/◌, ◌%◌, ◌^◌, ◌<◌, ◌≤◌, min, max, bit_and, bit_or, bit_or-bitwise,
}
use mathlib.Core.Path.{◌≡◌, refl, ap}
use mathlib.Core.Logic.{◌≢◌}
use native.Mathlib.Omega.{arith}
use mya_xos.Base.Tests.{◌==◌, if◌then◌else◌}

-- The binary digit of `w` at position `k`, counted from 0.
abbrev pub bit : ℕ → ℕ → ℕ
bit w zero = w % 2
bit w (suc k) = bit (w / 2) k

pub bit-lt : (k w : ℕ) → bit w k < 2
bit-lt zero w = omega arith
bit-lt (suc k) w = bit-lt k (w / 2)

pub bit-zero : (k : ℕ) → bit 0 k ≡ 0
bit-zero zero = refl
bit-zero (suc k) = bit-zero k

pub bit-bit_or : (k a b : ℕ) → bit (bit_or a b) k ≡ max (bit a k) (bit b k)
bit-bit_or zero a b = omega (arith, bit_or_step a b)
bit-bit_or (suc k) a b =
    let half : bit_or a b / 2 ≡ bit_or (a / 2) (b / 2) = omega (arith, bit_or_step a b) in
    rw half (bit-bit_or k (a / 2) (b / 2))

pub bit-bit_and : (k a b : ℕ) → bit (bit_and a b) k ≡ min (bit a k) (bit b k)
bit-bit_and zero a b = omega (arith, bit_and_step a b)
bit-bit_and (suc k) a b =
    let half : bit_and a b / 2 ≡ bit_and (a / 2) (b / 2) = omega (arith, bit_and_step a b) in
    rw half (bit-bit_and k (a / 2) (b / 2))

pub bit-pow : (k j : ℕ) → bit (2 ^ k) j ≡ (if k == j then 1 else 0)
bit-pow zero zero = refl
bit-pow zero (suc j) = ground (arith, bit-zero j)
bit-pow (suc k) zero = ground (arith, pow-suc 2 k)
bit-pow (suc k) (suc j) =
    let half : 2 ^ suc k / 2 ≡ 2 ^ k = omega (arith, pow-suc 2 k) in
    rw half (ground (arith, bit-pow k j))

-- The complement in a word of `n` bits.
pub bit-complement : (n k w : ℕ) → w < 2 ^ n → k < n → bit (2 ^ n - 1 - w) k ≡ 1 - bit w k
bit-complement zero k w h l = absurd (omega arith)
bit-complement (suc n) zero w h l = omega (arith, pow-suc 2 n)
bit-complement (suc n) (suc k) w h l =
    let half : (2 ^ suc n - 1 - w) / 2 ≡ 2 ^ n - 1 - w / 2 = omega (arith, pow-suc 2 n) in
    rw half (bit-complement n k (w / 2) (omega (arith, pow-suc 2 n)) (omega arith))

bit_and-zero_below : (bound x : ℕ) → x ≤ bound → bit_and x 0 ≡ 0
bit_and-zero_below zero x h = ground arith
bit_and-zero_below (suc bound) x h =
    let half = bit_and-zero_below bound (x / 2) (omega arith) in
    omega (arith, bit_and_step x 0, half)

bit_and-zero : (x : ℕ) → bit_and x 0 ≡ 0
bit_and-zero x = bit_and-zero_below x x (omega arith)

-- A mask of one bit selects that bit.
pub bit_and-pow : (k a : ℕ) → bit_and a (2 ^ k) ≡ bit a k * 2 ^ k
bit_and-pow zero a = omega (arith, bit_and_step a 1, bit_and-zero (a / 2))
bit_and-pow (suc k) a =
    let half : 2 ^ suc k / 2 ≡ 2 ^ k = omega (arith, pow-suc 2 k) in
    let even : 2 ^ suc k % 2 ≡ 0 = omega (arith, pow-suc 2 k) in
    rw (bit_and_step a (2 ^ suc k), half, even, bit_and-pow k (a / 2), pow-suc 2 k) (grind arith)

two_mul-pow : (k q : ℕ) → q * 2 ^ suc k ≡ 2 * (q * 2 ^ k)
two_mul-pow k q = rw (pow-suc 2 k) (grind arith)

-- A mask of `k` low bits drops all that stands above them.
bit_and-low : (k q r : ℕ) → r < 2 ^ k → bit_and (q * 2 ^ k + r) (2 ^ k - 1) ≡ r
bit_and-low zero q r h = rw bit_and-zero (omega arith)
bit_and-low (suc k) q r h =
    let pw = pow-suc 2 k in
    let sum : (q * 2 ^ suc k + r) / 2 ≡ q * 2 ^ k + r / 2 = omega (arith, two_mul-pow k q) in
    let odd : (q * 2 ^ suc k + r) % 2 ≡ r % 2 = omega (arith, two_mul-pow k q) in
    let ones : (2 ^ suc k - 1) / 2 ≡ 2 ^ k - 1 = omega arith in
    let ih = bit_and-low k q (r / 2) (omega arith) in
    rw (bit_and_step (q * 2 ^ suc k + r) (2 ^ suc k - 1), sum, odd, ones, ih)
      (omega (arith, one-le-pow k 2))

-- So it is the remainder by `2 ^ k`.
pub bit_and_mask : (k w : ℕ) → bit_and w (2 ^ k - 1) ≡ w % 2 ^ k
bit_and_mask k w =
    let low = bit_and-low k (w / 2 ^ k) (w % 2 ^ k) in ground (arith, low, one-le-pow k 2)

-- A mask of `n` ones above `k` zeros keeps the digits from `k` on.
bit_and-high :
    (k n q r : ℕ) → r < 2 ^ k → bit_and (q * 2 ^ k + r) ((2 ^ n - 1) * 2 ^ k) ≡ q % 2 ^ n * 2 ^ k
bit_and-high zero n q r h =
    let whole : q * 2 ^ 0 + r ≡ q = omega arith in
    let ones : (2 ^ n - 1) * 2 ^ 0 ≡ 2 ^ n - 1 = omega arith in
    rw (whole, ones) (omega (arith, bit_and_mask n q))
bit_and-high (suc k) n q r h =
    let pw = pow-suc 2 k in
    let sum : (q * 2 ^ suc k + r) / 2 ≡ q * 2 ^ k + r / 2 = omega (arith, two_mul-pow k q) in
    let half : (2 ^ n - 1) * 2 ^ suc k / 2 ≡ (2 ^ n - 1) * 2 ^ k =
      omega (arith, two_mul-pow k (2 ^ n - 1)) in
    let even : (2 ^ n - 1) * 2 ^ suc k % 2 ≡ 0 = omega (arith, two_mul-pow k (2 ^ n - 1)) in
    rw
      (
        bit_and_step (q * 2 ^ suc k + r) ((2 ^ n - 1) * 2 ^ suc k),
        sum,
        half,
        even,
        bit_and-high k n q (r / 2) (omega arith),
      )
      (omega (arith, two_mul-pow k (q % 2 ^ n)))

-- On a word of 32 bits, `& ~(2 ^ k - 1)` rounds down to a multiple of `2 ^ k`.
pub bit_and_page : (a : ℕ) → a < 2 ^ 32 → bit_and a 0xFFFFF000 ≡ a - a % 4096
bit_and_page a h =
    let split : a ≡ a / 4096 * 2 ^ 12 + a % 4096 = omega arith in
    ground (arith, split, bit_and-high 12 20 (a / 4096) (a % 4096))

pub bit_and_tab : (a : ℕ) → a < 2 ^ 32 → bit_and a 0xFFFFFFF8 ≡ a - a % 8
bit_and_tab a h =
    let split : a ≡ a / 8 * 2 ^ 3 + a % 8 = omega arith in
    ground (arith, split, bit_and-high 3 29 (a / 8) (a % 8))

zero-bit_or : (b : ℕ) → bit_or 0 b ≡ b
zero-bit_or b = simp bit_or-bitwise refl

-- `|` of `k` low digits and of digits above them is a sum.
pub bit_or_sum : (k q r : ℕ) → r < 2 ^ k → bit_or r (q * 2 ^ k) ≡ q * 2 ^ k + r
bit_or_sum zero q zero h = omega (arith, zero-bit_or (q * 2 ^ 0))
bit_or_sum zero q (suc r) h = absurd (omega arith)
bit_or_sum (suc k) q r h =
    let half : q * 2 ^ suc k / 2 ≡ q * 2 ^ k = omega (arith, two_mul-pow k q) in
    let even : q * 2 ^ suc k % 2 ≡ 0 = omega (arith, two_mul-pow k q) in
    rw
      (
        bit_or_step r (q * 2 ^ suc k),
        half,
        even,
        bit_or_sum k q (r / 2) (omega (arith, pow-suc 2 k)),
      )
      (omega (arith, two_mul-pow k q))

-- The lowest digit of an even word.
pub bit_or_one : (w : ℕ) → w < 2 ^ 32 → w % 2 ≡ 0 → bit_or w 1 ≡ w + 1
bit_or_one w small even = omega (arith, bit_or_step w 1, bit_or_sum 32 0 (w / 2) (omega arith))

pub bit_or-lt : (k a b : ℕ) → a < 2 ^ k → b < 2 ^ k → bit_or a b < 2 ^ k
bit_or-lt zero zero zero ha hb = omega (arith, zero-bit_or 0)
bit_or-lt zero (suc a) b ha hb = absurd (omega arith)
bit_or-lt zero zero (suc b) ha hb = absurd (omega arith)
bit_or-lt (suc k) a b ha hb =
    let pw = pow-suc 2 k in
    omega (arith, bit_or_step a b, bit_or-lt k (a / 2) (b / 2) (omega arith) (omega arith))

pub bit_and_high_nibble : (a : ℕ) → a < 2 ^ 8 → bit_and a 0xF0 ≡ a / 16 * 16
bit_and_high_nibble a h =
    let split : a ≡ a / 16 * 2 ^ 4 + a % 16 = omega arith in
    ground (arith, split, bit_and-high 4 4 (a / 16) (a % 16))
