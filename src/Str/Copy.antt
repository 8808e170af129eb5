-- ===== src/Str/Copy.antt =====
-- What `memcpy`, `memset` and `memsetw` write, address by address.
use mya_xos.Base.{
  ℕ, zero, suc, ◌+◌, ◌-◌, ◌*◌, ◌%◌, ◌≤◌, ◌≡◌, ◌⊎◌, ◌==◌, arith, if◌then◌else◌, u8, ◌>>>◌,
}
use mya_xos.Memory.{Memory, within}
use mya_xos.Str.{memcpy_loop, memcpy, memset_loop, memset, memsetw_loop, memsetw}

-- Before the index `i` the bytes are copied.
memcpy_loop-within :
    (left : ℕ) (m : Memory) (d s i x : ℕ)
    → (d ≤ s) ⊎ (s + i + left ≤ d)
    → memcpy_loop left m d s i x ≡ (if within (d + i) left x then m (s + (x - d)) else m x)
unfolding memcpy_loop
memcpy_loop-within zero m d s i x h = ground arith
memcpy_loop-within (suc left) m d s i x h =
    ground
      (arith, memcpy_loop-within left (λ y. if y == d + i then m (s + i) else m y) d s (i + 1) x)

-- `memcpy` copies `n` bytes and writes nowhere else, where the destination does not start inside the
-- source: also where it starts below the source and overlaps it.
pub memcpy-within :
    (m : Memory) (d s n x : ℕ)
    → (d ≤ s) ⊎ (s + n ≤ d)
    → memcpy m d s n x ≡ (if within d n x then m (s + (x - d)) else m x)
unfolding memcpy
memcpy-within m d s n x h = ground (arith, memcpy_loop-within n m d s 0 x)

memset_loop-within :
    (left : ℕ) (m : Memory) (d v i x : ℕ)
    → memset_loop left m d v i x ≡ (if within (d + i) left x then u8 v else m x)
unfolding memset_loop
memset_loop-within zero m d v i x = ground arith
memset_loop-within (suc left) m d v i x =
    ground (arith, memset_loop-within left (λ y. if y == d + i then u8 v else m y) d v (i + 1) x)

pub memset-within :
    (m : Memory) (d v n x : ℕ) → memset m d v n x ≡ (if within d n x then u8 v else m x)
unfolding memset
memset-within m d v n x = ground (arith, memset_loop-within n m d v 0 x)

-- The byte of the `short` `v` at the distance `k` from the start of an array filled with it.
abbrev pub byte_of_word : ℕ → ℕ → ℕ
byte_of_word v k = if k % 2 == 0 then u8 v else u8 (v >>> 8)

memsetw_loop-within :
    (left : ℕ) (m : Memory) (d v i x : ℕ)
    → memsetw_loop left m d v i x
      ≡ (if within (d + 2 * i) (2 * left) x then byte_of_word v (x - d) else m x)
unfolding memsetw_loop
memsetw_loop-within zero m d v i x = ground arith
memsetw_loop-within (suc left) m d v i x = ground (
  arith,
  memsetw_loop-within left
      (λ y. if y == d + 2 * i + 1 then u8 (v >>> 8) else if y == d + 2 * i then u8 v else m y) d v
      (i + 1) x,
)

-- `memsetw` fills `n` words, the low byte first, and writes nowhere else.
pub memsetw-within :
    (m : Memory) (d v n x : ℕ)
    → memsetw m d v n x ≡ (if within d (2 * n) x then byte_of_word v (x - d) else m x)
unfolding memsetw
memsetw-within m d v n x = ground (arith, memsetw_loop-within n m d v 0 x)
