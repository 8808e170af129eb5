-- ===== src/Paging/Flat/Words.antt =====
-- Words in memory: what is read of them after a word is written and after a fill.
use mya_xos.Base.{ℕ, ◌+◌, ◌^◌, ◌<◌, ◌≤◌, ◌≡◌, ◌⊎◌, arith}
use mya_xos.Memory.{Memory, load32}
use mya_xos.Str.{memset}
use mya_xos.Str.Copy.{memset-within}
use mya_xos.Paging.Flat.{store32}

pub load32-store32 : (m : Memory) (a v : ℕ) → v < 2 ^ 32 → load32 (store32 m a v) a ≡ v
unfolding load32
load32-store32 m a v small = ground arith

pub load32-store32_apart :
    (m : Memory) (a b v : ℕ) → (b + 4 ≤ a) ⊎ (a + 4 ≤ b) → load32 (store32 m a v) b ≡ load32 m b
unfolding load32
load32-store32_apart m a b v off = ground (arith, off)

pub load32-memset : (m : Memory) (d n b : ℕ) → d ≤ b → b + 4 ≤ d + n → load32 (memset m d 0 n) b ≡ 0
unfolding load32
load32-memset m d n b lo hi = ground (
  arith,
  memset-within m d 0 n b,
  memset-within m d 0 n (b + 1),
  memset-within m d 0 n (b + 2),
  memset-within m d 0 n (b + 2 + 1),
)

pub load32-memset_apart :
    (m : Memory) (d n b : ℕ) → (b + 4 ≤ d) ⊎ (d + n ≤ b) → load32 (memset m d 0 n) b ≡ load32 m b
unfolding load32
load32-memset_apart m d n b off = ground (
  arith,
  off,
  memset-within m d 0 n b,
  memset-within m d 0 n (b + 1),
  memset-within m d 0 n (b + 2),
  memset-within m d 0 n (b + 2 + 1),
)
