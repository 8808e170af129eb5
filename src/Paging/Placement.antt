-- ===== src/Paging/Placement.antt =====
-- What the placement allocator hands out.
use mya_xos.Base.{ℕ, ◌+◌, ◌-◌, ◌%◌, ◌^◌, ◌≤◌, ◌<◌, ◌≡◌, ◌≢◌, List, [], ◌∷◌, arith, u32, ap, none}
use native.Mathlib.Nat.{add_assoc}
use mya_xos.Base.Bits.{bit_and_page}
use mya_xos.Paging.{Placed, kmalloc_real, kmalloc, kvmalloc, kvmalloc_p}

-- A plain request.
pub kmalloc_lem :
    (size p : ℕ)
    → p + size < 2 ^ 32
    → kmalloc size p ≡ record { address = p; phys = none; placement = p + size }
unfolding kmalloc kmalloc_real
kmalloc_lem size p fits = ap (λ n. record { address = p; phys = none; placement = n }) (omega arith)

-- An aligned request starts at the page boundary at or below the placement pointer, and the pointer
-- moves to its end.
pub kvmalloc-page :
    (size p : ℕ)
    → 4096 ≤ p
    → p - p % 4096 + size < 2 ^ 32
    → ((kvmalloc size p).address ≡ p - p % 4096)
      × ((kvmalloc size p).placement ≡ p - p % 4096 + size)
unfolding kvmalloc kmalloc_real
kvmalloc-page size p lo hi = ground (arith, bit_and_page p)

pub kvmalloc_p-page :
    (size p : ℕ)
    → 4096 ≤ p
    → p - p % 4096 + size < 2 ^ 32
    → ((kvmalloc_p size p).address ≡ p - p % 4096)
      × ((kvmalloc_p size p).placement ≡ p - p % 4096 + size)
unfolding kvmalloc_p kmalloc_real
kvmalloc_p-page size p lo hi = ground (arith, bit_and_page p)

-- An aligned request of at least a page after a plain one that ends inside a page is given the last
-- byte of the block before it.
kvmalloc-kmalloc_overlap :
    (size size' p : ℕ)
    → 0 < size
    → 4096 ≤ size'
    → 4096 ≤ p
    → p + size + size' < 2 ^ 32
    → (p + size) % 4096 ≢ 0
    → let first = kmalloc size p in
      let second = kvmalloc size' first.placement in
      (second.address < first.address + size) × (first.address + size ≤ second.address + size')
unfolding kmalloc kvmalloc kmalloc_real
kvmalloc-kmalloc_overlap size size' p pos page lo hi off = ground (arith, bit_and_page (p + size))

-- The blocks of plain requests made one after another.
abbrev pub place_all : List ℕ → ℕ → List Placed
place_all [] p = []
place_all (n ∷ ns) p = kmalloc n p ∷ place_all ns (kmalloc n p).placement

abbrev pub sum : List ℕ → ℕ
sum [] = 0
sum (n ∷ ns) = n + sum ns

-- Each block ends where, or before, the next one starts, from `lo` to `hi`.
abbrev pub IsAscending : ℕ → ℕ → List ℕ → List Placed → Type 0
IsAscending lo hi [] [] = lo ≤ hi
IsAscending lo hi (n ∷ ns) [] = ⊥
IsAscending lo hi [] (b ∷ bs) = ⊥
IsAscending lo hi (n ∷ ns) (b ∷ bs) = (lo ≤ b.address) × IsAscending (b.address + n) hi ns bs

-- Plain requests that fit below 2 ^ 32 get disjoint blocks, in ascending order, and fill exactly the
-- room up to the sum of their sizes.
place_all-IsAscending :
    (sizes : List ℕ) (p : ℕ)
    → p + sum sizes < 2 ^ 32
    → IsAscending p (p + sum sizes) sizes (place_all sizes p)
unfolding kmalloc kmalloc_real
place_all-IsAscending [] p h = omega arith
place_all-IsAscending (n ∷ ns) p h =
    let e : u32 (p + n) ≡ p + n = omega arith in
    (omega arith, rw (e, ← add_assoc p n (sum ns)) (place_all-IsAscending ns (p + n) (omega arith)))
