-- ===== src/Allocator.antt =====
-- `malloc` and `free` as the kernel calls them. Their code in kernel/core/alloc.c is a copy of Kevin
-- Lange's slab allocator, another project, and is a parameter here, with what C says of the two.
pub mod Bump
use mya_xos.Base.{
  ℕ, ◌+◌, ◌<◌, ◌≤◌, ◌≡◌, ◌⊎◌, inl, inr, true, false, Bool, arith, ltb, leb, Bool-cases,
}
use mya_xos.Memory.{Memory, within}

-- The block that `malloc` returns, with the allocator's state and memory after the call.
pub record Block (H : Type 0) : Type 0 where
  pub pointer : ℕ
  pub heap : H
  pub mem : Memory

-- `safe h x` says that the address `x` belongs to the program: it lies in a live block or outside the
-- heap. `size_of h p` is the size of the live block at `p`.
pub record Allocator : Type 1 where
  pub Heap : Type 0
  pub safe : Heap → ℕ → Bool
  pub size_of : Heap → ℕ → ℕ
  pub malloc : (size : ℕ) → Heap → Memory → Block Heap
  pub free : (p : ℕ) → Heap → Memory → Heap × Memory
  pub malloc_fresh :
      (size : ℕ) (h : Heap) (m : Memory) (x : ℕ)
      → within (malloc size h m).pointer size x ≡ true
      → safe h x ≡ false
  pub malloc_live :
      (size : ℕ) (h : Heap) (m : Memory) (x : ℕ)
      → within (malloc size h m).pointer size x ≡ true
      → safe (malloc size h m).heap x ≡ true
  pub malloc_size :
      (size : ℕ) (h : Heap) (m : Memory)
      → size_of (malloc size h m).heap (malloc size h m).pointer ≡ size
  pub malloc_safe :
      (size : ℕ) (h : Heap) (m : Memory) (x : ℕ)
      → safe h x ≡ true
      → safe (malloc size h m).heap x ≡ true
  pub malloc_keeps :
      (size : ℕ) (h : Heap) (m : Memory) (x : ℕ) → safe h x ≡ true → (malloc size h m).mem x ≡ m x
  pub free_safe :
      (p : ℕ) (h : Heap) (m : Memory) (x : ℕ)
      → safe h x ≡ true
      → within p (size_of h p) x ≡ false
      → safe (free p h m).0 x ≡ true
  pub free_keeps :
      (p : ℕ) (h : Heap) (m : Memory) (x : ℕ)
      → safe h x ≡ true
      → within p (size_of h p) x ≡ false
      → (free p h m).1 x ≡ m x

module _ (a : Allocator) where
  open a use {Heap, malloc, free}

  pub record Machine : Type 0 where
    pub heap : Heap
    pub mem : Memory

  abbrev pub allocate : ℕ → Machine → ℕ × Machine
  allocate size s =
      let b = malloc size s.heap s.mem in (b.pointer, record { heap = b.heap; mem = b.mem })

  abbrev pub release : ℕ → Machine → Machine
  release p s = let (h, m) = free p s.heap s.mem in record { heap = h; mem = m }

  -- What the program owned lies outside of a new block.
  pub owned-apart :
      (size p n : ℕ) (s : Machine)
      → 0 < size
      → ((x : ℕ) → p ≤ x → x ≤ p + n → a.safe s.heap x ≡ true)
      → let block = (allocate size s).0 in (p + n < block) ⊎ (block + size ≤ p)
  owned-apart size p n s pos owned =
      let block = (allocate size s).0 in
      let start : within block size block ≡ true = ground arith in
      elim (Bool-cases (ltb (p + n) block)) [
        | inl below ↦ inl (ground (arith, below))
        | inr reaches ↦ elim (Bool-cases (leb (block + size) p)) [
          | inl past ↦ inr (ground (arith, past))
          | inr before ↦ elim (Bool-cases (leb p block)) [
            | inl covers ↦ absurd (
                ground (
                  arith,
                  owned block (ground (arith, covers)) (ground (arith, reaches)),
                  a.malloc_fresh size s.heap s.mem block start,
                ))
            | inr inside ↦
                let held : within block size p ≡ true = ground (arith, before, inside) in
                absurd (
                  ground (
                    arith,
                    owned p (omega arith) (omega arith),
                    a.malloc_fresh size s.heap s.mem p held,
                  ))
          ]
        ]
      ]
