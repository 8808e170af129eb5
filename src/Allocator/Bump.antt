-- ===== src/Allocator/Bump.antt =====
-- An allocator that never takes a block back and keeps a spare byte behind each one. The state is the
-- next free address and the size of the last block.
use mya_xos.Base.{ℕ, ◌+◌, refl, arith, ltb}
use mya_xos.Allocator.{Allocator}

abbrev pub bump : Allocator
bump = record {
  Heap = ℕ × ℕ;
  safe = λ h x. ltb x h.0;
  size_of = λ h p. h.1;
  malloc = λ size h m. record { pointer = h.0; heap = (h.0 + size + 1, size); mem = m };
  free = λ p h m. (h, m);
  malloc_fresh = λ size h m x e. ground arith;
  malloc_live = λ size h m x e. ground arith;
  malloc_size = λ size h m. refl;
  malloc_safe = λ size h m x e. ground arith;
  malloc_keeps = λ size h m x e. refl;
  free_safe = λ p h m x e off. e;
  free_keeps = λ p h m x e off. refl;
}
