-- ===== src/Ports.antt =====
-- The I/O ports of the machine: `inportb` and `outportb` of kernel/core/system.c. What a device
-- answers is its own affair: `answer n p` is the byte that the `n`-th read of all returns, where it
-- is of port `p`. What is written is recorded, the latest write first.
use mya_xos.Base.{ℕ, ◌+◌, List, ◌∷◌, u8, u16}

pub record Ports : Type 0 where
  pub answer : ℕ → ℕ → ℕ
  pub reads : ℕ
  pub written : List (ℕ × ℕ)

unfoldable pub inportb : ℕ → Ports → ℕ × Ports
inportb port s = (u8 (s.answer s.reads port), record s { reads = s.reads + 1 })

unfoldable pub outportb : ℕ → ℕ → Ports → Ports
outportb port byte s = record s { written = (u16 port, u8 byte) ∷ s.written }
