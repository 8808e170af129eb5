-- ===== src/Vga/Scroll.antt =====
-- `scroll` moves the rows of the screen up by one.
use mya_xos.Base.{ℕ, ◌+◌, ◌-◌, ◌*◌, ◌%◌, ◌^◌, ◌<◌, ◌≤◌, ◌≡◌, ◌⊎◌, arith, if◌then◌else◌, leb}
use mya_xos.Base.Bits.{bit_or_sum}
use mya_xos.Memory.{load16, within}
use mya_xos.Str.{memcpy}
use mya_xos.Str.Copy.{memcpy-within, memsetw-within, byte_of_word}
use mya_xos.Vga.{Console, scroll, blank}

-- The cell in row `r` and column `k`.
abbrev pub cell : Console → ℕ → ℕ → ℕ
cell s r k = load16 s.mem (s.textmemptr + 2 * (r * 80 + k))

-- The bytes after a scroll from the row below the last.
scroll-mem :
    (s : Console) (x : ℕ)
    → s.csr_y ≡ 25
    → (scroll s).mem x ≡ (
        if within s.textmemptr 3840 x
        then s.mem (x + 160)
        else if within (s.textmemptr + 3840) 160 x
        then byte_of_word (blank s.attrib) (x - (s.textmemptr + 3840))
        else s.mem x)
unfolding scroll
scroll-mem s x e =
    let t = s.textmemptr in
    ground (
      arith,
      memsetw-within (memcpy s.mem t (t + 2 * (1 * 80)) (24 * 80 * 2)) (t + 2 * (24 * 80))
          (blank s.attrib) 80 x,
      memcpy-within s.mem t (t + 2 * (1 * 80)) (24 * 80 * 2) x,
    )

blank-lt : (a : ℕ) → blank a < 2 ^ 16
unfolding blank
blank-lt a = omega arith

-- A blank cell: the attribute in the high byte and a space in the low one.
pub blank-sum : (a : ℕ) → blank a ≡ a % 256 * 256 + 0x20
unfolding blank
blank-sum a = ground (arith, bit_or_sum 8 a 0x20)

-- The rows of `s` have moved up by one in `s'`, and nothing else has.
pub record IsScrolled (s s' : Console) : Type 0 where
  pub row : s'.csr_y ≡ 24
  pub column : s'.csr_x ≡ s.csr_x
  pub moved : (r k : ℕ) → r < 24 → k < 80 → cell s' r k ≡ cell s (r + 1) k
  pub blanked : (k : ℕ) → k < 80 → cell s' 24 k ≡ s.attrib % 256 * 256 + 0x20
  pub outside : (x : ℕ) → (x < s.textmemptr) ⊎ (s.textmemptr + 4000 ≤ x) → s'.mem x ≡ s.mem x

scroll-fields :
    (s : Console)
    → ((scroll s).textmemptr ≡ s.textmemptr)
      × ((scroll s).csr_x ≡ s.csr_x)
      × ((scroll s).csr_y ≡ (if leb 25 s.csr_y then 24 else s.csr_y))
unfolding scroll
scroll-fields s = ground arith

-- From the row below the last, `scroll` puts the cursor into the last row, moves every row up by one,
-- puts spaces in the current colours into the last one and writes nowhere else.
pub scroll-IsScrolled : (s : Console) → s.csr_y ≡ 25 → IsScrolled s (scroll s)
scroll-IsScrolled s e =
    let (text, column, row) = scroll-fields s in
    record {
      row = ground arith;
      column = column;
      moved = λ r k hr hk.
          let x = s.textmemptr + 2 * (r * 80 + k) in
          let y : s.textmemptr + 2 * ((r + 1) * 80 + k) ≡ x + 160 = omega arith in
          let z : x + 1 + 160 ≡ x + 160 + 1 = omega arith in
          ground (arith, scroll-mem s x e, scroll-mem s (x + 1) e);
      blanked = λ k hk.
          let x = s.textmemptr + 2 * (24 * 80 + k) in
          ground (
            arith,
            scroll-mem s x e,
            scroll-mem s (x + 1) e,
            blank-lt s.attrib,
            blank-sum s.attrib,
          );
      outside = λ x off. ground (arith, scroll-mem s x e);
    }

-- From the other rows it does nothing.
pub scroll-same : (s : Console) → s.csr_y < 25 → scroll s ≡ s
unfolding scroll
scroll-same s h = ground arith
