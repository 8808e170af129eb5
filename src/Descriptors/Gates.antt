-- ===== src/Descriptors/Gates.antt =====
-- The addresses and limits that a processor reads back from the tables.
use mya_xos.Base.{
  ℕ, zero, suc, ◌+◌, ◌*◌, ◌/◌, ◌%◌, ◌^◌, ◌<◌, ◌≤◌, ◌≡◌, arith, ◌==◌, ltb, if◌then◌else◌,
}
use mya_xos.Base.Bits.{bit_and_mask, bit_or_sum, bit_and_high_nibble}
use mya_xos.Memory.{within}
use mya_xos.Ports.{Ports}
use mya_xos.Descriptors.{
  GdtEntry, gdt_set_gate, IdtEntry, idt_set_gate, set_gates, isrs_install, irq_install,
}

abbrev pub segment_base : GdtEntry → ℕ
segment_base e = e.base_low + 2 ^ 16 * e.base_middle + 2 ^ 24 * e.base_high

abbrev pub segment_limit : GdtEntry → ℕ
segment_limit e = e.limit_low + 2 ^ 16 * (e.granularity % 16)

-- A present interrupt gate to the address `a`, in the code segment and for the kernel only.
abbrev pub gate_to : ℕ → IdtEntry
gate_to a = record {
  offset_low = a % 2 ^ 16;
  sel = 0x08;
  zero_byte = 0;
  type_flags = 0x8E;
  offset_high = a / 2 ^ 16;
}

-- A descriptor reads back as its base, the low 20 bits of its limit, its access byte and its flags, and the other
-- descriptors stay as they were.
pub gdt_set_gate-reads :
    (num base limit access gran k : ℕ) (gdt : ℕ → GdtEntry)
    → base < 2 ^ 32
    → access < 256
    → gran < 256
    → let gdt' = gdt_set_gate num base limit access gran gdt in
      (segment_base (gdt' num) ≡ base)
      × (segment_limit (gdt' num) ≡ limit % 2 ^ 20)
      × ((gdt' num).access ≡ access)
      × ((gdt' num).granularity / 16 ≡ gran / 16)
      × (gdt' k ≡ (if k == num then gdt' num else gdt k))
unfolding gdt_set_gate
gdt_set_gate-reads num base limit access gran k gdt hb ha hg = ground (
  arith,
  bit_and_mask 16 limit,
  bit_and_mask 16 base,
  bit_and_mask 8 (base / 2 ^ 16),
  bit_and_mask 8 (base / 2 ^ 24),
  bit_and_mask 4 (limit / 2 ^ 16),
  bit_and_high_nibble gran hg,
  bit_or_sum 4 (gran / 16) (limit / 2 ^ 16 % 16),
)

-- The gates from `first` on are present and lead to their stubs, and the others are as they were.
set_gates-gate_to :
    (left first k : ℕ) (stub : ℕ → ℕ) (idt : ℕ → IdtEntry)
    → ((n : ℕ) → stub n < 2 ^ 32)
    → first + left ≤ 256
    → set_gates left first stub idt k ≡ (if within first left k then gate_to (stub k) else idt k)
unfolding set_gates idt_set_gate
set_gates-gate_to zero first k stub idt small room = ground arith
set_gates-gate_to (suc left) first k stub idt small room = ground (
  arith,
  set_gates-gate_to left (first + 1) k stub (idt_set_gate first (stub first) 0x08 0x8E idt) small,
  bit_and_mask 16 (stub first),
  bit_and_mask 16 (stub first / 2 ^ 16),
  small first,
)

-- With stubs at addresses of 32 bits, once exceptions and interrupts are installed, the gates from 0 to
-- 31 are present interrupt gates in the code segment to the stubs of the exceptions, those from 32 to
-- 47 such gates to the stubs of the interrupts, and the others are as they were.
pub irq_install-isrs_install :
    (isr irq : ℕ → ℕ) (idt : ℕ → IdtEntry) (p : Ports) (k : ℕ)
    → ((n : ℕ) → isr n < 2 ^ 32)
    → ((n : ℕ) → irq n < 2 ^ 32)
    → (irq_install irq (isrs_install isr idt) p).0 k
      ≡ (if ltb k 32 then gate_to (isr k) else if ltb k 48 then gate_to (irq k) else idt k)
unfolding irq_install isrs_install
irq_install-isrs_install isr irq idt p k hi hq = ground (
  arith,
  set_gates-gate_to 16 32 k irq (set_gates 32 0 isr idt) hq,
  set_gates-gate_to 32 0 k isr idt hi,
)
