-- ===== src/Descriptors/Tests.antt =====
-- A code segment, and stubs that lie 16 bytes apart.
use mya_xos.Base.{ℕ, ◌+◌, ◌*◌, ◌/◌, ◌%◌, ◌^◌, ◌≡◌, [], ltb, ◌==◌, if◌then◌else◌, arith}
use mya_xos.Ports.{Ports}
use mya_xos.Descriptors.{GdtEntry, gdt_set_gate, IdtEntry, blank_gate, isrs_install, irq_install}
use mya_xos.Descriptors.Gates.{
  segment_base, segment_limit, gate_to, gdt_set_gate-reads, irq_install-isrs_install,
}

abbrev null_segments : ℕ → GdtEntry
null_segments k = record {
  limit_low = 0;
  base_low = 0;
  base_middle = 0;
  access = 0;
  granularity = 0;
  base_high = 0;
}

gdt_set_gate-reads_example :
    let gdt' = gdt_set_gate 1 0x12345678 0xABCDE 0x9A 0xCF null_segments in
    (segment_base (gdt' 1) ≡ 0x12345678)
    × (segment_limit (gdt' 1) ≡ 0xABCDE % 2 ^ 20)
    × ((gdt' 1).access ≡ 0x9A)
    × ((gdt' 1).granularity / 16 ≡ 0xCF / 16)
    × (gdt' 2 ≡ (if 2 == 1 then gdt' 1 else null_segments 2))
gdt_set_gate-reads_example =
    gdt_set_gate-reads 1 0x12345678 0xABCDE 0x9A 0xCF 2 null_segments (omega arith) (omega arith)
      (omega arith)

abbrev stub : ℕ → ℕ
stub n = 0x100000 + n % 64 * 16

abbrev empty_idt : ℕ → IdtEntry
empty_idt k = blank_gate

abbrev quiet : Ports
quiet = record { answer = λ n p. 0; reads = 0; written = [] }

irq_install-isrs_install_example : (irq_install stub (isrs_install stub empty_idt) quiet).0 33 ≡ (
    if ltb 33 32 then gate_to (stub 33) else if ltb 33 48 then gate_to (stub 33) else empty_idt 33)
irq_install-isrs_install_example =
    irq_install-isrs_install stub stub empty_idt quiet 33 (λ n. omega arith) (λ n. omega arith)
