-- ===== src/Descriptors.antt =====
-- The descriptor tables: kernel/core/gdt.c and kernel/core/idt.c, and the gates that
-- kernel/core/isrs.c and kernel/core/irq.c install. The addresses of the stubs in kernel/start.asm are
-- a parameter, by the number of the interrupt. The processor takes the tables by the pointers.
pub mod Gates
mod Tests
use mya_xos.Base.{
  ℕ, zero, suc, ◌+◌, ◌-◌, ◌*◌, ◌/◌, ◌%◌, ◌^◌, bit_and, bit_or, ◌==◌, ltb, if◌then◌else◌, u8, u16,
  ◌>>>◌,
}
use mya_xos.Ports.{Ports, outportb}

pub record GdtEntry : Type 0 where
  pub limit_low : ℕ
  pub base_low : ℕ
  pub base_middle : ℕ
  pub access : ℕ
  pub granularity : ℕ
  pub base_high : ℕ

pub gdt_set_gate : (num base limit access gran : ℕ) → (ℕ → GdtEntry) → (ℕ → GdtEntry)
gdt_set_gate num base limit access gran gdt k =
    if k == num
    then record {
      limit_low = bit_and limit 0xFFFF;
      base_low = bit_and base 0xFFFF;
      base_middle = bit_and (base >>> 16) 0xFF;
      access = u8 access;
      granularity = bit_or (bit_and (limit >>> 16) 0x0F) (bit_and gran 0xF0);
      base_high = bit_and (base >>> 24) 0xFF;
    }
    else gdt k

-- `struct gdt_ptr` and `struct idt_ptr`, which the processor is given.
pub record TablePointer : Type 0 where
  pub limit : ℕ
  pub base : ℕ

-- The null descriptor, the code segment and the data segment, of 8 bytes each, and the pointer to the
-- table at `base`.
pub gdt_install : (base : ℕ) → (ℕ → GdtEntry) → (ℕ → GdtEntry) × TablePointer
gdt_install base gdt =
    let gdt = gdt_set_gate 0 0 0 0 0 gdt in
    let gdt = gdt_set_gate 1 0 0xFFFFFFFF 0x9A 0xCF gdt in
    let gdt = gdt_set_gate 2 0 0xFFFFFFFF 0x92 0xCF gdt in
    (gdt, record { limit = 8 * 3 - 1; base = base })

pub record IdtEntry : Type 0 where
  pub offset_low : ℕ
  pub sel : ℕ
  pub zero_byte : ℕ
  pub type_flags : ℕ
  pub offset_high : ℕ

pub idt_set_gate : (num base sel flags : ℕ) → (ℕ → IdtEntry) → (ℕ → IdtEntry)
idt_set_gate num base sel flags idt k =
    if k == u8 num
    then record {
      offset_low = bit_and base 0xFFFF;
      offset_high = bit_and (base >>> 16) 0xFFFF;
      sel = u16 sel;
      zero_byte = 0;
      type_flags = u8 flags;
    }
    else idt k

abbrev pub blank_gate : IdtEntry
blank_gate = record { offset_low = 0; sel = 0; zero_byte = 0; type_flags = 0; offset_high = 0 }

-- The table of 256 gates of 8 bytes each is cleared; the pointer is to the table at `base`.
pub idt_install : (base : ℕ) → (ℕ → IdtEntry) → (ℕ → IdtEntry) × TablePointer
idt_install base idt =
    (λ k. if ltb k 256 then blank_gate else idt k, record { limit = 8 * 256 - 1; base = base })

-- The calls of `idt_set_gate` for the numbers from `first` on, one after another.
set_gates : (left first : ℕ) → (stub : ℕ → ℕ) → (ℕ → IdtEntry) → (ℕ → IdtEntry)
set_gates zero first stub idt = idt
set_gates (suc left) first stub idt =
    set_gates left (first + 1) stub (idt_set_gate first (stub first) 0x08 0x8E idt)

pub isrs_install : (stub : ℕ → ℕ) → (ℕ → IdtEntry) → (ℕ → IdtEntry)
isrs_install stub idt = set_gates 32 0 stub idt

-- The two interrupt controllers are told to use the numbers from 32 and from 40 on.
pub irq_remap : Ports → Ports
irq_remap p =
    let p = outportb 0x20 0x11 p in
    let p = outportb 0xA0 0x11 p in
    let p = outportb 0x21 0x20 p in
    let p = outportb 0xA1 0x28 p in
    let p = outportb 0x21 0x04 p in
    let p = outportb 0xA1 0x02 p in
    let p = outportb 0x21 0x01 p in
    let p = outportb 0xA1 0x01 p in let p = outportb 0x21 0x0 p in outportb 0xA1 0x0 p

pub irq_install : (stub : ℕ → ℕ) → (ℕ → IdtEntry) → Ports → (ℕ → IdtEntry) × Ports
irq_install stub idt p = (set_gates 16 32 stub idt, irq_remap p)
