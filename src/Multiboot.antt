-- ===== src/Multiboot.antt =====
-- kernel/core/multiboot.c over the structure of kernel/include/multiboot.h: what the kernel prints of the
-- boot loader's report, and the copy of the report. The structure is 24 words.
pub mod Dump
use mya_xos.Base.{
  ℕ, zero, suc, ◌+◌, ◌*◌, ◌/◌, ◌^◌, bit_and, ◌≡◌, List, [], ◌∷◌, Bool, not, ◌==◌, ltb, u32,
}
use Prim.Native.String.{String}
use mya_xos.Memory.{Memory, load32}
use mya_xos.Str.{memcpy}
use mya_xos.Paging.{Mm, kmalloc}
use mya_xos.Report.{Script, stop, say, colours, default_colours, when, unfinished}

-- The word `k` of the structure.
abbrev pub field : (ptr k : ℕ) → Memory → ℕ
field ptr k m = load32 m (ptr + 4 * k)

abbrev pub flag : (ptr bit : ℕ) → Memory → Bool
flag ptr bit m = not (bit_and (field ptr 0 m) (2 ^ bit) == 0)

-- The new structure, in memory and for the placement allocator.
pub copy_multiboot : (mboot_ptr : ℕ) → Mm → Memory → ℕ × Mm × Memory
copy_multiboot mboot_ptr s m =
    let new = kmalloc 96 s.placement_pointer in
    (new.address, record s { placement_pointer = new.placement }, memcpy m new.address mboot_ptr 96)

-- The lines of the report: a format, and the word that it prints.
abbrev pub lines : List (String × ℕ)
lines =
    ("Flags : 0x%x ", 0)
    ∷ ("Mem Lo: 0x%x ", 1)
    ∷ ("Mem Hi: 0x%x ", 2)
    ∷ ("Boot d: 0x%x\n", 3)
    ∷ ("cmdlin: 0x%x ", 4)
    ∷ ("Mods  : 0x%x ", 5)
    ∷ ("Addr  : 0x%x ", 6)
    ∷ ("Syms  : 0x%x\n", 7)
    ∷ ("Syms  : 0x%x ", 8)
    ∷ ("Syms  : 0x%x ", 9)
    ∷ ("Syms  : 0x%x ", 10)
    ∷ ("MMap  : 0x%x\n", 11)
    ∷ ("Addr  : 0x%x ", 12)
    ∷ ("Drives: 0x%x ", 13)
    ∷ ("Addr  : 0x%x ", 14)
    ∷ ("Config: 0x%x\n", 15)
    ∷ ("Loader: 0x%x ", 16)
    ∷ ("APM   : 0x%x ", 17)
    ∷ ("VBE Co: 0x%x ", 18)
    ∷ ("VBE Mo: 0x%x\n", 19)
    ∷ ("VBE In: 0x%x ", 20)
    ∷ ("VBE se: 0x%x ", 21)
    ∷ ("VBE of: 0x%x ", 22)
    ∷ ("VBE le: 0x%x\n", 23)
    ∷ []

pub say_lines : (ptr : ℕ) → List (String × ℕ) → Script → Script
say_lines ptr [] rest = rest
say_lines ptr ((f, k) ∷ ls) rest = say f (λ m. field ptr k m ∷ []) (say_lines ptr ls rest)

-- The loop over the modules. The start of a module is read with pointer arithmetic on words, so 32 bytes
-- further for each module, and its end 8 bytes further.
pub say_modules : (rounds ptr i : ℕ) → Script
say_modules zero ptr i = unfinished
say_modules (suc rounds) ptr i =
    when (λ m. ltb i (field ptr 5 m))
      (say "Module %d is at 0x%x:0x%x\n"
        (λ m.
          u32 (i + 1)
          ∷ load32 m (u32 (field ptr 6 m + 32 * i))
          ∷ load32 m (u32 (field ptr 6 m + (8 * i + 4)))
          ∷ [])
        (say_modules rounds ptr (i + 1)))
      stop

-- What follows the table of words.
pub say_options : (rounds ptr : ℕ) → Script
say_options rounds ptr =
    when (flag ptr 2) (say "Started with: %s\n" (λ m. field ptr 4 m ∷ []) stop) (
      when (flag ptr 9) (say "Booted from: %s\n" (λ m. field ptr 16 m ∷ []) stop) (
        when (flag ptr 0)
          (say "%dkB lower memory\n" (λ m. field ptr 1 m ∷ [])
            (say "%dkB higher memory " (λ m. field ptr 2 m ∷ [])
              (say "(%dMB)\n" (λ m. field ptr 2 m / 1024 ∷ []) stop)))
          (when (flag ptr 3)
            (say "Found %d module(s).\n" (λ m. field ptr 5 m ∷ [])
              (when (λ m. ltb 0 (field ptr 5 m)) (say_modules rounds ptr 0) stop))
            stop)))

pub dump_multiboot : (rounds ptr : ℕ) → Script
dump_multiboot rounds ptr = default_colours (
    say "MULTIBOOT header at 0x%x:\n" (λ m. ptr ∷ [])
      (colours 7 0 (say_lines ptr lines (default_colours (say_options rounds ptr)))))
