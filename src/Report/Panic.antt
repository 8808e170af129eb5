-- ===== src/Report/Panic.antt =====
-- What kernel/core/panic.c, the page fault handler of kernel/core/mem.c and `fault_handler` of
-- kernel/core/isrs.c print before the processor stops.
use mya_xos.Base.{ℕ, List, get_or, bit_and, [], ◌∷◌, ◌==◌, if◌then◌else◌}
use Prim.Native.String.{String}
use mya_xos.Report.{Script, stop, say, put_text, colours}

-- The arguments are the addresses of the texts.
unfoldable pub halt_and_catch_fire : (error_message file line : ℕ) → Script
halt_and_catch_fire error_message file line = colours 14 4 (
    say "PANIC! %s\n" (λ m. error_message ∷ [])
      (say "File: %s\n" (λ m. file ∷ []) (say "Line: %d\n" (λ m. line ∷ []) stop)))

unfoldable pub assert_failed : (file line desc : ℕ) → Script
assert_failed file line desc = colours 14 4 (
    say "ASSERTION FAILED! %s\n" (λ m. desc ∷ [])
      (say "File: %s\n" (λ m. file ∷ []) (say "Line: %d\n" (λ m. line ∷ []) stop)))

-- `r->err_code` and the address in cr2. `!(x & 1)` is 1 where the page is not present.
unfoldable pub page_fault : (err_code faulting_address : ℕ) (message file line : ℕ) → Script
page_fault err_code faulting_address message file line =
    say "Page fault! (p:%d,rw:%d,user:%d,res:%d,id:%d) at 0x%x\n"
      (λ m.
        (if bit_and err_code 0x1 == 0 then 1 else 0)
        ∷ bit_and err_code 0x2
        ∷ bit_and err_code 0x4
        ∷ bit_and err_code 0x8
        ∷ bit_and err_code 0x10
        ∷ faulting_address
        ∷ [])
      (halt_and_catch_fire message file line)

abbrev pub exception_messages : List String
exception_messages =
    "Division by zero" ∷ "Debug" ∷ "Non-maskable interrupt" ∷ "Breakpoint" ∷ "Detected overflow"
    ∷ "Out-of-bounds" ∷ "Invalid opcode" ∷ "No coprocessor" ∷ "Double fault"
    ∷ "Coprocessor segment overrun" ∷ "Bad TSS" ∷ "Segment not present" ∷ "Stack fault"
    ∷ "General protection fault" ∷ "Page fault" ∷ "Unknown interrupt" ∷ "Coprocessor fault"
    ∷ "Alignment check" ∷ "Machine check" ∷ "Reserved" ∷ "Reserved" ∷ "Reserved" ∷ "Reserved"
    ∷ "Reserved" ∷ "Reserved" ∷ "Reserved" ∷ "Reserved" ∷ "Reserved" ∷ "Reserved" ∷ "Reserved"
    ∷ "Reserved" ∷ "Reserved" ∷ []

-- An exception without a handler. The message of the kernel's end is "System halted.".
unfoldable pub unhandled : (literal : String → ℕ) (int_no : ℕ) (message file line : ℕ) → Script
unhandled literal int_no message file line =
    let name = literal (get_or exception_messages int_no "") in
    say "%s exception encountered.\n" (λ m. name ∷ [])
      (put_text name (halt_and_catch_fire message file line))
