-- ===== src/Report/Faults.antt =====
-- What is printed of a page fault, before the processor stops.
use mya_xos.Base.{
  ℕ, ◌+◌, ◌*◌, ◌^◌, ◌<◌, ◌≤◌, bit_and, ◌≡◌, refl, List, [], ◌∷◌, true, false, arith, ◌==◌,
  if◌then◌else◌, All,
}
use Prim.Native.String.{String}
use mya_xos.Base.Bits.{bit_and-pow, bit-lt}
use mya_xos.Memory.{Memory, within}
use mya_xos.Print.{printed}
use mya_xos.Vga.{Console}
use mya_xos.Vga.Terminal.{Terminal}
use mya_xos.Report.{codes, run_script}
use mya_xos.Report.Formats.{format, is_format, is_piece, are_pieces, same_bytes, is_format-IsFormat}
use mya_xos.Report.Panic.{halt_and_catch_fire, page_fault}
use mathlib.Core.Path.{subst}
use mya_xos.Vga.{blank}
use mya_xos.Vga.Puts.{type_text}
use mya_xos.Print.Numbers.{IsNumeral}
use mya_xos.Report.Texts.{panic_text, IsFaultText, fault-IsFaultText, halt_and_catch_fire-shown}
use mya_xos.Report.Play.{HoldsText, IsLinked, Says, Ready, IsPlaying, Suits, run_script-Plays}

abbrev pub panic_formats : List String
panic_formats = "PANIC! %s\n" ∷ "File: %s\n" ∷ "Line: %d\n" ∷ []

abbrev pub fault_formats : List String
fault_formats = "Page fault! (p:%d,rw:%d,user:%d,res:%d,id:%d) at 0x%x\n" ∷ panic_formats

module _ (v w fuel buf screen : ℕ) (literal : String → ℕ) (m0 : Memory) where
  -- A call of `kprintf` whose arguments are not read from memory.
  pub constant-Says :
      (n : ℕ) (f : String) (args : List ℕ)
      → is_format n f ≡ true
      → n * w < 1024
      → n < 1024
      → Suits v w fuel buf screen literal m0 (format (codes f)) args
      → IsLinked v w fuel buf screen literal m0 f
      → Says v w fuel buf screen literal m0 f (λ m. args)
  constant-Says n f args good fits few suits held = record {
    held = held;
    good = is_format-IsFormat n w f good fits few;
    steady = λ m e. refl;
    suits = suits;
  }

  pub halt_and_catch_fire-Ready :
      (error_message file line : ℕ)
      → w ≤ 40
      → All (IsLinked v w fuel buf screen literal m0) panic_formats
      → HoldsText v w fuel buf screen literal m0 error_message
      → HoldsText v w fuel buf screen literal m0 file
      → line < 2 ^ 32
      → Ready v w fuel buf screen literal m0 (halt_and_catch_fire error_message file line)
  unfolding halt_and_catch_fire is_format format is_piece are_pieces same_bytes
  halt_and_catch_fire-Ready error_message file line narrow linked message named small =
      let fits : 12 * w < 1024 = omega (arith, narrow) in
      (
        omega arith,
        (
          constant-Says 12 "PANIC! %s\n" (error_message ∷ []) refl fits (omega arith) (message, tt)
              linked.0,
          (
            constant-Says 12 "File: %s\n" (file ∷ []) refl fits (omega arith) (named, tt)
                linked.1.0,
            (
              constant-Says 12 "Line: %d\n" (line ∷ []) refl fits (omega arith) (small, tt)
                  linked.1.1.0,
              tt,
            ),
          ),
        ),
      )

module _ (v w fuel buf screen : ℕ) (literal : String → ℕ) (m0 : Memory) (narrow : w ≤ 21)
    (linked : All (IsLinked v w fuel buf screen literal m0) fault_formats) where
  -- With the formats and the texts in memory, away from what printing writes, a page fault is reported
  -- whole: in the colours that were set the message with the bits of the error code, that of a page that
  -- is present inverted, and the address, then in yellow on red the message of the kernel's end with its
  -- text, the file and the line in decimal.
  pub page_fault-Plays :
      (err_code faulting_address message file line : ℕ) (p : ℕ × Terminal) (s : Console)
      → faulting_address < 2 ^ 32
      → line < 2 ^ 32
      → (text : HoldsText v w fuel buf screen literal m0 message)
        (named : HoldsText v w fuel buf screen literal m0 file)
      → v ≤ fuel
      → 10 ≤ w
      → 1024 + w ≤ fuel
      → ((x : ℕ) → buf ≤ x → x < buf + 1024 → within screen 4000 x ≡ false)
      → IsPlaying v w fuel buf screen literal m0 p s
      → (s' : Console) × (out : List ℕ) × (ns : List ℕ) × (run_script fuel buf literal
            (page_fault err_code faulting_address message file line)
            s
          ≡ printed s')
        × IsFaultText err_code faulting_address out
        × IsNumeral line ns
        × IsPlaying v w fuel buf screen literal m0
            (
              0x4E,
              type_text 0x4E
                  (blank 0x4E)
                  (panic_text text.0 named.0 ns)
                  (type_text p.0 (blank p.0) out p.1),
            )
            s'
  unfolding page_fault halt_and_catch_fire is_format format is_piece are_pieces same_bytes
  page_fault-Plays err_code address message file line p s small_address small_line text named
        patient wide enough apart h =
      let first : Says v w fuel buf screen literal m0
          "Page fault! (p:%d,rw:%d,user:%d,res:%d,id:%d) at 0x%x\n"
          (λ m.
            (if bit_and err_code 0x1 == 0 then 1 else 0)
            ∷ bit_and err_code 0x2
            ∷ bit_and err_code 0x4
            ∷ bit_and err_code 0x8
            ∷ bit_and err_code 0x10
            ∷ address
            ∷ []) =
        constant-Says v w fuel buf screen literal m0 48
          "Page fault! (p:%d,rw:%d,user:%d,res:%d,id:%d) at 0x%x\n" _ refl (omega (arith, narrow))
          (omega arith)
          (
            ground arith,
            (
              omega (arith, bit_and-pow 1 err_code, bit-lt 1 err_code),
              (
                omega (arith, bit_and-pow 2 err_code, bit-lt 2 err_code),
                (
                  omega (arith, bit_and-pow 3 err_code, bit-lt 3 err_code),
                  (omega (arith, bit_and-pow 4 err_code, bit-lt 4 err_code), (small_address, tt)),
                ),
              ),
            ),
          )
          linked.0 in
      let (s', q, run, plays, after) =
        run_script-Plays v w fuel buf screen literal m0 patient wide enough apart
          (page_fault err_code address message file line) p s
          (
            first,
            halt_and_catch_fire-Ready v w fuel buf screen literal m0 message file line
                (omega (arith, narrow)) linked.1 text named small_line,
          )
          h in
      let (out, r, later) = plays in
      let (ns, n, end) =
        halt_and_catch_fire-shown v w fuel buf screen literal m0 message file line text.0 named.0
          (p.0, type_text p.0 (blank p.0) out p.1) q text.1.text named.1.text later in
      (
        s',
        out,
        ns,
        run,
        fault-IsFaultText m0 err_code address out r,
        n,
        subst (λ t. IsPlaying v w fuel buf screen literal m0 t s') end after,
      )
