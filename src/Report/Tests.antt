-- ===== src/Report/Tests.antt =====
-- A page fault at 0x1234 on a blank screen.
use mya_xos.Base.{ℕ, List, ◌≡◌, refl, [], ◌∷◌, true, arith, ◌==◌, if◌then◌else◌}
use Prim.Native.String.{String}
use mya_xos.Memory.{Memory}
use mya_xos.Print.{printed}
use mya_xos.Vga.{Console}
use mya_xos.Report.{codes, run_script}
use mya_xos.Report.Panic.{page_fault}
use mya_xos.Vga.{blank}
use mya_xos.Vga.Puts.{type_text}
use mya_xos.Print.Numbers.{IsNumeral}
use mya_xos.Report.Texts.{panic_text, IsFaultText}
use mya_xos.Report.Play.{HoldsText, IsHeld, IsPlaying}
use mya_xos.Report.Image.{literal, image, is_placed, position, nth, are_bytes, literal-IsLinked}
use mya_xos.Report.Blank.{cleared, cleared_terminal, cleared-IsPlaying}
use mya_xos.Report.Faults.{fault_formats, page_fault-Plays}

-- The literals, and "m" at 0x5000, which is the message and the name of the file.
abbrev low : Memory
low x = if x == 0x5000 then 109 else 0

abbrev place : String → ℕ
place = literal fault_formats low

abbrev memory : Memory
memory = image fault_formats low

text-HoldsText : HoldsText 1 10 2000 0x1000 0xB8000 place memory 0x5000
unfolding image
text-HoldsText = (
  109 ∷ [],
  record { text = (refl, omega arith, refl); away = λ x lo hi. ground arith },
  ((omega arith, omega arith), tt),
  omega arith,
)

linked :
    (f : String)
    → is_placed fault_formats low f ≡ true
    → IsHeld 1 10 2000 0x1000 0xB8000 place memory (place f) (codes f)
linked f h =
    literal-IsLinked fault_formats low 1 10 2000 0x1000 0xB8000 f (omega arith) (omega arith) h

page_fault-Plays_example :
    (s' : Console) × (out : List ℕ) × (ns : List ℕ) × (run_script 2000 0x1000 place
        (page_fault 2 0x1234 0x5000 0x5000 7)
        (cleared memory)
      ≡ printed s')
    × IsFaultText 2 0x1234 out
    × IsNumeral 7 ns
    × IsPlaying 1 10 2000 0x1000 0xB8000 place memory
        (
          0x4E,
          type_text 0x4E
              (blank 0x4E)
              (panic_text (109 ∷ []) (109 ∷ []) ns)
              (type_text 15 (blank 15) out cleared_terminal),
        )
        s'
unfolding text-HoldsText image is_placed position nth are_bytes
page_fault-Plays_example =
    page_fault-Plays 1 10 2000 0x1000 0xB8000 place memory (omega arith)
      (
        linked "Page fault! (p:%d,rw:%d,user:%d,res:%d,id:%d) at 0x%x\n" refl,
        (linked "PANIC! %s\n" refl, (linked "File: %s\n" refl, (linked "Line: %d\n" refl, tt))),
      )
      2 0x1234 0x5000 0x5000 7 (15, cleared_terminal) (cleared memory) (omega arith) (omega arith)
      text-HoldsText text-HoldsText (omega arith) (omega arith) (omega arith)
      (λ x lo hi. ground arith)
      (cleared-IsPlaying 10 2000 0x1000 place memory (λ x lo hi. ground arith))
