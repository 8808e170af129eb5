-- ===== src/Report/Exceptions/Tests.antt =====
-- A double fault without a handler on a blank screen.
use mya_xos.Base.{
  ℕ, ◌++◌, List, Bool, All, ◌&&◌, ◌≡◌, refl, [], ◌∷◌, true, arith, ◌==◌, if◌then◌else◌,
}
use Prim.Native.String.{String}
use mya_xos.Memory.{Memory}
use mya_xos.Print.{printed}
use mya_xos.Vga.{Console}
use mya_xos.Report.{codes, run_script}
use mya_xos.Report.Panic.{unhandled, exception_messages}
use mya_xos.Print.Numbers.{IsNumeral}
use mya_xos.Report.Texts.{panic_text}
use mya_xos.Report.Play.{HoldsText, IsHeld, IsLinked, IsPlaying}
use mya_xos.Report.Image.{literal, image, is_placed, position, nth, are_bytes, literal-IsLinked}
use mya_xos.Report.Blank.{cleared, cleared_terminal, cleared-IsPlaying}
use mya_xos.Report.Faults.{panic_formats}
use mya_xos.Report.Exceptions.{unhandled-Plays}
use mya_xos.Vga.{blank}
use mya_xos.Vga.Puts.{type_text}

-- The literals, and "m" at 0x5000, which is the message and the name of the file.
abbrev low : Memory
low x = if x == 0x5000 then 109 else 0

abbrev texts : List String
texts = "%s exception encountered.\n" ∷ (panic_formats ++ exception_messages)

abbrev place : String → ℕ
place = literal texts low

abbrev memory : Memory
memory = image texts low

text-HoldsText : HoldsText 1 30 2000 0x1000 0xB8000 place memory 0x5000
unfolding image
text-HoldsText = (
  109 ∷ [],
  record { text = (refl, omega arith, refl); away = λ x lo hi. ground arith },
  ((omega arith, omega arith), tt),
  omega arith,
)

linked :
    (f : String)
    → is_placed texts low f ≡ true
    → IsHeld 1 30 2000 0x1000 0xB8000 place memory (place f) (codes f)
linked f h = literal-IsLinked texts low 1 30 2000 0x1000 0xB8000 f (omega arith) (omega arith) h

are_placed : List String → Bool
are_placed [] = true
are_placed (f ∷ fs) = is_placed texts low f && are_placed fs

are_placed-IsLinked :
    (fs : List String)
    → are_placed fs ≡ true
    → All (IsLinked 1 30 2000 0x1000 0xB8000 place memory) fs
unfolding are_placed
are_placed-IsLinked [] h = tt
are_placed-IsLinked (f ∷ fs) h =
    (linked f (ground (arith, h)), are_placed-IsLinked fs (ground (arith, h)))

unhandled-Plays_example :
    let shown =
      (codes "Double fault" ++ codes " exception encountered.\n") ++ codes "Double fault" in
    (s' : Console) × (ns : List ℕ) × (run_script 2000 0x1000 place
        (unhandled place 8 0x5000 0x5000 131)
        (cleared memory)
      ≡ printed s')
    × IsNumeral 131 ns
    × IsPlaying 1 30 2000 0x1000 0xB8000 place memory
        (
          0x4E,
          type_text 0x4E
              (blank 0x4E)
              (panic_text (109 ∷ []) (109 ∷ []) ns)
              (type_text 15 (blank 15) shown cleared_terminal),
        )
        s'
unfolding text-HoldsText image is_placed position nth are_bytes are_placed
unhandled-Plays_example =
    unhandled-Plays 1 30 2000 0x1000 0xB8000 place memory (omega arith) (omega arith) 8 0x5000
      0x5000 131 (15, cleared_terminal) (cleared memory) (omega arith)
      (are_placed-IsLinked exception_messages refl) (linked "%s exception encountered.\n" refl)
      (are_placed-IsLinked panic_formats refl) (omega arith) text-HoldsText text-HoldsText
      (omega arith) (omega arith) (λ x lo hi. ground arith)
      (cleared-IsPlaying 30 2000 0x1000 place memory (λ x lo hi. ground arith))
