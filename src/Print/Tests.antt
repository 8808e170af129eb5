-- ===== src/Print/Tests.antt =====
-- Numbers that the kernel prints, and "%s%d" with a text and a number on a blank screen.
use mya_xos.Base.{
  ℕ, ◌≡◌, refl, some, List, [], ◌∷◌, ◌++◌, false, arith, ◌==◌, if◌then◌else◌, length, All,
}
use mya_xos.Memory.{Memory, within}
use mya_xos.Ports.{Ports}
use mya_xos.Serial.Wait.{IsReadyAt}
use mya_xos.Vga.{Console, blank}
use mya_xos.Vga.Terminal.{Terminal, Shows}
use mya_xos.Vga.Puts.{IsConsole, on_screen, type_text}
use mya_xos.Print.{parse_num, parse_hex, printed, kprintf}
use mya_xos.Print.Numbers.{
  IsNumeral, parse_num-IsNumeral, read_from, hex_value, IsHexDigit, parse_hex-reads,
}
use mya_xos.Print.Pieces.{a_string, a_number, Renders}
use mya_xos.Print.Screen.{kprintf-Shows}

parse_num-IsNumeral_example :
    (cs : List ℕ) × (parse_num 10 409 10 (65 ∷ []) ≡ some ((65 ∷ []) ++ cs)) × IsNumeral 409 cs
parse_num-IsNumeral_example = parse_num-IsNumeral 10 409 (65 ∷ []) (omega arith) (omega arith)

parse_hex-reads_example :
    (cs : List ℕ) × (parse_hex 0xbeef [] ≡ [] ++ cs)
    × (length cs ≡ 8)
    × (read_from hex_value 16 0 cs ≡ 0xbeef)
    × All IsHexDigit cs
parse_hex-reads_example = parse_hex-reads 0xbeef [] (omega arith)

abbrev texts : Memory
texts x =
    if x == 0x100
    then 37
    else if x == 0x101
    then 115
    else if x == 0x102
    then 37
    else if x == 0x103
    then 100
    else if x == 0x200
    then 104
    else if x == 0x201
    then 105
    else 0

abbrev ready_ports : Ports
ready_ports = record { answer = λ n p. 0x20; reads = 0; written = [] }

abbrev cleared : Console
cleared = record {
  mem = texts;
  ports = ready_ports;
  textmemptr = 0xB8000;
  attrib = 15;
  csr_x = 0;
  csr_y = 0;
}

abbrev cleared_terminal : Terminal
cleared_terminal = record { at = λ r k. 0; x = 0; y = 0 }

ready-IsReadyAt : (n : ℕ) → IsReadyAt 0x20 0 (record ready_ports { reads = n })
ready-IsReadyAt n = record { busy = λ j h. absurd (omega arith); ready = ground arith }

cleared-IsConsole : IsConsole 1 cleared
cleared-IsConsole = record {
  on = record { column = omega arith; row = omega arith };
  colour = omega arith;
  line = record { soon = λ n. (0, omega arith, ready-IsReadyAt n) };
}

cleared-Shows : Shows cleared cleared_terminal
cleared-Shows = record { cells = λ r k hr hk. ground arith; column = refl; line = refl }

kprintf-Shows_example :
    (s' : Console) × (out : List ℕ) × (kprintf 30 0x1000 0x100 (0x200 ∷ 409 ∷ []) cleared
      ≡ printed s')
    × Renders texts (a_string ∷ a_number ∷ []) (0x200 ∷ 409 ∷ []) out
    × Shows s' (type_text 15 (blank 15) out cleared_terminal)
    × IsConsole 1 s'
    × (s'.attrib ≡ 15)
    × (s'.textmemptr ≡ 0xB8000)
    × ((x : ℕ) → on_screen cleared x ≡ false → within 0x1000 1024 x ≡ false → s'.mem x ≡ texts x)
kprintf-Shows_example =
    kprintf-Shows 1 10 30 0x1000 0x100 (a_string ∷ a_number ∷ []) (0x200 ∷ 409 ∷ []) cleared
      cleared_terminal cleared-IsConsole (omega arith) (omega arith) (omega arith) (omega arith)
      (omega arith)
      (refl, omega arith, (refl, omega arith, (refl, omega arith, (refl, omega arith, refl))))
      (λ x lo hi. ground arith) (tt, (tt, tt))
      (
        (
          (104 ∷ 105 ∷ []),
          (refl, omega arith, (refl, omega arith, refl)),
          ((omega arith, omega arith), ((omega arith, omega arith), tt)),
          omega arith,
          λ x lo hi. ground arith,
        ),
        (omega arith, tt),
      )
      (λ x a b. ground arith) cleared-Shows
