-- ===== src/Line/Tests.antt =====
-- The keys a, b, backspace, c, new line and d, for a buffer at 0x100.
use mya_xos.Base.{ℕ, ◌≤◌, ◌≡◌, ◌⊎◌, some, none, List, [], ◌∷◌, false, arith, length}
use mya_xos.Memory.{within, CString}
use mya_xos.Ports.{Ports}
use mya_xos.Vga.{Console}
use mya_xos.Vga.Puts.{IsConsole, on_screen}
use mya_xos.Line.{Editor, returned, waiting, kgets}
use mya_xos.Line.Held.{onto}
use mya_xos.Line.Accept.{accept, kgets-accept}
use mya_xos.Line.Shown.{echoes, Stops, IsTyped, kgets-Shows}
use mya_xos.Line.Held.{current, current-Shows}

abbrev line_ready : Ports
line_ready = record { answer = λ n p. 0x20; reads = 0; written = [] }

abbrev empty_screen : Console
empty_screen = record {
  mem = λ x. 0;
  ports = line_ready;
  textmemptr = 0xB8000;
  attrib = 15;
  csr_x = 0;
  csr_y = 0;
}

empty_screen-IsConsole : IsConsole 1 empty_screen
empty_screen-IsConsole = record {
  on = record { column = omega arith; row = omega arith };
  colour = omega arith;
  line = record {
    soon =
        λ n. (0, omega arith, record { busy = λ j h. absurd (omega arith); ready = ground arith });
  };
}

abbrev keys : List ℕ
keys = 97 ∷ 98 ∷ 8 ∷ 99 ∷ 10 ∷ 100 ∷ []

kgets-accept_example :
    ((s : Editor) × (accept 9 keys [] ≡ none) × (kgets 1 0x100 9 keys empty_screen ≡ waiting s))
    ⊎ ((s : Editor) × (l rest : List ℕ) × (accept 9 keys [] ≡ some (l, rest))
        × (kgets 1 0x100 9 keys empty_screen ≡ returned s rest)
        × (s.collected ≡ length l)
        × (length l ≤ 9)
        × CString s.console.mem 0x100 (onto l [])
        × ((x : ℕ)
            → on_screen empty_screen x ≡ false
            → within 0x100 10 x ≡ false
            → s.console.mem x ≡ 0))
kgets-accept_example =
    kgets-accept 1 1 0x100 9 keys empty_screen empty_screen-IsConsole (omega arith) (ground arith)
      (λ x lo hi. ground arith)

kgets-Shows_example :
    (s : Editor) × Stops (kgets 1 0x100 9 keys empty_screen) s
    × IsTyped 1 (echoes 9 keys []) (current empty_screen) empty_screen s.console
kgets-Shows_example =
    kgets-Shows 1 1 0x100 9 keys empty_screen (current empty_screen) empty_screen-IsConsole
      (current-Shows empty_screen) (omega arith) (ground arith) (λ x lo hi. ground arith)
