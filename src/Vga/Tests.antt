-- ===== src/Vga/Tests.antt =====
-- A blank screen with the cursor in its last cell, and one with the cursor below the last row.
use mya_xos.Base.{◌≡◌, refl, [], some, arith}
use mya_xos.Ports.{Ports}
use mya_xos.Serial.Wait.{IsReadyAt}
use mya_xos.Vga.{Console, blank, scroll, put, writech}
use mya_xos.Vga.Cursor.{IsOnScreen}
use mya_xos.Vga.Scroll.{IsScrolled, scroll-IsScrolled}
use mya_xos.Vga.Terminal.{Terminal, terminal_write, Shows, writech-Shows}

abbrev ready_ports : Ports
ready_ports = record { answer = λ n p. 0x20; reads = 0; written = [] }

abbrev corner : Console
corner = record {
  mem = λ x. 0;
  ports = ready_ports;
  textmemptr = 0xB8000;
  attrib = 15;
  csr_x = 79;
  csr_y = 24;
}

abbrev below : Console
below = record corner { csr_x = 0; csr_y = 25 }

abbrev corner_terminal : Terminal
corner_terminal = record { at = λ r k. 0; x = 79; y = 24 }

corner-IsOnScreen : IsOnScreen corner
corner-IsOnScreen = record { column = omega arith; row = omega arith }

corner-IsReadyAt : IsReadyAt 0x20 0 (put 65 corner).ports
unfolding put
corner-IsReadyAt = record { busy = λ j h. absurd (omega arith); ready = ground arith }

writech-Shows_example :
    (s' : Console) × (writech 1 65 corner ≡ some s')
    × Shows s' (terminal_write 15 (blank 15) 65 corner_terminal)
writech-Shows_example =
    writech-Shows 1 0 65 corner corner_terminal corner-IsOnScreen (omega arith) (omega arith)
      (omega arith) corner-IsReadyAt
      (record { cells = λ r k hr hk. refl; column = refl; line = refl })

scroll-IsScrolled_example : IsScrolled below (scroll below)
scroll-IsScrolled_example = scroll-IsScrolled below refl
