-- ===== src/Report/Blank.antt =====
-- A blank screen at 0xB8000 with the cursor in its corner and a serial line that is always ready.
use mya_xos.Base.{ℕ, ◌+◌, ◌*◌, ◌<◌, ◌≤◌, ◌≡◌, refl, [], arith}
use mya_xos.Memory.{Memory}
use Prim.Native.String.{String}
use mya_xos.Ports.{Ports}
use mya_xos.Serial.Wait.{IsReadyAt}
use mya_xos.Vga.{Console}
use mya_xos.Vga.Terminal.{Terminal}
use mya_xos.Vga.Puts.{IsConsole}
use mya_xos.Report.Play.{IsPlaying}

abbrev ready_ports : Ports
ready_ports = record { answer = λ n p. 0x20; reads = 0; written = [] }

abbrev pub cleared : Memory → Console
cleared m = record {
  mem = m;
  ports = ready_ports;
  textmemptr = 0xB8000;
  attrib = 15;
  csr_x = 0;
  csr_y = 0;
}

abbrev pub cleared_terminal : Terminal
cleared_terminal = record { at = λ r k. 0; x = 0; y = 0 }

ready-IsReadyAt : (n : ℕ) → IsReadyAt 0x20 0 (record ready_ports { reads = n })
ready-IsReadyAt n = record { busy = λ j h. absurd (omega arith); ready = ground arith }

cleared-IsConsole : (m : Memory) → IsConsole 1 (cleared m)
cleared-IsConsole m = record {
  on = record { column = omega arith; row = omega arith };
  colour = omega arith;
  line = record { soon = λ n. (0, omega arith, ready-IsReadyAt n) };
}

pub cleared-IsPlaying :
    (w fuel buf : ℕ) (literal : String → ℕ) (m : Memory)
    → ((x : ℕ) → 0xB8000 ≤ x → x < 0xB8000 + 4000 → m x ≡ 0)
    → IsPlaying 1 w fuel buf 0xB8000 literal m (15, cleared_terminal) (cleared m)
cleared-IsPlaying w fuel buf literal m blank_screen = record {
  console = cleared-IsConsole m;
  shows = record {
    cells = λ r k hr hk. ground (
      arith,
      blank_screen (0xB8000 + 2 * (r * 80 + k)),
      blank_screen (0xB8000 + 2 * (r * 80 + k) + 1),
    );
    column = refl;
    line = refl;
  };
  colour = refl;
  place = refl;
  agree = λ x k. refl;
}
