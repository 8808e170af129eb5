-- ===== src/Vga/Cursor.antt =====
-- The cursor stays on the screen, and the hardware cursor follows it.
use mya_xos.Base.{ℕ, ◌+◌, ◌*◌, ◌/◌, ◌<◌, ◌≤◌, ◌≡◌, refl, some, List, ◌∷◌, arith, u8}
use mya_xos.Base.Bits.{bit_and_tab}
use mya_xos.Ports.{outportb}
use mya_xos.Serial.Wait.{IsReadyAt, serial_send-written}
use mya_xos.Vga.{Console, scroll, move_csr, wrap, put, writech}

pub record IsOnScreen (s : Console) : Type 0 where
  pub column : s.csr_x < 80
  pub row : s.csr_y < 25

-- The hardware cursor was last sent to the cell of the cursor.
abbrev pub IsCursorSent : Console → Type 0
IsCursorSent s =
    (hi lo : ℕ) × (rest : List (ℕ × ℕ)) × (s.ports.written
      ≡ (0x3D5, lo) ∷ (0x3D4, 15) ∷ (0x3D5, hi) ∷ (0x3D4, 14) ∷ rest)
    × (hi * 256 + lo ≡ s.csr_y * 80 + s.csr_x)

move_csr-IsCursorSent : (s : Console) → IsOnScreen s → IsCursorSent (move_csr s)
unfolding move_csr outportb
move_csr-IsCursorSent s on = (
  u8 ((s.csr_y * 80 + s.csr_x) / 256),
  u8 (s.csr_y * 80 + s.csr_x),
  s.ports.written,
  ground arith,
  ground arith,
)

move_csr-IsOnScreen : (s : Console) → IsOnScreen s → IsOnScreen (move_csr s)
unfolding move_csr
move_csr-IsOnScreen s on = record { column = on.column; row = on.row }

settle-IsOnScreen :
    (s : Console)
    → s.csr_x ≤ 87
    → s.csr_y < 26
    → (80 ≤ s.csr_x → s.csr_y < 25)
    → IsOnScreen (scroll (wrap s))
unfolding scroll wrap
settle-IsOnScreen s x y both = ground arith

put_bounds :
    (c : ℕ) (s : Console)
    → IsOnScreen s
    → ((put c s).csr_x ≤ 87)
      × ((put c s).csr_y < 26)
      × (80 ≤ (put c s).csr_x → (put c s).csr_y < 25)
unfolding put
put_bounds c s on = ground (arith, bit_and_tab (s.csr_x + 8))

-- The console once the serial line has taken the character at its `k`-th question.
abbrev pub sent : ℕ → ℕ → Console → Console
sent k c s =
    let p = (put c s).ports in
    record (put c s) {
      ports = record p { reads = p.reads + k + 1; written = (0x3F8, u8 c) ∷ p.written };
    }

pub writech-sent :
    (fuel k c : ℕ) (s : Console)
    → k < fuel
    → IsReadyAt 0x20 k (put c s).ports
    → writech fuel c s ≡ some (move_csr (scroll (wrap (sent k c s))))
unfolding writech
writech-sent fuel k c s h ready =
    rw (serial_send-written fuel k c (put c s).ports h ready, writech) refl

-- One character leaves the cursor on the screen and sends it to the hardware, whatever the
-- character is, where the serial line takes it: then `writech` returns.
pub writech-IsOnScreen :
    (fuel k c : ℕ) (s : Console)
    → IsOnScreen s
    → k < fuel
    → IsReadyAt 0x20 k (put c s).ports
    → (s' : Console) × (writech fuel c s ≡ some s') × IsOnScreen s' × IsCursorSent s'
writech-IsOnScreen fuel k c s on h ready =
    let (x, y, both) = put_bounds c s on in
    let after = settle-IsOnScreen (sent k c s) x y both in
    let moved = scroll (wrap (sent k c s)) in
    (
      move_csr moved,
      writech-sent fuel k c s h ready,
      move_csr-IsOnScreen moved after,
      move_csr-IsCursorSent moved after,
    )

pub wrap-row :
    (k c : ℕ) (s : Console)
    → IsOnScreen s
    → ((wrap (sent k c s)).csr_y < 26) × ((wrap (sent k c s)).attrib ≡ s.attrib)
unfolding wrap put
wrap-row k c s on = ground (arith, bit_and_tab (s.csr_x + 8))
