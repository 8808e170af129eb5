-- ===== src/Vga/Cells.antt =====
-- What a printed character does to the cells of the screen.
use mya_xos.Base.{ℕ, ◌+◌, ◌*◌, ◌/◌, ◌<◌, ◌≤◌, ◌≡◌, arith, ◌==◌, if◌then◌else◌}
use mya_xos.Base.Bits.{bit_or_sum, bit_or-lt}
use mya_xos.Vga.{Console, put, placech}
use mya_xos.Vga.Cursor.{IsOnScreen}
use mya_xos.Vga.Scroll.{cell}

-- A printable character is put into the cell of the cursor in the current colours; no other cell
-- and no other byte changes.
pub put-cell :
    (c r k : ℕ) (s : Console)
    → IsOnScreen s
    → 32 ≤ c
    → c < 256
    → s.attrib < 256
    → r < 25
    → k < 80
    → cell (put c s) r k
      ≡ (if r * 80 + k == s.csr_y * 80 + s.csr_x then s.attrib * 256 + c else cell s r k)
unfolding put
put-cell c r k s on lo hi colour hr hk = ground (arith, bit_or_sum 8 s.attrib c hi)

-- `placech` drops the shifted attribute: for a character and colours of a byte each, the colour byte
-- of the cell is 0, black on black, whatever colours are asked for.
placech-black :
    (c x y attr : ℕ) (s : Console)
    → c < 256
    → attr < 256
    → cell (placech c x y attr s) y x / 256 ≡ 0
unfolding placech
placech-black c x y attr s hc ha = ground (arith, bit_or-lt 8 c attr hc ha)

-- A control character changes no cell.
pub put-cell_control : (c r k : ℕ) (s : Console) → c < 32 → cell (put c s) r k ≡ cell s r k
unfolding put
put-cell_control c r k s h = ground arith
