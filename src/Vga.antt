-- ===== src/Vga.antt =====
-- kernel/core/vga.c: the text screen, 25 rows of 80 cells of two bytes each, at `textmemptr`. The
-- fuel of `writech` and `puts` is for the wait in `serial_send` and for the text's end.
pub mod Cursor
pub mod Scroll
pub mod Cells
pub mod Terminal
pub mod Puts
mod Tests
use mya_xos.Base.{
  ℕ, zero, suc, ◌+◌, ◌-◌, ◌*◌, ◌/◌, ◌%◌, ◌^◌, bit_and, bit_or, not, Option, none, some, ◌==◌, ltb,
  leb, if◌then◌else◌, u16, u32, sub32, ◌<<<◌, ◌>>>◌,
}
use mya_xos.Memory.{Memory, store16}
use mya_xos.Ports.{Ports, outportb}
use mya_xos.Serial.{serial_send}
use mya_xos.Str.{memcpy, memsetw, strlen}

pub record Console : Type 0 where
  pub mem : Memory
  pub ports : Ports
  pub textmemptr : ℕ
  pub attrib : ℕ
  pub csr_x : ℕ
  pub csr_y : ℕ

-- A `short` that is stored, so cut to 16 bits: a blank in the current colours.
pub blank : ℕ → ℕ
blank attrib = u16 (bit_or 0x20 (attrib <<< 8))

-- Pointers to `short` move by two bytes.
pub scroll : Console → Console
scroll s =
    let temp = sub32 s.csr_y 25 + 1 in
    let rest = sub32 25 temp in
    let moved = memcpy s.mem s.textmemptr (s.textmemptr + 2 * (temp * 80)) (rest * 80 * 2) in
    if leb 25 s.csr_y
    then record s {
      mem = memsetw moved (s.textmemptr + 2 * (rest * 80)) (blank s.attrib) 80;
      csr_y = 25 - 1;
    }
    else s

pub move_csr : Console → Console
move_csr s =
    let temp = s.csr_y * 80 + s.csr_x in
    let p = outportb 0x3D4 14 s.ports in
    let p = outportb 0x3D5 (temp >>> 8) p in
    let p = outportb 0x3D4 15 p in record s { ports = outportb 0x3D5 temp p }

-- The loop over the rows from `i` on.
cls_rows : (left : ℕ) → (textmemptr blank i : ℕ) → Memory → Memory
cls_rows zero text b i m = m
cls_rows (suc left) text b i m = cls_rows left text b (i + 1) (memsetw m (text + 2 * (i * 80)) b 80)

pub cls : Console → Console
cls s =
    move_csr
      (record s { mem = cls_rows 25 s.textmemptr (blank s.attrib) 0 s.mem; csr_x = 0; csr_y = 0 })

-- The shifted attribute `att` is computed there and not used.
pub placech : (c x y attr : ℕ) → Console → Console
placech c x y attr s =
    let at_cell = s.textmemptr + 2 * (y * 80 + x) in
    record s { mem = store16 s.mem at_cell (u16 (bit_or c attr)) }

-- Past the last column the cursor goes to the start of the next row.
pub wrap : Console → Console
wrap s = if leb 80 s.csr_x then record s { csr_x = 0; csr_y = s.csr_y + 1 } else s

pub writechf : ℕ → Console → Console
writechf c s =
    let s = placech c s.csr_x s.csr_y s.attrib s in
    move_csr (scroll (wrap (record s { csr_x = s.csr_x + 1 })))

-- What `writech` does before the character goes out on the serial line.
pub put : ℕ → Console → Console
put c s =
    let att = s.attrib <<< 8 in
    let at_cell = s.textmemptr + 2 * (s.csr_y * 80 + s.csr_x) in
    if c == 0x08
    then (if not (s.csr_x == 0) then record s { csr_x = s.csr_x - 1 } else s)
    else if c == 0x09
    then record s { csr_x = bit_and (s.csr_x + 8) 0xFFFFFFF8 }
    else if c == 13
    then record s { csr_x = 0 }
    else if c == 10
    then record s { csr_x = 0; csr_y = s.csr_y + 1 }
    else if leb b' ' c
    then record s { mem = store16 s.mem at_cell (u16 (bit_or c att)); csr_x = s.csr_x + 1 }
    else s

pub writech : (fuel : ℕ) → ℕ → Console → Option Console
writech fuel c s = elim (serial_send fuel c (put c s).ports) [
  | none ↦ none
  | some p ↦ some (move_csr (scroll (wrap (record (put c s) { ports = p }))))
]

puts_loop : (left fuel : ℕ) → (text i : ℕ) → Console → Option Console
puts_loop zero fuel text i s = some s
puts_loop (suc left) fuel text i s = elim (writech fuel (s.mem (text + i)) s) [
  | none ↦ none
  | some s' ↦ puts_loop left fuel text (i + 1) s'
]

pub puts : (fuel : ℕ) → ℕ → Console → Option Console
puts fuel text s = elim (strlen fuel s.mem text) [
  | none ↦ none
  | some len ↦ puts_loop len fuel text 0 s
]

unfoldable pub settextcolor : (forecolor backcolor : ℕ) → Console → Console
settextcolor forecolor backcolor s = record s {
  attrib = bit_or (backcolor <<< 4) (bit_and forecolor 0x0F);
}

unfoldable pub resettextcolor : Console → Console
resettextcolor = settextcolor 15 0

pub init_video : Console → Console
init_video s = move_csr (record s { textmemptr = 0xB8000; csr_y = 10 })
