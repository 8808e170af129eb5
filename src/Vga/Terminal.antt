-- ===== src/Vga/Terminal.antt =====
-- The screen as a terminal: rows of cells and a cursor, with no addresses. `writech` behaves as it.
use mya_xos.Base.{
  ℕ, ◌+◌, ◌-◌, ◌*◌, ◌/◌, ◌<◌, ◌≤◌, ◌≡◌, inl, inr, some, arith, ◌==◌, false, if◌then◌else◌, ltb,
  ltb→lt, ltb→le, ◌&&◌, Bool-cases,
}
use mathlib.Core.Path.{subst}
use mya_xos.Base.Bits.{bit_and_tab}
use mya_xos.Serial.Wait.{IsReadyAt}
use mya_xos.Vga.{Console, scroll, put, writech, wrap, move_csr, blank}
use mya_xos.Vga.Cursor.{IsOnScreen, sent, writech-sent, wrap-row}
use mya_xos.Vga.Scroll.{cell, blank-sum, scroll-IsScrolled, scroll-same}
use mya_xos.Vga.Cells.{put-cell, put-cell_control}

pub record Terminal : Type 0 where
  pub at : ℕ → ℕ → ℕ
  pub x : ℕ
  pub y : ℕ

-- What a character means: backspace, tab stops of 8 columns, carriage return, new line, or a letter
-- at the cursor; characters below the space mean nothing else.
type_char : (attrib c : ℕ) → Terminal → Terminal
type_char attrib c t =
    if c == 0x08
    then record t { x = t.x - 1 }
    else if c == 0x09
    then record t { x = (t.x / 8 + 1) * 8 }
    else if c == 13
    then record t { x = 0 }
    else if c == 10
    then record t { x = 0; y = t.y + 1 }
    else if ltb c 32
    then t
    else record t {
      at = λ r k. if (r == t.y) && (k == t.x) then attrib * 256 + c else t.at r k;
      x = t.x + 1;
    }

next_row : Terminal → Terminal
next_row t = if ltb t.x 80 then t else record t { x = 0; y = t.y + 1 }

-- The text moves up when the cursor has left the last row.
roll : (empty : ℕ) → Terminal → Terminal
roll empty t =
    if t.y == 25
    then record t { at = λ r k. if r == 24 then empty else t.at (r + 1) k; y = 24 }
    else t

pub terminal_write : (attrib empty c : ℕ) → Terminal → Terminal
terminal_write attrib empty c t = roll empty (next_row (type_char attrib c t))

-- The console shows the terminal.
pub record Shows (s : Console) (t : Terminal) : Type 0 where
  pub cells : (r k : ℕ) → r < 25 → k < 80 → cell s r k ≡ t.at r k
  pub column : s.csr_x ≡ t.x
  pub line : s.csr_y ≡ t.y

type_char-control : (a c : ℕ) (t : Terminal) → c < 32 → (type_char a c t).at ≡ t.at
unfolding type_char
type_char-control a c t h = ground arith

type_char-letter :
    (a c : ℕ) (t : Terminal)
    → 32 ≤ c
    → (type_char a c t).at ≡ (λ r k. if (r == t.y) && (k == t.x) then a * 256 + c else t.at r k)
unfolding type_char
type_char-letter a c t h = ground arith

same_cell : (r k y x : ℕ) → k < 80 → x < 80 → (r * 80 + k == y * 80 + x) ≡ ((r == y) && (k == x))
same_cell r k y x hk hx = ground arith

put-Shows_cells :
    (c r k : ℕ) (s : Console) (t : Terminal)
    → IsOnScreen s
    → c < 256
    → s.attrib < 256
    → Shows s t
    → r < 25
    → k < 80
    → cell (put c s) r k ≡ (type_char s.attrib c t).at r k
put-Shows_cells c r k s t on hc ha v hr hk = elim (Bool-cases (ltb c 32)) [
  | inl control ↦
      let low = ltb→lt c 32 control in
      rw (put-cell_control c r k s low, type_char-control s.attrib c t low) (v.cells r k hr hk)
  | inr letter ↦
      let high = ltb→le c 32 letter in
      rw
        (
          put-cell c r k s on high hc ha hr hk,
          type_char-letter s.attrib c t high,
          same_cell r k s.csr_y s.csr_x hk on.column,
        )
        (ground (arith, v.cells r k hr hk, v.column, v.line))
]

put-Shows :
    (c : ℕ) (s : Console) (t : Terminal)
    → IsOnScreen s
    → c < 256
    → s.attrib < 256
    → Shows s t
    → Shows (put c s) (type_char s.attrib c t)
unfolding put type_char
put-Shows c s t on hc ha v = record {
  cells = λ r k hr hk. put-Shows_cells c r k s t on hc ha v hr hk;
  column = ground (arith, v.column, bit_and_tab (s.csr_x + 8));
  line = ground (arith, v.line);
}

wrap-Shows : (s : Console) (t : Terminal) → Shows s t → Shows (wrap s) (next_row t)
unfolding wrap next_row
wrap-Shows s t v = record {
  cells = λ r k hr hk. ground (arith, v.cells r k hr hk, v.column);
  column = ground (arith, v.column);
  line = ground (arith, v.column, v.line);
}

scroll-Shows :
    (s : Console) (t : Terminal)
    → s.csr_y < 26
    → Shows s t
    → Shows (scroll s) (roll (blank s.attrib) t)
unfolding roll
scroll-Shows s t h v = elim (Bool-cases (ltb s.csr_y 25)) [
  | inl above ↦
      let row = ltb→lt s.csr_y 25 above in
      let stays : (t.y == 25) ≡ false = ground (arith, v.line) in rw (scroll-same s row, stays) v
  | inr below ↦
      let g = scroll-IsScrolled s (omega (arith, ltb→le s.csr_y 25 below)) in
      record {
        cells = λ r k hr hk.
            ground
              (arith, g.moved r k, g.blanked k hk, blank-sum s.attrib, v.cells (r + 1) k, v.line);
        column = ground (arith, g.column, v.column);
        line = ground (arith, g.row, v.line);
      }
]

move_csr-Shows : (s : Console) (t : Terminal) → Shows s t → Shows (move_csr s) t
unfolding move_csr
move_csr-Shows s t v = record { cells = v.cells; column = v.column; line = v.line }

-- Where the serial line takes the character, `writech` returns, and has done to what the screen shows
-- what the character does to a terminal.
pub writech-Shows :
    (fuel k c : ℕ) (s : Console) (t : Terminal)
    → IsOnScreen s
    → c < 256
    → s.attrib < 256
    → k < fuel
    → IsReadyAt 0x20 k (put c s).ports
    → Shows s t
    → (s' : Console) × (writech fuel c s ≡ some s')
      × Shows s' (terminal_write s.attrib (blank s.attrib) c t)
unfolding terminal_write
writech-Shows fuel k c s t on hc ha h ready v =
    let typed = put-Shows c s t on hc ha v in
    let wrapped =
      wrap-Shows (sent k c s) (type_char s.attrib c t)
        (record { cells = typed.cells; column = typed.column; line = typed.line }) in
    let (row, colour) = wrap-row k c s on in
    let moved = scroll-Shows (wrap (sent k c s)) (next_row (type_char s.attrib c t)) row wrapped in
    (
      move_csr (scroll (wrap (sent k c s))),
      writech-sent fuel k c s h ready,
      move_csr-Shows _ _ (
          subst
            (λ a.
              Shows (scroll (wrap (sent k c s)))
                (roll (blank a) (next_row (type_char s.attrib c t))))
            colour moved),
    )
