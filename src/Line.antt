-- ===== src/Line.antt =====
-- kernel/core/kprintf.c, the line editor: `kgets_handler` gets the characters that are typed, and `kgets`
-- waits for a line. The characters come in an order that is given, and `kgets` looks at its state after
-- each of them. `kgets_cancel` is never used.
pub mod Held
pub mod Typed
pub mod Keys
pub mod Accept
pub mod Shown
pub mod Made
mod Tests
use mya_xos.Base.{
  ℕ, ◌+◌, ◌-◌, ◌≡◌, some, none, Option, List, [], ◌∷◌, Bool, ◌&&◌, ◌==◌, ltb, if◌then◌else◌, u8,
}
use mya_xos.Memory.{Memory, store8}
use mya_xos.Str.{char_lt}
use mya_xos.Vga.{Console, writech}

-- `kgets_buffer`, `kgets_collected`, `kgets_want` and `kgets_newline`, and the console.
pub record Editor : Type 0 where
  pub buffer : ℕ
  pub collected : ℕ
  pub want : ℕ
  pub newline : ℕ
  pub console : Console

-- Calls of `writech`, one after another; `none` is the serial line that is not ready.
pub write_all : (fuel : ℕ) → List ℕ → Console → Option Console
write_all fuel [] s = some s
write_all fuel (c ∷ cs) s = elim (writech fuel c s) [ none ↦ none | some s' ↦ write_all fuel cs s' ]

-- What the handler prints for a character.
pub echo : (ch collected : ℕ) → List ℕ
echo ch collected =
    if ch == 0x08
    then (if collected == 0 then [] else 0x08 ∷ b' ' ∷ 0x08 ∷ [])
    else if ch == b'\n'
    then b'\n' ∷ []
    else if char_lt ch 0x20
    then b'^' ∷ u8 (ch + 0x40) ∷ []
    else ch ∷ []

-- What it does to the buffer, after that. A byte from 0x80 on is a negative `char`.
pub store_key : (ch : ℕ) → Editor → Editor
store_key ch s =
    let m = s.console.mem in
    if ch == 0x08
    then (if s.collected == 0 then s else record s {
      collected = s.collected - 1;
      console = record (s.console) { mem = store8 m (s.buffer + s.collected) 0 };
    })
    else if ch == b'\n'
    then record s { newline = 1 }
    else if char_lt ch 0x20
    then s
    else if ltb s.collected s.want
    then record s {
      collected = s.collected + 1;
      console = record (s.console) { mem = store8 m (s.buffer + s.collected) ch };
    }
    else s

pub kgets_handler : (fuel ch : ℕ) → Editor → Option Editor
kgets_handler fuel ch s = elim (write_all fuel (echo ch s.collected) s.console) [
  | none ↦ none
  | some c ↦ some (store_key ch (record s { console = c }))
]

-- `returned s rest` is the state at the return, with the characters that came too late; `waiting` is
-- `kgets` in its loop when no more of them come.
pub data Input : Type 0 where
  returned : Editor → List ℕ → Input
  waiting : Editor → Input
  out_of_fuel : Input

abbrev pub is_open : Editor → Bool
is_open s = ltb s.collected s.want && (s.newline == 0)

pub kgets_loop : (fuel : ℕ) → List ℕ → Editor → Input
kgets_loop fuel [] s = if is_open s then waiting s else returned s []
kgets_loop fuel (ch ∷ input) s =
    let next : Input = elim (kgets_handler fuel ch s) [
      | none ↦ out_of_fuel
      | some s' ↦ kgets_loop fuel input s'
    ] in
    if is_open s then next else returned s (ch ∷ input)

-- The NUL behind the line.
pub close_line : Editor → Editor
close_line s = record s {
  console = record (s.console) { mem = store8 s.console.mem (s.buffer + s.collected) 0 };
}

-- The value returned is `collected`.
pub kgets : (fuel buffer size : ℕ) → List ℕ → Console → Input
kgets fuel buffer size input c =
    let start : Editor = record {
      buffer = buffer;
      collected = 0;
      want = size;
      newline = 0;
      console = c;
    } in
    elim (kgets_loop fuel input start) [
      | returned s rest ↦ returned (close_line s) rest
      | waiting s ↦ waiting s
      | out_of_fuel ↦ out_of_fuel
    ]
