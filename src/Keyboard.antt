-- ===== src/Keyboard.antt =====
-- kernel/core/kbd.c: the key tables, the modifier keys and the handler of keyboard interrupts. What
-- `putch` is called with is collected in `typed`, the latest character first; `handle_keyboard` of
-- Interrupts hands it on to the line editor or to the screen.
pub mod Modifiers
pub mod Typing
mod Tests
use mya_xos.Base.{
  ℕ, ◌+◌, ◌-◌, ◌%◌, ◌^◌, bit_and, bit_xor, Bool, true, false, List, [], ◌∷◌, get_or, ◌==◌, ltb, not,
  ◌||◌, if◌then◌else◌, u8, Option, none, some, zero, suc,
}
use mya_xos.Ports.{Ports, inportb}

-- The handlers of `key_method`; `no_key` is NULL.
pub data Method : Type 0 where
  no_key : Method
  norm_key : Method
  shft_key : Method
  altk_key : Method
  ctlk_key : Method
  func_key : Method

-- The tables have 128 entries; those that are not written out are 0.
abbrev pub kbd_us : List ℕ
kbd_us =
    0 ∷ 27 ∷ 49 ∷ 50 ∷ 51 ∷ 52 ∷ 53 ∷ 54 ∷ 55 ∷ 56 ∷ 57 ∷ 48 ∷ 45 ∷ 61 ∷ 8 ∷ 9 ∷ 113 ∷ 119 ∷ 101
    ∷ 114 ∷ 116 ∷ 121 ∷ 117 ∷ 105 ∷ 111 ∷ 112 ∷ 91 ∷ 93 ∷ 10 ∷ 0 ∷ 97 ∷ 115 ∷ 100 ∷ 102 ∷ 103 ∷ 104
    ∷ 106 ∷ 107 ∷ 108 ∷ 59 ∷ 39 ∷ 96 ∷ 0 ∷ 92 ∷ 122 ∷ 120 ∷ 99 ∷ 118 ∷ 98 ∷ 110 ∷ 109 ∷ 44 ∷ 46 ∷ 47
    ∷ 0 ∷ 42 ∷ 0 ∷ 32 ∷ 0 ∷ 0 ∷ 0 ∷ 0 ∷ 0 ∷ 0 ∷ 0 ∷ 0 ∷ 0 ∷ 0 ∷ 0 ∷ 0 ∷ 0 ∷ 0 ∷ 0 ∷ 0 ∷ 45 ∷ 0 ∷ 0
    ∷ 0 ∷ 43 ∷ []

abbrev pub kbd_us_l2 : List ℕ
kbd_us_l2 =
    0 ∷ 27 ∷ 33 ∷ 64 ∷ 35 ∷ 36 ∷ 37 ∷ 94 ∷ 38 ∷ 42 ∷ 40 ∷ 41 ∷ 95 ∷ 43 ∷ 8 ∷ 9 ∷ 81 ∷ 87 ∷ 69 ∷ 82
    ∷ 84 ∷ 89 ∷ 85 ∷ 73 ∷ 79 ∷ 80 ∷ 123 ∷ 125 ∷ 10 ∷ 0 ∷ 65 ∷ 83 ∷ 68 ∷ 70 ∷ 71 ∷ 72 ∷ 74 ∷ 75 ∷ 76
    ∷ 58 ∷ 34 ∷ 126 ∷ 0 ∷ 124 ∷ 90 ∷ 88 ∷ 67 ∷ 86 ∷ 66 ∷ 78 ∷ 77 ∷ 60 ∷ 62 ∷ 63 ∷ 0 ∷ 42 ∷ 0 ∷ 32
    ∷ 0 ∷ 0 ∷ 0 ∷ 0 ∷ 0 ∷ 0 ∷ 0 ∷ 0 ∷ 0 ∷ 0 ∷ 0 ∷ 0 ∷ 0 ∷ 0 ∷ 0 ∷ 0 ∷ 45 ∷ 0 ∷ 0 ∷ 0 ∷ 43 ∷ []

abbrev pub key_method : List Method
key_method =
    no_key ∷ no_key ∷ norm_key ∷ norm_key ∷ norm_key ∷ norm_key ∷ norm_key ∷ norm_key ∷ norm_key
    ∷ norm_key ∷ norm_key ∷ norm_key ∷ norm_key ∷ norm_key ∷ norm_key ∷ norm_key ∷ norm_key
    ∷ norm_key ∷ norm_key ∷ norm_key ∷ norm_key ∷ norm_key ∷ norm_key ∷ norm_key ∷ norm_key
    ∷ norm_key ∷ norm_key ∷ norm_key ∷ norm_key ∷ ctlk_key ∷ norm_key ∷ norm_key ∷ norm_key
    ∷ norm_key ∷ norm_key ∷ norm_key ∷ norm_key ∷ norm_key ∷ norm_key ∷ norm_key ∷ norm_key
    ∷ norm_key ∷ shft_key ∷ norm_key ∷ norm_key ∷ norm_key ∷ norm_key ∷ norm_key ∷ norm_key
    ∷ norm_key ∷ norm_key ∷ norm_key ∷ norm_key ∷ norm_key ∷ shft_key ∷ norm_key ∷ altk_key
    ∷ norm_key ∷ no_key ∷ func_key ∷ func_key ∷ func_key ∷ func_key ∷ func_key ∷ func_key ∷ func_key
    ∷ func_key ∷ func_key ∷ func_key ∷ no_key ∷ no_key ∷ no_key ∷ no_key ∷ no_key ∷ no_key ∷ no_key
    ∷ no_key ∷ no_key ∷ no_key ∷ no_key ∷ no_key ∷ no_key ∷ no_key ∷ no_key ∷ no_key ∷ no_key
    ∷ no_key ∷ func_key ∷ func_key ∷ no_key ∷ no_key ∷ no_key ∷ no_key ∷ no_key ∷ no_key ∷ no_key
    ∷ no_key ∷ no_key ∷ no_key ∷ no_key ∷ no_key ∷ no_key ∷ no_key ∷ no_key ∷ no_key ∷ no_key
    ∷ no_key ∷ no_key ∷ no_key ∷ no_key ∷ no_key ∷ no_key ∷ no_key ∷ no_key ∷ no_key ∷ no_key
    ∷ no_key ∷ no_key ∷ no_key ∷ no_key ∷ no_key ∷ no_key ∷ no_key ∷ no_key ∷ no_key ∷ no_key
    ∷ no_key ∷ no_key ∷ []

-- `keyboard_state`, of one bit each, and what was typed.
pub record Keyboard : Type 0 where
  pub shift : ℕ
  pub alt : ℕ
  pub ctrl : ℕ
  pub typed : List ℕ

putch : ℕ → Keyboard → Keyboard
putch c s = record s { typed = c ∷ s.typed }

-- `out < 0` is the comparison with 0x40: the difference is taken on `int`.
pub norm : (scancode : ℕ) → Keyboard → Keyboard
norm scancode s =
    let c = get_or kbd_us scancode 0 in
    if not (bit_and scancode 0x80 == 0)
    then s
    else if c == 0
    then s
    else if not (s.shift == 0)
    then putch (get_or kbd_us_l2 scancode 0) s
    else if not (s.ctrl == 0)
    then (if ltb c 0x40 || ltb 0x1F (c - 0x40) then putch c s else putch (c - 0x40) s)
    else putch c s

pub shft : (scancode : ℕ) → Keyboard → Keyboard
shft scancode s = record s { shift = bit_xor s.shift 1 }

pub altk : (scancode : ℕ) → Keyboard → Keyboard
altk scancode s = record s { alt = bit_xor s.alt 1 }

pub ctlk : (scancode : ℕ) → Keyboard → Keyboard
ctlk scancode s = record s { ctrl = bit_xor s.ctrl 1 }

pub func : (scancode : ℕ) → Keyboard → Keyboard
func scancode s = s

-- What the handler does with the code that it read.
pub handle_key : Method → (scancode : ℕ) → Keyboard → Keyboard
handle_key no_key scancode s = s
handle_key norm_key scancode s = norm scancode s
handle_key shft_key scancode s = shft scancode s
handle_key altk_key scancode s = altk scancode s
handle_key ctlk_key scancode s = ctlk scancode s
handle_key func_key scancode s = func scancode s

pub keyboard_handler : Ports → Keyboard → Ports × Keyboard
keyboard_handler p s =
    let (scancode, p') = inportb 0x60 p in
    (p', handle_key (get_or key_method (bit_and scancode 0x7F) no_key) scancode s)

-- `fuel` is the number of times that the loop may ask; `none` means that the controller was busy each
-- time.
pub keyboard_wait : (fuel : ℕ) → Ports → Option Ports
keyboard_wait zero p = none
keyboard_wait (suc fuel) p =
    let (status, p') = inportb 0x64 p in
    let rest = keyboard_wait fuel p' in if bit_and status 2 == 0 then some p' else rest
