-- ===== src/Keyboard/Tests.antt =====
-- Left shift pressed and released, and Ctrl with the key of the letter a.
use mya_xos.Base.{ℕ, ◌+◌, ◌<◌, ◌≡◌, refl, [], ◌∷◌, ◌==◌, if◌then◌else◌, arith, ◌⊎◌, inl}
use mya_xos.Ports.{Ports}
use mya_xos.Keyboard.{Keyboard, norm, keyboard_handler}
use mya_xos.Keyboard.Modifiers.{keyboard_handler-twice}
use mya_xos.Keyboard.Typing.{norm-typed}

abbrev shift_codes : Ports
shift_codes = record { answer = λ n p. if n == 0 then 0x2A else 0xAA; reads = 0; written = [] }

abbrev idle : Keyboard
idle = record { shift = 0; alt = 0; ctrl = 0; typed = [] }

keyboard_handler-twice_example :
    (let (p', s') = keyboard_handler shift_codes idle in keyboard_handler p' s')
    ≡ (record shift_codes { reads = 0 + 1 + 1 }, idle)
keyboard_handler-twice_example =
    keyboard_handler-twice shift_codes idle (inl refl) refl
      (record { shift_bit = omega arith; alt_bit = omega arith; ctrl_bit = omega arith })

norm-typed_example :
    ((norm 30 idle).typed ≡ []) ⊎ ((c : ℕ) × ((norm 30 idle).typed ≡ c ∷ []) × (0 < c) × (c < 128))
norm-typed_example = norm-typed 30 idle
