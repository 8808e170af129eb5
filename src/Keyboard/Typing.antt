-- ===== src/Keyboard/Typing.antt =====
-- What the keys type.
use mya_xos.Base.{
  ℕ, zero, suc, ◌+◌, ◌-◌, ◌<◌, ◌≤◌, bit_and, ◌≡◌, ◌≢◌, refl, ◌⊎◌, inl, inr, List, [], ◌∷◌, true,
  false, Bool, not, ◌&&◌, ◌||◌, arith, ◌==◌, ltb, get_or, Bool-cases, ==→ne,
}
use mya_xos.Ports.{Ports, inportb}
use mya_xos.Keyboard.{keyboard_handler, Keyboard, norm, putch, kbd_us, kbd_us_l2}

-- Ctrl with a letter types the letter itself: the code takes 0x40 from the small letter, which leaves
-- more than 0x1F.
pub norm-ctrl_letter :
    (scancode : ℕ) (s : Keyboard)
    → bit_and scancode 0x80 ≡ 0
    → b'a' ≤ get_or kbd_us scancode 0
    → s.shift ≡ 0
    → s.ctrl ≢ 0
    → (norm scancode s).typed ≡ get_or kbd_us scancode 0 ∷ s.typed
unfolding norm putch
norm-ctrl_letter scancode s down letter no_shift ctrl = grind arith

-- Whether the two tables name characters of 7 bits at the same places, none of them 0x40.
are_typed : List ℕ → List ℕ → Bool
are_typed [] [] = true
are_typed [] (y ∷ ys) = false
are_typed (x ∷ xs) [] = false
are_typed (x ∷ xs) (y ∷ ys) =
    let rest = are_typed xs ys in
    ((x == 0) || (not (y == 0) && not (x == 0x40))) && ltb x 128 && ltb y 128 && rest

are_typed-get_or :
    (xs ys : List ℕ) (k : ℕ)
    → are_typed xs ys ≡ true
    → get_or xs k 0 ≢ 0
    → (get_or ys k 0 ≢ 0) × (get_or xs k 0 ≢ 0x40) × (get_or xs k 0 < 128) × (get_or ys k 0 < 128)
unfolding are_typed
are_typed-get_or [] [] k h ne = absurd (ne refl)
are_typed-get_or [] (y ∷ ys) k h ne = absurd (ne refl)
are_typed-get_or (x ∷ xs) [] k h ne = ground arith
are_typed-get_or (x ∷ xs) (y ∷ ys) zero h ne = ground arith
are_typed-get_or (x ∷ xs) (y ∷ ys) (suc k) h ne = are_typed-get_or xs ys k (ground arith) ne

tables-are_typed : are_typed kbd_us kbd_us_l2 ≡ true
unfolding are_typed
tables-are_typed = refl

-- Whatever code comes and whatever modifiers hold, `norm` types nothing or one character, which has 7
-- bits and is not NUL.
pub norm-typed :
    (scancode : ℕ) (s : Keyboard)
    → ((norm scancode s).typed ≡ s.typed)
      ⊎ ((c : ℕ) × ((norm scancode s).typed ≡ c ∷ s.typed) × (0 < c) × (c < 128))
unfolding norm putch
norm-typed scancode s = elim (Bool-cases (get_or kbd_us scancode 0 == 0)) [
  | inl none_here ↦ inl (ground arith)
  | inr key ↦
      let (upper, at, small, small') =
        are_typed-get_or kbd_us kbd_us_l2 scancode tables-are_typed (==→ne _ _ key) in
      elim (Bool-cases (bit_and scancode 0x80 == 0)) [
        | inr up ↦ inl (rw (key, up) refl)
        | inl down ↦ elim (Bool-cases (s.shift == 0)) [
          | inr shifted ↦
              inr (get_or kbd_us_l2 scancode 0, rw (key, down, shifted) refl, omega arith, small')
          | inl plain ↦ elim (Bool-cases (s.ctrl == 0)) [
            | inl no_ctrl ↦ inr (
              get_or kbd_us scancode 0,
              rw (key, down, plain, no_ctrl) refl,
              omega (arith, ==→ne _ _ key),
              small,
            )
            | inr ctrl ↦
                elim (Bool-cases (
                  ltb (get_or kbd_us scancode 0) 0x40
                  || ltb 0x1F (get_or kbd_us scancode 0 - 0x40))) [
                    | inl same ↦ inr (
                      get_or kbd_us scancode 0,
                      rw (key, down, plain, ctrl, same) refl,
                      omega (arith, ==→ne _ _ key),
                      small,
                    )
                    | inr control ↦ inr (
                      get_or kbd_us scancode 0 - 0x40,
                      rw (key, down, plain, ctrl, control) refl,
                      ground arith,
                      omega arith,
                    )
                  ]
          ]
        ]
      ]
]

-- The handler reads one byte and writes to no port.
keyboard_handler-ports :
    (p : Ports) (s : Keyboard) → (keyboard_handler p s).0 ≡ record p { reads = p.reads + 1 }
unfolding keyboard_handler inportb
keyboard_handler-ports p s = refl
