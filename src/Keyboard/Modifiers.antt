-- ===== src/Keyboard/Modifiers.antt =====
-- Pressing and releasing a modifier key.
use mya_xos.Base.{ℕ, ◌+◌, ◌<◌, ◌≡◌, refl, ap, u8, bit_and, bit_xor, get_or, arith, ◌⊎◌, inl, inr}
use mya_xos.Ports.{Ports, inportb}
use mya_xos.Keyboard.{
  no_key, key_method, keyboard_handler, Method, shft_key, altk_key, ctlk_key, Keyboard, handle_key,
  shft, altk, ctlk,
}

-- The modifiers hold one bit each.
pub record IsKeyboard (s : Keyboard) : Type 0 where
  pub shift_bit : s.shift < 2
  pub alt_bit : s.alt < 2
  pub ctrl_bit : s.ctrl < 2

xor_twice : (b : ℕ) → b < 2 → bit_xor (bit_xor b 1) 1 ≡ b
xor_twice b h = elim (below_two b h) [ inl e ↦ rw e refl | inr e ↦ rw e refl ]
  where
    below_two : (b : ℕ) → b < 2 → (b ≡ 0) ⊎ (b ≡ 1)
    below_two b h = ground arith

handle_key-twice :
    (k : Method) (press release : ℕ) (s : Keyboard)
    → (k ≡ shft_key) ⊎ ((k ≡ altk_key) ⊎ (k ≡ ctlk_key))
    → IsKeyboard s
    → handle_key k release (handle_key k press s) ≡ s
unfolding handle_key shft altk ctlk
handle_key-twice k press release s (inl e) h = rw (e, xor_twice s.shift h.shift_bit) refl
handle_key-twice k press release s (inr (inl e)) h = rw (e, xor_twice s.alt h.alt_bit) refl
handle_key-twice k press release s (inr (inr e)) h = rw (e, xor_twice s.ctrl h.ctrl_bit) refl

-- The handler that the table names for the next byte of the keyboard.
abbrev pub next_method : Ports → Method
next_method p = get_or key_method (bit_and (u8 (p.answer p.reads 0x60)) 0x7F) no_key

-- Two interrupts whose codes belong to one modifier leave the keyboard as it was: a press and its
-- release, but also the presses of two keys of that modifier.
pub keyboard_handler-twice :
    (p : Ports) (s : Keyboard)
    → (next_method p ≡ shft_key) ⊎ ((next_method p ≡ altk_key) ⊎ (next_method p ≡ ctlk_key))
    → next_method (record p { reads = p.reads + 1 }) ≡ next_method p
    → IsKeyboard s
    → (let (p', s') = keyboard_handler p s in keyboard_handler p' s')
      ≡ (record p { reads = p.reads + 1 + 1 }, s)
unfolding keyboard_handler inportb
keyboard_handler-twice p s modifier again h =
    let codes =
      handle_key-twice (next_method p) (u8 (p.answer p.reads 0x60))
        (u8 (p.answer (p.reads + 1) 0x60)) s modifier h in
    rw again (ap (λ t. (record p { reads = p.reads + 1 + 1 }, t)) codes)
