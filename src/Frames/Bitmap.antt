-- ===== src/Frames/Bitmap.antt =====
-- The bitmap as a set of frames: `set_frame` adds one, `clear_frame` takes one out, and `test_frame`
-- tells whether one is in it.
use mya_xos.Base.{
  ℕ, zero, suc, not, ◌-◌, ◌/◌, ◌%◌, ◌^◌, ◌<◌, ◌≡◌, refl, Bool, true, false, bit_or, arith, ◌==◌,
  if◌then◌else◌,
}
use mya_xos.Base.Bits.{bit, bit-lt, bit-bit_or, bit-bit_and, bit-pow, bit-complement, bit_and-pow}
use native.Mathlib.Nat.{one-le-pow, pow-suc}
use mya_xos.Frames.{Frames, set_frame, clear_frame, test_frame}

-- Frame `f` is marked as taken.
abbrev pub is_taken : Frames → ℕ → Bool
is_taken s f = bit (s.words (f / 32)) (f % 32) == 1

-- `set_frame` at the address of a frame marks it and no other.
pub is_taken-set_frame :
    (s : Frames) (a f : ℕ)
    → is_taken (set_frame a s) f ≡ (if f == a / 0x1000 then true else is_taken s f)
unfolding set_frame
is_taken-set_frame s a f =
    let g = a / 0x1000 in
    ground (
      arith,
      bit-bit_or (f % 32) (s.words (g / 32)) (2 ^ (g % 32)),
      bit-pow (g % 32) (f % 32),
      bit-lt (f % 32) (s.words (f / 32)),
    )

pub pow-lt : (k n : ℕ) → k < n → 2 ^ k < 2 ^ n
pow-lt k zero h = elim h [ ]
pow-lt zero (suc n) h = omega (arith, pow-suc 2 n, one-le-pow n 2)
pow-lt (suc k) (suc n) h = omega (arith, pow-suc 2 n, pow-suc 2 k, pow-lt k n (omega arith))

complement-digits :
    (k j : ℕ) → k < 32 → j < 32 → bit (2 ^ 32 - 1 - 2 ^ k) j ≡ (if k == j then 0 else 1)
complement-digits k j hk hj =
    ground (arith, bit-complement 32 j (2 ^ k) (pow-lt k 32 hk) hj, bit-pow k j)

-- `clear_frame` at the address of a frame takes that frame's mark away and no other.
pub is_taken-clear_frame :
    (s : Frames) (a f : ℕ)
    → is_taken (clear_frame a s) f ≡ (if f == a / 0x1000 then false else is_taken s f)
unfolding clear_frame
is_taken-clear_frame s a f =
    let g = a / 0x1000 in
    ground (
      arith,
      bit-bit_and (f % 32) (s.words (g / 32)) (2 ^ 32 - 1 - 2 ^ (g % 32)),
      complement-digits (g % 32) (f % 32) (omega arith) (omega arith),
      bit-lt (f % 32) (s.words (f / 32)),
    )

-- `test_frame` returns 0 exactly at the address of a frame that is not marked.
pub test_frame_iff : (s : Frames) (a : ℕ) → (test_frame a s == 0) ≡ not (is_taken s (a / 0x1000))
unfolding test_frame
test_frame_iff s a =
    let g = a / 0x1000 in
    ground (
      arith,
      bit_and-pow (g % 32) (s.words (g / 32)),
      bit-lt (g % 32) (s.words (g / 32)),
      one-le-pow (g % 32) 2,
    )

pub nframes-set_frame : (a : ℕ) (s : Frames) → (set_frame a s).nframes ≡ s.nframes
unfolding set_frame
nframes-set_frame a s = refl

pub words-set_frame :
    (a k : ℕ) (s : Frames)
    → (set_frame a s).words k ≡ (
        if k == a / 0x1000 / 32
        then bit_or (s.words (a / 0x1000 / 32)) (2 ^ (a / 0x1000 % 32))
        else s.words k)
unfolding set_frame
words-set_frame a k s = refl
