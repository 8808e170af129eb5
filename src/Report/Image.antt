-- ===== src/Report/Image.antt =====
-- A memory that holds literals, 64 bytes for each from 0x100000 on, above a given one.
use mya_xos.Base.{
  ℕ, zero, suc, ◌+◌, ◌-◌, ◌*◌, ◌/◌, ◌%◌, ◌<◌, ◌≤◌, ◌≡◌, refl, List, [], ◌∷◌, true, false, Bool,
  ◌&&◌, arith, ltb, if◌then◌else◌, length, get_or,
}
use Prim.Native.String.{String}
use text.Mathlib.Text.{◌==◌ as str_eq}
use text.Mathlib.TextEquality.{eq_iff}
use mya_xos.Memory.{Memory, CString}
use mya_xos.Report.{codes}
use mya_xos.Report.Play.{IsLinked}

unfoldable pub nth : ℕ → List String → String
nth n [] = ""
nth zero (t ∷ ts) = t
nth (suc n) (t ∷ ts) = nth n ts

unfoldable pub position : String → List String → ℕ
position f [] = 0
position f (t ∷ ts) = let rest = position f ts in if str_eq f t then 0 else suc rest

unfoldable pub are_bytes : List ℕ → Bool
are_bytes [] = true
are_bytes (b ∷ bs) = ltb 0 b && ltb b 256 && are_bytes bs

bytes-CString :
    (m : Memory) (p : ℕ) (bs : List ℕ)
    → ((k : ℕ) → k ≤ length bs → m (p + k) ≡ get_or bs k 0)
    → are_bytes bs ≡ true
    → CString m p bs
unfolding are_bytes
bytes-CString m p [] same h = ground (arith, same 0)
bytes-CString m p (b ∷ bs) same h = (
  ground (arith, same 0),
  ground (arith, h),
  bytes-CString m (p + 1) bs (λ k le. ground (arith, same (suc k))) (ground (arith, h)),
)

module _ (texts : List String) (low : Memory) where
  unfoldable pub literal : String → ℕ
  literal f = 0x100000 + 64 * position f texts

  unfoldable pub image : Memory
  image x =
      if ltb x 0x100000 then low x else get_or (codes (nth ((x - 0x100000) / 64) texts)) (x % 64) 0

  -- A literal that the table holds.
  unfoldable pub is_placed : String → Bool
  is_placed f =
      are_bytes (codes f) && ltb (length (codes f)) 64 && str_eq (nth (position f texts) texts) f

  literal-CString : (f : String) → is_placed f ≡ true → CString image (literal f) (codes f)
  unfolding is_placed image literal
  literal-CString f h =
      let bs = codes f in
      let i = position f texts in
      let there : nth i texts ≡ f = (eq_iff (nth i texts) f).0 (ground (arith, h)) in
      bytes-CString image (0x100000 + 64 * i) bs
        (λ k le.
          let high : ltb (0x100000 + 64 * i + k) 0x100000 ≡ false = ground arith in
          let short : length bs < 64 = ground (arith, h) in
          let index : (0x100000 + 64 * i + k - 0x100000) / 64 ≡ i = omega arith in
          let rest : (0x100000 + 64 * i + k) % 64 ≡ k = omega arith in
          rw (high, index, rest, there) refl)
        (ground (arith, h))

  pub literal-IsLinked :
      (v w fuel buf screen : ℕ) (f : String)
      → screen + 4000 ≤ 0x100000
      → buf + 1024 ≤ 0x100000
      → is_placed f ≡ true
      → IsLinked v w fuel buf screen literal image f
  unfolding literal
  literal-IsLinked v w fuel buf screen f below_screen below_buffer h = record {
    text = literal-CString f h;
    away = λ x lo hi. ground arith;
  }

get_or-lt : (bs : List ℕ) (k : ℕ) → are_bytes bs ≡ true → get_or bs k 0 < 256
unfolding are_bytes
get_or-lt [] k h = omega arith
get_or-lt (b ∷ bs) zero h = ground (arith, h)
get_or-lt (b ∷ bs) (suc k) h = get_or-lt bs k (ground (arith, h))

unfoldable pub all_bytes : List String → Bool
all_bytes [] = true
all_bytes (t ∷ ts) = are_bytes (codes t) && all_bytes ts

are_bytes-nth :
    (n : ℕ) (ts : List String) → all_bytes ts ≡ true → are_bytes (codes (nth n ts)) ≡ true
unfolding all_bytes nth are_bytes
are_bytes-nth n [] h = refl
are_bytes-nth zero (t ∷ ts) h = ground (arith, h)
are_bytes-nth (suc n) (t ∷ ts) h = are_bytes-nth n ts (ground (arith, h))

pub image-lt :
    (texts : List String) (low : Memory) (x : ℕ)
    → all_bytes texts ≡ true
    → low x < 256
    → image texts low x < 256
unfolding image
image-lt texts low x h small = ground (
  arith,
  get_or-lt (codes (nth ((x - 0x100000) / 64) texts)) (x % 64)
      (are_bytes-nth ((x - 0x100000) / 64) texts h),
)
