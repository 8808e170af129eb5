-- ===== src/Frames/First.antt =====
-- `first_frame` finds the lowest free frame.
use mya_xos.Base.{
  ℕ, zero, suc, ◌+◌, ◌-◌, ◌*◌, ◌/◌, ◌%◌, ◌^◌, ◌<◌, ◌≤◌, ◌≡◌, refl, ap, ◌∙◌, ◌⊎◌, Bool, true, false,
  bit_and, Option, none, some, arith, ◌==◌, if◌then◌else◌, ltb, inl, inr, Bool-cases, ==→eq, ltb→lt,
  ltb→le,
}
use mathlib.Core.Path.{subst}
use mya_xos.Base.Bits.{bit, bit-lt, bit_and-pow, bit-complement, bit-zero}
use native.Mathlib.Nat.{one-le-pow}
use mya_xos.Frames.{Frames, first_bit, first_word, first_frame, no_frame}
use mya_xos.Frames.Bitmap.{is_taken}

-- `o` is the least number from `lo` to `hi - 1` at which `p` fails, or `none` if there is none.
pub data Least (p : ℕ → Bool) (lo hi : ℕ) (o : Option ℕ) : Type 0 where
  hit :
      (f : ℕ)
      → o ≡ some f
      → lo ≤ f
      → f < hi
      → p f ≡ false
      → ((g : ℕ) → lo ≤ g → g < f → p g ≡ true)
      → Least p lo hi o
  miss : o ≡ none → ((g : ℕ) → lo ≤ g → g < hi → p g ≡ true) → Least p lo hi o

module _ (p : ℕ → Bool) where
  -- Where `p` holds up to `mid`, the search goes on from there.
  Least-later :
      {lo mid hi : ℕ} {o : Option ℕ}
      → lo ≤ mid
      → ((g : ℕ) → lo ≤ g → g < mid → p g ≡ true)
      → Least p mid hi o
      → Least p lo hi o
  Least-later {lo} {mid} le full (hit f e l h free below) = hit f e (omega arith) h free λ g a b.
      elim (Bool-cases (ltb g mid)) [
        | inl c ↦ full g a (ltb→lt g mid c)
        | inr c ↦ below g (ltb→le g mid c) b
      ]
  Least-later {lo} {mid} le full (miss e rest) = miss e λ g a b. elim (Bool-cases (ltb g mid)) [
    | inl c ↦ full g a (ltb→lt g mid c)
    | inr c ↦ rest g (ltb→le g mid c) b
  ]

abbrev digit_is_one : ℕ → ℕ → Bool
digit_is_one w k = bit w k == 1

bit_test : (w k : ℕ) → (bit_and w (2 ^ k) == 0) ≡ (if digit_is_one w k then false else true)
bit_test w k = ground (arith, bit_and-pow k w, bit-lt k w, one-le-pow k 2)

first_bit-Least :
    (left w j hi : ℕ) → j + left ≡ hi → Least (digit_is_one w) j hi (first_bit left w j)
unfolding first_bit
first_bit-Least zero w j hi e = miss refl λ g a b. absurd (omega arith)
first_bit-Least (suc left) w j hi e = elim (Bool-cases (digit_is_one w j)) [
  | inl one ↦
      rw (bit_test w j, one)
        (Least-later (digit_is_one w) (omega arith)
          (λ g a b. subst (λ k. digit_is_one w k ≡ true) {x = j} {y = g} (omega arith) one)
          (first_bit-Least left w (j + 1) hi (omega arith)))
  | inr free ↦
      rw (bit_test w j, free)
        (hit j refl (omega arith) (omega arith) free λ g a b. absurd (omega arith))
]

-- The digit of a frame, from its word and its place there.
is_taken-digit :
    (s : Frames) (i j : ℕ) → j < 32 → is_taken s (i * 32 + j) ≡ digit_is_one (s.words i) j
is_taken-digit s i j h =
    let word : (i * 32 + j) / 32 ≡ i = omega arith in
    let place : (i * 32 + j) % 32 ≡ j = omega arith in rw (word, place)

full_word :
    (s : Frames) (i g : ℕ)
    → s.words i ≡ 0xFFFFFFFF
    → i * 32 ≤ g
    → g < i * 32 + 32
    → is_taken s g ≡ true
full_word s i g e a b =
    let split : g ≡ i * 32 + (g - i * 32) = omega arith in
    let j = g - i * 32 in
    rw (split, is_taken-digit s i j (omega arith), e)
      (ground (arith, bit-complement 32 j 0 (omega arith), bit-zero j))

-- One word of the scan, from what the inner loop finds in it.
module _ (s : Frames) (i hi : ℕ) {later : Option ℕ}
    (rest : Least (is_taken s) ((i + 1) * 32) hi later) (room : i * 32 + 32 ≤ hi) where
  word-Least :
      (o : Option ℕ)
      → Least (digit_is_one (s.words i)) 0 32 o
      → Least (is_taken s) (i * 32) hi (elim o [ none ↦ later | some j ↦ some (i * 32 + j) ])
  word-Least o (hit f e a b free below) = rw e (
      hit (i * 32 + f) refl (omega arith) (omega arith) (is_taken-digit s i f b ∙ free) λ g x y.
        let j = g - i * 32 in
        let split : g ≡ i * 32 + j = omega arith in
        rw (split, is_taken-digit s i j (omega arith)) (below j (omega arith) (omega arith)))
  word-Least o (miss e full) = rw e (
      Least-later (is_taken s) (omega arith)
        (λ g x y.
          let j = g - i * 32 in
          let split : g ≡ i * 32 + j = omega arith in
          rw (split, is_taken-digit s i j (omega arith)) (full j (omega arith) (omega arith)))
        rest)

first_word-Least :
    (left : ℕ) (s : Frames) (i hi : ℕ)
    → (i + left) * 32 ≡ hi
    → Least (is_taken s) (i * 32) hi (first_word left s.words i)
unfolding first_word
first_word-Least zero s i hi e = miss refl λ g a b. absurd (omega arith)
first_word-Least (suc left) s i hi e =
    let rest = first_word-Least left s (i + 1) hi (omega arith) in
    elim (Bool-cases (s.words i == 0xFFFFFFFF)) [
      | inl full ↦ rw full (
          Least-later (is_taken s) (omega arith)
            (λ g a b. full_word s i g (==→eq _ _ full) a (omega arith)) rest)
      | inr open_word ↦ rw open_word (
          word-Least s i hi rest (omega arith) _
            (first_bit-Least 32 (s.words i) 0 32 (omega arith)))
    ]

-- Among the frames of the whole words of the bitmap `first_frame` returns the lowest that is free,
-- and the pattern of -1 where all are taken.
pub first_frame-Least :
    (s : Frames)
    → ((f : ℕ) × (first_frame s ≡ f)
        × (f < s.nframes / 32 * 32)
        × (is_taken s f ≡ false)
        × ((g : ℕ) → g < f → is_taken s g ≡ true))
      ⊎ ((first_frame s ≡ no_frame) × ((g : ℕ) → g < s.nframes / 32 * 32 → is_taken s g ≡ true))
unfolding first_frame
first_frame-Least s = go (first_word-Least (s.nframes / 32) s 0 _ (omega arith))
  where
    go :
        Least (is_taken s) (0 * 32) (s.nframes / 32 * 32) (first_word (s.nframes / 32) s.words 0)
        → ((f : ℕ) × (first_frame s ≡ f)
            × (f < s.nframes / 32 * 32)
            × (is_taken s f ≡ false)
            × ((g : ℕ) → g < f → is_taken s g ≡ true))
          ⊎ ((first_frame s ≡ no_frame) × ((g : ℕ) → g < s.nframes / 32 * 32 → is_taken s g ≡ true))
    go (hit f e a b free below) =
        inl (f, rw (e, first_frame) refl, b, free, λ g h. below g (omega arith) h)
    go (miss e full) = inr (rw (e, first_frame) refl, λ g h. full g (omega arith) h)

-- A bitmap that begins with an even word.
pub first_frame_even : (s : Frames) → 32 ≤ s.nframes → s.words 0 % 2 ≡ 0 → first_frame s ≡ 0
first_frame_even s some_frames even = elim (first_frame-Least s) [
  | inl (f, e, small, free, below) ↦ elim (Bool-cases (ltb 0 f)) [
    | inl later ↦ absurd (ground (arith, even, below 0 (ltb→lt 0 f later)))
    | inr first ↦ e ∙ omega (arith, ltb→le 0 f first)
  ]
  | inr (e, full) ↦ absurd (ground (arith, even, full 0 (omega arith)))
]

-- One round of the scan.
abbrev word_step : ℕ → ℕ → Option ℕ → Option ℕ
word_step i w next =
    if w == 0xFFFFFFFF
    then next
    else elim (first_bit 32 w 0) [ none ↦ next | some j ↦ some (i * 0x20 + j) ]

first_word-cong :
    (left i : ℕ) (ws vs : ℕ → ℕ)
    → ((k : ℕ) → i ≤ k → k < i + left → ws k ≡ vs k)
    → first_word left ws i ≡ first_word left vs i
unfolding first_word
first_word-cong zero i ws vs same = refl
first_word-cong (suc left) i ws vs same =
    let later =
      first_word-cong left (i + 1) ws vs (λ k lo hi. same k (omega arith) (omega arith)) in
    ap (λ w. word_step i w (first_word left ws (i + 1))) (same i (omega arith) (omega arith))
    ∙ ap (λ next. word_step i (vs i) next) later

-- The words of the bitmap decide.
pub first_frame-cong :
    (s t : Frames)
    → s.nframes ≡ t.nframes
    → ((k : ℕ) → k < s.nframes / 32 → s.words k ≡ t.words k)
    → first_frame s ≡ first_frame t
unfolding first_frame
first_frame-cong s t number same =
    rw
      (
        first_frame,
        first_word-cong (s.nframes / 32) 0 s.words t.words (λ k lo hi. same k (omega arith)),
        number,
      )
      refl
