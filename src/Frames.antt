-- ===== src/Frames.antt =====
-- kernel/core/mem.c, the bitmap of physical frames: bit `f % 32` of the word `f / 32` is set when
-- frame `f` is taken. `1 << offset` has `offset < 32`, and is taken as the unsigned word.
pub mod Bitmap
pub mod First
mod Tests
use mya_xos.Base.{
  ℕ, zero, suc, ◌+◌, ◌-◌, ◌*◌, ◌/◌, ◌%◌, ◌^◌, bit_and, bit_or, Option, none, some, ◌==◌,
  if◌then◌else◌, not32,
}

-- `frames`, the words of the bitmap by their index, and `nframes`.
pub record Frames : Type 0 where
  pub words : ℕ → ℕ
  pub nframes : ℕ

abbrev pub store_word : (ℕ → ℕ) → ℕ → ℕ → ℕ → ℕ
store_word ws i v = λ k. if k == i then v else ws k

abbrev pub index_from_bit : ℕ → ℕ
index_from_bit b = b / 0x20

abbrev pub offset_from_bit : ℕ → ℕ
offset_from_bit b = b % 0x20

pub set_frame : ℕ → Frames → Frames
set_frame frame_addr s =
    let frame = frame_addr / 0x1000 in
    let index = index_from_bit frame in
    let offset = offset_from_bit frame in
    record s { words = store_word s.words index (bit_or (s.words index) (2 ^ offset)) }

pub clear_frame : ℕ → Frames → Frames
clear_frame frame_addr s =
    let frame = frame_addr / 0x1000 in
    let index = index_from_bit frame in
    let offset = offset_from_bit frame in
    record s { words = store_word s.words index (bit_and (s.words index) (not32 (2 ^ offset))) }

pub test_frame : ℕ → Frames → ℕ
test_frame frame_addr s =
    let frame = frame_addr / 0x1000 in
    bit_and (s.words (index_from_bit frame)) (2 ^ offset_from_bit frame)

-- The loop over `j`, with `left` rounds to go.
first_bit : (left : ℕ) → (word j : ℕ) → Option ℕ
first_bit zero word j = none
first_bit (suc left) word j =
    let next = first_bit left word (j + 1) in if bit_and word (2 ^ j) == 0 then some j else next

-- The loop over `i`.
first_word : (left : ℕ) → (ℕ → ℕ) → ℕ → Option ℕ
first_word zero ws i = none
first_word (suc left) ws i =
    let next = first_word left ws (i + 1) in
    if ws i == 0xFFFFFFFF
    then next
    else elim (first_bit 32 (ws i) 0) [ none ↦ next | some j ↦ some (i * 0x20 + j) ]

-- The -1 of the source, as a `uint32_t`.
abbrev pub no_frame : ℕ
no_frame = 2 ^ 32 - 1

pub first_frame : Frames → ℕ
first_frame s = elim (first_word (index_from_bit s.nframes) s.words 0) [
  | none ↦ no_frame
  | some f ↦ f
]
