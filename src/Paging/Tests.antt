-- ===== src/Paging/Tests.antt =====
-- A machine whose page tables are all there, with 64 frames of which the first three are taken.
use mya_xos.Base.{ℕ, ◌+◌, ◌*◌, ◌/◌, ◌<◌, ◌≡◌, refl, true, false, arith, ◌==◌, if◌then◌else◌, ◌⊎◌}
use mya_xos.Panic.{ok, halted}
use mya_xos.Frames.{Frames}
use mya_xos.Frames.Bitmap.{is_taken}
use mya_xos.Paging.{blank_page, Mm, alloc_frame, free_frame, sbrk}
use mya_xos.Paging.Mapping.{
  IsUnshared, IsAllocated, alloc_frame-IsAllocated, alloc_frame-IsUnshared, free_frame-is_taken,
}
use mya_xos.Paging.Heap.{IsGrown, IsExhausted, sbrk-IsGrown}

abbrev three : Frames
three = record { words = λ i. if i == 0 then 7 else 0; nframes = 64 }

abbrev mapped_all : Mm
mapped_all = record {
  placement_pointer = 0x5000;
  heap_end = 0x400000;
  frames = three;
  tables = λ k. 0x10000 + k * 0x1000;
  physical_tables = λ k. 0;
  pages = λ a. blank_page;
}

mapped_all-IsUnshared : IsUnshared mapped_all
mapped_all-IsUnshared = record {
  marked = λ a ne. absurd (ne refl);
  distinct = λ a b ne used. absurd (used refl);
}

sbrk-IsGrown_example :
    ((s' : Mm) × (sbrk 0x2000 mapped_all ≡ ok (0x400000, s'))
      × (s'.heap_end ≡ 0x402000)
      × IsGrown 0x400000 0x402000 (record mapped_all { heap_end = 0x402000 }) s')
    ⊎ ((sbrk 0x2000 mapped_all ≡ halted)
        × IsExhausted 0x400000 0x402000 (record mapped_all { heap_end = 0x402000 }))
sbrk-IsGrown_example = sbrk-IsGrown 0x2000 mapped_all refl refl (omega arith) (record {
  present = λ a lo hi. ground arith;
  zero_taken = refl;
  few = omega arith;
  unshared = mapped_all-IsUnshared;
})

alloc_frame-IsAllocated_example :
    ((f : ℕ) × (s' : Mm) × (alloc_frame 0x8000 true false mapped_all ≡ ok s')
      × (f < 64)
      × IsAllocated 0x8000 true false f mapped_all s')
    ⊎ ((alloc_frame 0x8000 true false mapped_all ≡ halted)
        × ((g : ℕ) → g < 64 / 32 * 32 → is_taken three g ≡ true))
alloc_frame-IsAllocated_example =
    alloc_frame-IsAllocated 0x8000 true false mapped_all (omega arith) refl

alloc_frame-IsUnshared_example :
    ((s' : Mm) × (alloc_frame 0x8000 true false mapped_all ≡ ok s') × IsUnshared s')
    ⊎ (alloc_frame 0x8000 true false mapped_all ≡ halted)
alloc_frame-IsUnshared_example =
    alloc_frame-IsUnshared 0x8000 true false mapped_all (omega arith) mapped_all-IsUnshared

-- The entry at 0x8000 has the frame 2.
abbrev has_frame : Mm
has_frame = record mapped_all {
  pages = λ a. if a == 0x8000 then record blank_page { frame = 2 } else blank_page;
}

free_frame-is_taken_example :
    (((free_frame 0x8000 has_frame).pages 0x8000).frame ≡ 0)
    × (is_taken (free_frame 0x8000 has_frame).frames 2 ≡ is_taken has_frame.frames 2)
    × (is_taken (free_frame 0x8000 has_frame).frames (2 / 0x1000) ≡ false)
free_frame-is_taken_example = free_frame-is_taken 0x8000 has_frame (ground arith)
