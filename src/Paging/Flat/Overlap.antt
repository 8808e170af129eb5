-- ===== src/Paging/Flat/Overlap.antt =====
-- Where `paging_install` puts the bitmap and the page directory.
use mya_xos.Base.{
  ℕ, ◌+◌, ◌-◌, ◌*◌, ◌/◌, ◌%◌, ◌^◌, ◌<◌, ◌≤◌, ◌≡◌, refl, sym, ap, ◌∙◌, inl, inr, true, false, bit_or,
  arith,
}
use mathlib.Core.Path.{subst}
use mya_xos.Base.Bits.{bit_or_one}
use mya_xos.Memory.{load32}
use mya_xos.Str.{memset}
use mya_xos.Panic.{ok}
use mya_xos.Frames.First.{first_frame_even}
use mya_xos.Paging.{kvmalloc_p}
use mya_xos.Paging.Placement.{kmalloc_lem, kvmalloc-page, kvmalloc_p-page}
use mya_xos.Paging.Flat.{
  Flat, bitmap, store32, set_frame_at, page_word, alloc_frame_at, make_table_at, get_page_at,
  place_directory, map_page,
}
use mya_xos.Paging.Flat.Words.{
  load32-store32, load32-store32_apart, load32-memset, load32-memset_apart,
}

-- What is placed, and where.
place_directory-at :
    (memsize : ℕ) (s : Flat)
    → 4096 ≤ s.placement_pointer
    → s.placement_pointer + memsize / 4 / 32 + 8196 < 2 ^ 32
    → let end = s.placement_pointer + memsize / 4 / 32 in
      let s' = place_directory memsize s in
      (s'.frames ≡ s.placement_pointer)
      × (s'.kernel_directory ≡ end - end % 4096)
      × (s'.placement_pointer ≡ end - end % 4096 + 8196)
unfolding place_directory
place_directory-at memsize s low fits =
    let n = memsize / 4 / 32 in
    let map = kmalloc_lem n s.placement_pointer (omega arith) in
    let dir = kvmalloc-page 8196 (s.placement_pointer + n) (omega arith) (omega arith) in
    rw map (refl, dir.0, dir.1)

-- With 128 kB of memory or more and room for both, wherever the placement stands from the second page
-- on: the words of the bitmap and the page directory overlap, since the bitmap gets one byte for each
-- of its words, and since the address of the directory is rounded down.
pub place_directory_overlap :
    (memsize : ℕ) (s : Flat)
    → 128 ≤ memsize
    → 4096 ≤ s.placement_pointer
    → s.placement_pointer + memsize / 4 / 32 + 8196 < 2 ^ 32
    → let s' = place_directory memsize s in
      (s'.kernel_directory < s'.frames + 4 * (memsize / 4 / 32))
      × (s'.frames < s'.kernel_directory + 8196)
place_directory_overlap memsize s some_memory low fits =
    let (map, dir, end) = place_directory-at memsize s low fits in
    (omega (arith, map, dir), omega (arith, map, dir))

-- The bitmap and the directory begin at one page.
record IsShared (dir : ℕ) (s : Flat) : Type 0 where
  pub map : s.frames ≡ dir
  pub directory : s.kernel_directory ≡ dir
  pub placement : s.placement_pointer ≡ dir + 8196
  pub aligned : dir % 4096 ≡ 0
  pub low : 4096 ≤ dir
  pub fits : dir + 16384 < 2 ^ 32
  pub some_frames : 32 ≤ s.nframes
  pub empty : load32 s.mem dir ≡ 0

-- The first table goes behind the directory, and its address into the first word of both.
make_table_at-shared :
    (dir : ℕ) (s : Flat)
    → IsShared dir s
    → let s' = make_table_at 0 s.kernel_directory s in
      (load32 s'.mem dir ≡ dir + 8192)
      × (load32 s'.mem (dir + 8192) ≡ 0)
      × (s'.frames ≡ dir)
      × (s'.nframes ≡ s.nframes)
unfolding make_table_at
make_table_at-shared dir s h =
    let new = kvmalloc_p-page 0x1000 (dir + 8196) (omega (arith, h.low)) (omega (arith, h.fits)) in
    let at : (kvmalloc_p 0x1000 (dir + 8196)).address ≡ dir + 8192 =
      new.0 ∙ omega (arith, h.aligned) in
    let word : dir + 4 * 0 ≡ dir = omega arith in
    let physical : dir + 4096 + 4 * 0 ≡ dir + 4096 = omega arith in
    let m1 = store32 s.mem dir (dir + 8192) in
    let stored : load32 m1 dir ≡ dir + 8192 =
      load32-store32 s.mem dir (dir + 8192) (omega (arith, h.fits)) in
    let m2 = memset m1 (dir + 8192) 0 4096 in
    let m3 = store32 m2 (dir + 4096) (bit_or (dir + 8192) 7) in
    let first : load32 m3 dir ≡ dir + 8192 =
      load32-store32_apart m2 (dir + 4096) dir _ (inl (omega arith))
      ∙ load32-memset_apart m1 (dir + 8192) 4096 dir (inl (omega arith))
      ∙ stored in
    let clear : load32 m3 (dir + 8192) ≡ 0 =
      load32-store32_apart m2 (dir + 4096) (dir + 8192) _ (inr (omega arith))
      ∙ load32-memset m1 (dir + 8192) 4096 (dir + 8192) (omega arith) (omega arith) in
    rw (h.directory, h.placement, at, word, physical, stored) (first, clear, h.map, refl)

-- The first frame is marked in the word that holds the address of the table.
alloc_frame_at-shared :
    (dir page : ℕ) (s : Flat)
    → s.frames ≡ dir
    → 32 ≤ s.nframes
    → load32 s.mem dir ≡ page
    → load32 s.mem page ≡ 0
    → page % 4096 ≡ 0
    → page + 1 < 2 ^ 32
    → dir + 4 ≤ page
    → (s1 : Flat) × (alloc_frame_at page false false s ≡ ok s1) × (load32 s1.mem dir ≡ page + 1)
unfolding alloc_frame_at set_frame_at
alloc_frame_at-shared dir page s map some_frames held empty aligned small behind =
    let word : dir + 4 * 0 ≡ dir = omega arith in
    let first_word_even : load32 s.mem (s.frames + 4 * 0) % 2 ≡ 0 =
      rw (map, word, held) (omega (arith, aligned)) in
    let index = first_frame_even (bitmap s) some_frames first_word_even in
    let m1 = store32 s.mem dir (page + 1) in
    let m2 = store32 m1 page (page_word (load32 m1 page) 0 false false) in
    let mark : bit_or page 1 ≡ page + 1 = bit_or_one page (omega arith) (omega (arith, aligned)) in
    (
      record s { mem = m2 },
      rw (empty, index, map, word, held, mark) refl,
      load32-store32_apart m1 page dir _ (inl behind) ∙ load32-store32 s.mem dir (page + 1) small,
    )

get_page_at-shared :
    (dir : ℕ) (s : Flat)
    → IsShared dir s
    → get_page_at 0 true s.kernel_directory s ≡ (dir + 8192, make_table_at 0 s.kernel_directory s)
unfolding get_page_at
get_page_at-shared dir s h =
    let (first, clear, map, same) = make_table_at-shared dir s h in
    let word : dir + 4 * 0 ≡ dir = omega arith in
    let none_yet : load32 s.mem (s.kernel_directory + 4 * 0) ≡ 0 = rw (h.directory, word) h.empty in
    let made : load32 (make_table_at 0 s.kernel_directory s).mem (s.kernel_directory + 4 * 0)
        ≡ dir + 8192 =
      subst (λ a. load32 (make_table_at 0 s.kernel_directory s).mem a ≡ dir + 8192)
        (sym (ap (λ k. k + 4 * 0) h.directory ∙ word)) first in
    let small : (dir + 8192 + 4 * 0) % 2 ^ 32 ≡ dir + 8192 = omega (arith, h.fits) in
    rw (none_yet, made, small) refl

place_directory-IsShared :
    (memsize : ℕ) (s : Flat)
    → 128 ≤ memsize
    → memsize / 4 / 32 < 4096
    → s.placement_pointer % 4096 ≡ 0
    → 4096 ≤ s.placement_pointer
    → s.placement_pointer + 16384 < 2 ^ 32
    → IsShared s.placement_pointer (place_directory memsize s)
unfolding place_directory
place_directory-IsShared memsize s some_memory short aligned low fits =
    let (map, dir, end) = place_directory-at memsize s low (omega arith) in
    let same : (place_directory memsize s).kernel_directory ≡ s.placement_pointer =
      dir ∙ omega arith in
    record {
      map = map;
      directory = same;
      placement = end ∙ omega arith;
      aligned = aligned;
      low = low;
      fits = fits;
      some_frames = omega arith;
      empty =
          subst (λ a. load32 (place_directory memsize s).mem a ≡ 0) same
            (load32-memset _ _ 8196 _ (omega arith) (omega arith));
    }

-- With 128 kB of memory or more, where the placement stands at the start of a page behind the first,
-- with room for a table behind the directory, and the bitmap is shorter than a page in bytes: the
-- bitmap and the directory begin at one address, and the first round of the loop marks the first
-- frame in the word that it has just put the address of the first table into. The directory then
-- leads one byte past the table.
pub map_page-misled :
    (memsize : ℕ) (s : Flat)
    → 128 ≤ memsize
    → memsize / 4 / 32 < 4096
    → s.placement_pointer % 4096 ≡ 0
    → 4096 ≤ s.placement_pointer
    → s.placement_pointer + 16384 < 2 ^ 32
    → (s1 : Flat) × (map_page 0 (place_directory memsize s) ≡ ok s1)
      × (load32 s1.mem s.placement_pointer ≡ s.placement_pointer + 8192 + 1)
unfolding map_page
map_page-misled memsize s some_memory short aligned low fits =
    let dir = s.placement_pointer in
    let s0 = place_directory memsize s in
    let h = place_directory-IsShared memsize s some_memory short aligned low fits in
    let (first, clear, map, same) = make_table_at-shared dir s0 h in
    let s1 = make_table_at 0 s0.kernel_directory s0 in
    let page = get_page_at-shared dir s0 h in
    let (s2, run, marked) =
      alloc_frame_at-shared dir (dir + 8192) s1 map (subst (λ n. 32 ≤ n) (sym same) h.some_frames)
        first clear (omega arith) (omega arith) (omega arith) in
    (s2, ap (λ r. alloc_frame_at r.0 false false r.1) page ∙ run, marked)
