-- ===== src/Paging/Mapping.antt =====
-- Page table entries and the frames that they are given.
use mya_xos.Base.{
  ℕ, ◌*◌, ◌/◌, ◌%◌, ◌^◌, ◌≤◌, ◌<◌, ◌≡◌, ◌≢◌, refl, ap, ◌∙◌, ◌⊎◌, inl, inr, Bool, true, false, arith,
  ◌==◌, if◌then◌else◌, u32, Bool-cases, ==→eq, ==→ne,
}
use mya_xos.Base.Bits.{bit_and_page}
use mya_xos.Memory.{null}
use mya_xos.Panic.{ok, halted}
use mya_xos.Frames.Bitmap.{is_taken, is_taken-set_frame, is_taken-clear_frame, nframes-set_frame}
use mya_xos.Frames.First.{first_frame-Least}
use mya_xos.Paging.{
  Mm, kmalloc_real, kvmalloc_p, alloc_frame, free_frame, table_index, make_table, get_page,
  heap_install, give_frame,
}

-- Once an entry was asked for with `make`, asking again gives the same entry and changes nothing,
-- where the placement pointer is past the first page.
pub get_page-get_page :
    (address : ℕ) (s : Mm)
    → 4096 ≤ s.placement_pointer
    → s.placement_pointer < 2 ^ 32
    → let (page, s') = get_page address true s in get_page address true s' ≡ (page, s')
unfolding get_page make_table kvmalloc_p kmalloc_real
get_page-get_page address s lo hi = ground (arith, bit_and_page s.placement_pointer)

-- After `heap_install` a table that is missing cannot be made: the new one is placed at address 0,
-- over the first page, and its directory entry stays `null`.
get_page-heap_install :
    (address : ℕ) (s : Mm)
    → s.tables (table_index address) ≡ null
    → let (page, s') = get_page address true (heap_install s) in
      (page ≡ 4 * (address / 0x1000 % 1024))
      × (s'.tables (table_index address) ≡ null)
      × (s'.placement_pointer ≡ 0x1000)
unfolding get_page make_table kvmalloc_p kmalloc_real heap_install
get_page-heap_install address s e = ground arith

-- The frames of the entries are marked in the bitmap, and no two entries have one frame.
pub record IsUnshared (s : Mm) : Type 0 where
  pub marked : (a : ℕ) → (s.pages a).frame ≢ 0 → is_taken s.frames (s.pages a).frame ≡ true
  pub distinct : (a b : ℕ) → a ≢ b → (s.pages a).frame ≢ 0 → (s.pages a).frame ≢ (s.pages b).frame

-- `s'` is `s` where the entry `page` got the frame `f`.
pub record IsAllocated (page : ℕ) (is_kernel is_writeable : Bool) (f : ℕ) (s s' : Mm) : Type 0 where
  pub free : is_taken s.frames f ≡ false
  pub lowest : (g : ℕ) → g < f → is_taken s.frames g ≡ true
  pub bitmap : (g : ℕ) → is_taken s'.frames g ≡ (if g == f then true else is_taken s.frames g)
  pub self : s'.pages page ≡ record (s.pages page) {
    present = 1;
    rw = if is_writeable then 1 else 0;
    user = if is_kernel then 0 else 1;
    frame = f;
  }
  pub others : (a : ℕ) → a ≢ page → s'.pages a ≡ s.pages a
  pub same_count : s'.frames.nframes ≡ s.frames.nframes
  pub same_end : s'.heap_end ≡ s.heap_end
  pub same_tables : (k : ℕ) → s'.tables k ≡ s.tables k

give_frame-IsAllocated :
    (page f : ℕ) (is_kernel is_writeable : Bool) (s : Mm)
    → f < 2 ^ 20
    → is_taken s.frames f ≡ false
    → ((g : ℕ) → g < f → is_taken s.frames g ≡ true)
    → IsAllocated page is_kernel is_writeable f s (give_frame page f is_kernel is_writeable s)
unfolding give_frame
give_frame-IsAllocated page f is_kernel is_writeable s small free below =
    let index : u32 (f * 0x1000) / 0x1000 ≡ f = omega arith in
    let bits : f % 2 ^ 20 ≡ f = omega arith in
    record {
      free = free;
      lowest = below;
      bitmap = λ g.
          is_taken-set_frame s.frames (u32 (f * 0x1000)) g
          ∙ ap (λ k. if g == k then true else is_taken s.frames g) index;
      self = ground arith;
      others = λ a ne. ground arith;
      same_count = nframes-set_frame (u32 (f * 0x1000)) s.frames;
      same_end = refl;
      same_tables = λ k. refl;
    }

module _ (page : ℕ) (is_kernel is_writeable : Bool) (s : Mm) (few : s.frames.nframes ≤ 2 ^ 20) where
  -- An entry that has a frame is left as it is.
  pub alloc_frame-same : (s.pages page).frame ≢ 0 → alloc_frame page is_kernel is_writeable s ≡ ok s
  unfolding alloc_frame
  alloc_frame-same ne = ground arith

  -- An entry without a frame gets the lowest free one, and nothing else changes; where all frames
  -- are taken the kernel halts.
  pub alloc_frame-IsAllocated :
      (s.pages page).frame ≡ 0
      → ((f : ℕ) × (s' : Mm) × (alloc_frame page is_kernel is_writeable s ≡ ok s')
          × (f < s.frames.nframes)
          × IsAllocated page is_kernel is_writeable f s s')
        ⊎ ((alloc_frame page is_kernel is_writeable s ≡ halted)
            × ((g : ℕ) → g < s.frames.nframes / 32 * 32 → is_taken s.frames g ≡ true))
  unfolding alloc_frame
  alloc_frame-IsAllocated empty = elim (first_frame-Least s.frames) [
    | inl (f, e, lt, free, below) ↦ inl (
      f,
      give_frame page f is_kernel is_writeable s,
      ground arith,
      omega arith,
      give_frame-IsAllocated page f is_kernel is_writeable s (omega arith) free below,
    )
    | inr (e, full) ↦ inr (ground arith, full)
  ]

module _ {page f : ℕ} {is_kernel is_writeable : Bool} {s s' : Mm}
    (got : IsAllocated page is_kernel is_writeable f s s') where
  -- What is allocated to one entry was not in use by another.
  pub IsAllocated-IsUnshared : IsUnshared s → IsUnshared s'
  IsAllocated-IsUnshared u = record {
    marked = λ a used.
        ground
          (arith, got.self, got.others a, u.marked a, got.bitmap f, got.bitmap (s.pages a).frame);
    distinct = λ a b ne used same. ground (
      arith,
      got.self,
      got.others a,
      got.others b,
      u.distinct a b ne,
      u.marked a,
      u.marked b,
      got.free,
    );
  }

-- A request for a frame keeps the frames unshared, where it does not halt.
pub alloc_frame-IsUnshared :
    (page : ℕ) (is_kernel is_writeable : Bool) (s : Mm)
    → s.frames.nframes ≤ 2 ^ 20
    → IsUnshared s
    → ((s' : Mm) × (alloc_frame page is_kernel is_writeable s ≡ ok s') × IsUnshared s')
      ⊎ (alloc_frame page is_kernel is_writeable s ≡ halted)
alloc_frame-IsUnshared page is_kernel is_writeable s few u =
    elim (Bool-cases ((s.pages page).frame == 0)) [
      | inr used ↦ inl (s, alloc_frame-same page is_kernel is_writeable s few (==→ne _ _ used), u)
      | inl empty ↦
          elim (alloc_frame-IsAllocated page is_kernel is_writeable s few (==→eq _ _ empty)) [
            | inl (f, s', run, lt, got) ↦ inl (s', run, IsAllocated-IsUnshared got u)
            | inr (stop, full) ↦ inr stop
          ]
    ]

-- `free_frame` leaves the frame of the entry marked as taken: the number is used as an address, so the
-- mark that goes is the one of the frame `f / 0x1000`, and no later request gets the frame `f`.
pub free_frame-is_taken :
    (page : ℕ) (s : Mm)
    → (s.pages page).frame ≢ 0
    → let f = (s.pages page).frame in
      (((free_frame page s).pages page).frame ≡ 0)
      × (is_taken (free_frame page s).frames f ≡ is_taken s.frames f)
      × (is_taken (free_frame page s).frames (f / 0x1000) ≡ false)
unfolding free_frame
free_frame-is_taken page s ne =
    let f = (s.pages page).frame in
    ground (arith, is_taken-clear_frame s.frames f f, is_taken-clear_frame s.frames f (f / 0x1000))
