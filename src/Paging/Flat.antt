-- ===== src/Paging/Flat.antt =====
-- kernel/core/mem.c once more, on the flat memory: the bitmap, the page directory and the page tables
-- are objects in memory, at the addresses that the placement allocator gives them, so that they can
-- overlap. An entry is one word: its flags are the low bits, the frame the high 20.
pub mod Words
pub mod Overlap
pub mod Install
mod Tests
use mya_xos.Base.{
  ℕ, zero, suc, ◌+◌, ◌*◌, ◌/◌, ◌%◌, ◌^◌, bit_or, Bool, true, false, not, ◌==◌, ltb, if◌then◌else◌,
  u16, u32, ◌>>>◌,
}
use mya_xos.Memory.{Memory, null, load32, store16}
use mya_xos.Str.{memset}
use mya_xos.Panic.{Outcome, ok, halted, out_of_fuel, ◌>>=◌}
use mya_xos.Frames.{Frames, index_from_bit, offset_from_bit, first_frame, no_frame}
use mya_xos.Paging.{Page, kmalloc, kvmalloc, kvmalloc_p, table_index}

-- The fields of the word of an entry.
abbrev pub page_of : ℕ → Page
page_of word = record {
  present = word % 2;
  rw = word / 2 % 2;
  user = word / 4 % 2;
  accessed = word / 8 % 2;
  dirty = word / 16 % 2;
  unused = word / 32 % 2 ^ 7;
  frame = word / 2 ^ 12;
}

abbrev pub store32 : Memory → ℕ → ℕ → Memory
store32 m a v = store16 (store16 m a (u16 v)) (a + 2) (u16 (v >>> 16))

-- The globals of mem.c and two registers of the processor.
pub record Flat : Type 0 where
  pub placement_pointer : ℕ
  pub frames : ℕ
  pub nframes : ℕ
  pub kernel_directory : ℕ
  pub current_directory : ℕ
  pub cr0 : ℕ
  pub cr3 : ℕ
  pub mem : Memory

-- What the functions of the bitmap read.
abbrev pub bitmap : Flat → Frames
bitmap s = record { words = λ i. load32 s.mem (s.frames + 4 * i); nframes = s.nframes }

unfoldable pub set_frame_at : (frame_addr : ℕ) → Flat → Flat
set_frame_at frame_addr s =
    let frame = frame_addr / 0x1000 in
    let word = s.frames + 4 * index_from_bit frame in
    record s { mem = store32 s.mem word (bit_or (load32 s.mem word) (2 ^ offset_from_bit frame)) }

-- The word of an entry after the four assignments of `alloc_frame`: accessed, dirty and unused stay.
abbrev pub page_word : (word index : ℕ) → (is_kernel is_writeable : Bool) → ℕ
page_word word index is_kernel is_writeable =
    1
    + (if is_writeable then 2 else 0)
    + (if is_kernel then 0 else 4)
    + word / 8 % 2 ^ 9 * 8
    + index % 2 ^ 20 * 2 ^ 12

unfoldable pub alloc_frame_at : (page : ℕ) → (is_kernel is_writeable : Bool) → Flat → Outcome Flat
alloc_frame_at page is_kernel is_writeable s =
    let index = first_frame (bitmap s) in
    let marked = set_frame_at (u32 (index * 0x1000)) s in
    if not (load32 s.mem page / 2 ^ 12 == 0)
    then ok s
    else if index == no_frame
    then halted
    else ok (record marked {
      mem =
          store32 marked.mem page (page_word (load32 marked.mem page) index is_kernel is_writeable);
    })

-- `&dir->tables[i]`, `&dir->physical_tables[i]`, and the address of an entry in a table.
abbrev pub table_at : (dir i : ℕ) → ℕ
table_at dir i = dir + 4 * i

abbrev pub physical_at : (dir i : ℕ) → ℕ
physical_at dir i = dir + 4096 + 4 * i

abbrev pub page_at : (table address : ℕ) → ℕ
page_at table address = u32 (table + 4 * (address / 0x1000 % 1024))

unfoldable pub make_table_at : (address dir : ℕ) → Flat → Flat
make_table_at address dir s =
    let i = table_index address in
    let new = kvmalloc_p 0x1000 s.placement_pointer in
    let m = store32 s.mem (table_at dir i) new.address in
    let m = memset m (load32 m (table_at dir i)) 0 0x1000 in
    record s {
      placement_pointer = new.placement;
      mem = store32 m (physical_at dir i) (bit_or new.address 0x7);
    }

unfoldable pub get_page_at : (address : ℕ) → (make : Bool) → (dir : ℕ) → Flat → ℕ × Flat
get_page_at address make dir s =
    let table = load32 s.mem (table_at dir (table_index address)) in
    let made = make_table_at address dir s in
    if not (table == null)
    then (page_at table address, s)
    else if make
    then (page_at (load32 made.mem (table_at dir (table_index address))) address, made)
    else (null, s)

unfoldable pub switch_page_directory : (dir : ℕ) → Flat → Flat
switch_page_directory dir s = record s {
  current_directory = dir;
  cr3 = dir + 4096;
  cr0 = bit_or s.cr0 0x80000000;
}

-- The bitmap and the directory of `paging_install`, cleared. The directory has 8196 bytes.
unfoldable pub place_directory : (memsize : ℕ) → Flat → Flat
place_directory memsize s =
    let nframes = memsize / 4 in
    let map = kmalloc (index_from_bit nframes) s.placement_pointer in
    let m = memset s.mem map.address 0 (index_from_bit nframes) in
    let dir = kvmalloc 8196 map.placement in
    record s {
      placement_pointer = dir.placement;
      frames = map.address;
      nframes = nframes;
      kernel_directory = dir.address;
      current_directory = dir.address;
      mem = memset m dir.address 0 8196;
    }

-- One round of its loop.
unfoldable pub map_page : (i : ℕ) → Flat → Outcome Flat
map_page i s =
    let (page, s') = get_page_at i true s.kernel_directory s in alloc_frame_at page false false s'

-- The placement pointer moves on while tables are made.
unfoldable pub map_pages : (fuel i : ℕ) → Flat → Outcome Flat
map_pages zero i s = out_of_fuel
map_pages (suc fuel) i s =
    if ltb i s.placement_pointer then map_page i s >>= map_pages fuel (u32 (i + 0x1000)) else ok s
