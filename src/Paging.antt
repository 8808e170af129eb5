-- ===== src/Paging.antt =====
-- kernel/core/mem.c: the placement allocator, the page tables and the heap. There is one page
-- directory, `kernel_directory`. The entries of the page tables are kept by their addresses, and a
-- table pointer is the address of its first entry.
pub mod Placement
pub mod Mapping
pub mod Heap
pub mod Flat
mod Tests
use mya_xos.Base.{
  ℕ, zero, suc, ◌+◌, ◌*◌, ◌/◌, ◌%◌, ◌^◌, bit_and, bit_or, Bool, true, false, ◌&&◌, not, Option,
  none, some, ◌==◌, ltb, if◌then◌else◌, u32,
}
use mya_xos.Memory.{null, within}
use mya_xos.Panic.{Outcome, ok, halted, out_of_fuel, ◌>>=◌, ◌>>◌, check}
use mya_xos.Frames.{Frames, set_frame, clear_frame, first_frame, no_frame}

-- `page_t` of kernel/include/system.h
pub record Page : Type 0 where
  pub present : ℕ
  pub rw : ℕ
  pub user : ℕ
  pub accessed : ℕ
  pub dirty : ℕ
  pub unused : ℕ
  pub frame : ℕ

abbrev pub blank_page : Page
blank_page = record {
  present = 0;
  rw = 0;
  user = 0;
  accessed = 0;
  dirty = 0;
  unused = 0;
  frame = 0;
}

pub record Mm : Type 0 where
  pub placement_pointer : ℕ
  pub heap_end : ℕ
  pub frames : Frames
  pub tables : ℕ → ℕ
  pub physical_tables : ℕ → ℕ
  pub pages : ℕ → Page

-- What the allocator returns, what it stores through `phys`, and where it goes on.
pub record Placed : Type 0 where
  pub address : ℕ
  pub phys : Option ℕ
  pub placement : ℕ

abbrev pub kmalloc_startat : ℕ → Mm → Mm
kmalloc_startat address s = record s { placement_pointer = address }

pub kmalloc_real : (size : ℕ) → (align phys : Bool) → (placement : ℕ) → Placed
kmalloc_real size align phys placement =
    let p =
      if align && not (bit_and placement 0xFFFFF000 == 0)
      then bit_and placement 0xFFFFF000
      else placement in
    record { address = p; phys = if phys then some p else none; placement = u32 (p + size) }

pub kmalloc : ℕ → ℕ → Placed
kmalloc size = kmalloc_real size false false

pub kvmalloc : ℕ → ℕ → Placed
kvmalloc size = kmalloc_real size true false

pub kmalloc_p : ℕ → ℕ → Placed
kmalloc_p size = kmalloc_real size false true

pub kvmalloc_p : ℕ → ℕ → Placed
kvmalloc_p size = kmalloc_real size true true

-- The writes of `alloc_frame`, once it has the frame `index`.
give_frame : (page index : ℕ) → (is_kernel is_writeable : Bool) → Mm → Mm
give_frame page index is_kernel is_writeable s = record s {
  frames = set_frame (u32 (index * 0x1000)) s.frames;
  pages = λ a.
      if a == page
      then record (s.pages page) {
        present = 1;
        rw = if is_writeable then 1 else 0;
        user = if is_kernel then 0 else 1;
        frame = index % 2 ^ 20;
      }
      else s.pages a;
}

-- `ok s` where the entry has a frame already, or gets the lowest free one.
pub alloc_frame : (page : ℕ) → (is_kernel is_writeable : Bool) → Mm → Outcome Mm
alloc_frame page is_kernel is_writeable s =
    let index = first_frame s.frames in
    if not ((s.pages page).frame == 0)
    then ok s
    else if index == no_frame
    then halted
    else ok (give_frame page index is_kernel is_writeable s)

-- The frame number is handed to `clear_frame` as it is, in place of an address.
pub free_frame : (page : ℕ) → Mm → Mm
free_frame page s = if (s.pages page).frame == 0 then s else record s {
  frames = clear_frame (s.pages page).frame s.frames;
  pages = λ a. if a == page then record (s.pages page) { frame = 0 } else s.pages a;
}

abbrev pub table_index : ℕ → ℕ
table_index address = address / 0x1000 / 1024

abbrev pub entry : (table address : ℕ) → ℕ
entry table address = u32 (table + 4 * (address / 0x1000 % 1024))

-- A new table, cleared and entered into the directory.
pub make_table : (address : ℕ) → Mm → Mm
make_table address s =
    let i = table_index address in
    let new = kvmalloc_p 0x1000 s.placement_pointer in
    record s {
      placement_pointer = new.placement;
      tables = λ k. if k == i then new.address else s.tables k;
      physical_tables = λ k. if k == i then bit_or new.address 0x7 else s.physical_tables k;
      pages = λ a. if within new.address 0x1000 a then blank_page else s.pages a;
    }

-- The address of the entry, `null` if there is none.
pub get_page : (address : ℕ) → (make : Bool) → Mm → ℕ × Mm
get_page address make s =
    let made = make_table address s in
    if not (s.tables (table_index address) == null)
    then (entry (s.tables (table_index address)) address, s)
    else if make
    then (entry (made.tables (table_index address)) address, made)
    else (null, s)

pub heap_install : Mm → Mm
heap_install s = record s { heap_end = s.placement_pointer; placement_pointer = 0 }

-- One round of the loop in `sbrk`.
pub sbrk_page : (i : ℕ) → Mm → Outcome Mm
sbrk_page i s =
    let again = get_page i true (get_page i true s).1 in alloc_frame again.0 false false again.1

sbrk_loop : (fuel i end : ℕ) → Mm → Outcome Mm
sbrk_loop zero i end s = out_of_fuel
sbrk_loop (suc fuel) i end s =
    if ltb i end then sbrk_page i s >>= sbrk_loop fuel (u32 (i + 0x1000)) end else ok s

-- The old end of the heap, with fuel for each page and the last test.
pub sbrk : (increment : ℕ) → Mm → Outcome (ℕ × Mm)
sbrk increment s = do
  check (increment % 0x1000 == 0)
  let address = s.heap_end
  let end = u32 (address + increment)
  s' ← sbrk_loop (increment / 0x1000 + 1) address end (record s { heap_end = end })
  ok (address, s')
