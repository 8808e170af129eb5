-- ===== src/Kernel.antt =====
-- kernel/main.c around the calls that set the hardware and the paging up: what it loads of the boot
-- loader's modules, what it prints, what it mounts, and the shell.
pub mod Ramdisk
pub mod Main
mod Tests
use mya_xos.Base.{
  ℕ, zero, suc, ◌+◌, bit_and, some, none, Option, List, [], ◌∷◌, true, false, Bool, not, ◌&&◌, ◌==◌,
  ltb, if◌then◌else◌, sub32,
}
use mya_xos.Memory.{Memory, null, load32}
use mya_xos.Str.{memcpy}
use mya_xos.Paging.{Mm, kmalloc_startat, kmalloc}
use mya_xos.Report.{Script, stop, say, colours, run_script}
use mya_xos.Multiboot.{field, flag, dump_multiboot}
use mya_xos.Ext2.{Initrd}
use mya_xos.Ext2.Nodes.{Node}
use mya_xos.Ext2.Driver.{initrd_driver}
use mya_xos.Ext2.Mount.{initrd_mount}
use mya_xos.Allocator.{Allocator}
use mya_xos.Vga.{Console}
use mya_xos.Vfs.{Run, done, ◌>>=◌}
use mya_xos.Shell.Commands.{from_printed}
use mya_xos.Shell.Loop.{start_shell}
use Prim.Native.String.{String}

-- `enum BOOTMODE` of kernel/include/boot.h
pub data BootMode : Type 0 where
  unknown : BootMode
  mrboots : BootMode
  multiboot : BootMode

abbrev pub has_modules : (mboot_ptr : ℕ) → Memory → Bool
has_modules mboot_ptr m = flag mboot_ptr 3 m && ltb 0 (field mboot_ptr 5 m)

-- What `main` knows of the boot, and the stores that it has changed.
pub record Loaded : Type 0 where
  pub boot_mode : BootMode
  pub ramdisk : ℕ
  pub mm : Mm
  pub mem : Memory

-- The copy of the first module. The length is taken on 32 bits.
unfoldable pub load_module : (mboot_ptr : ℕ) → Mm → Memory → Loaded
load_module mboot_ptr s m =
    let module_start = load32 m (field mboot_ptr 6 m) in
    let module_end = load32 m (field mboot_ptr 6 m + 4) in
    let size = sub32 module_end module_start in
    let block = kmalloc size s.placement_pointer in
    record {
      boot_mode = multiboot;
      ramdisk = block.address;
      mm = record s { placement_pointer = block.placement };
      mem = memcpy m block.address module_start size;
    }

-- The `else` belongs to the test of the flag.
unfoldable pub load_ramdisk : (mboot_ptr mboot_mag : ℕ) → Mm → Memory → Loaded
load_ramdisk mboot_ptr mboot_mag s m =
    let started = kmalloc_startat 0x200000 s in
    if mboot_mag == 0x2BADB002
    then (if flag mboot_ptr 3 m
        then (if ltb 0 (field mboot_ptr 5 m)
            then load_module mboot_ptr started m
            else record { boot_mode = multiboot; ramdisk = null; mm = started; mem = m })
        else record { boot_mode = mrboots; ramdisk = null; mm = started; mem = m })
    else record { boot_mode = unknown; ramdisk = null; mm = s; mem = m }

-- What is printed before the shell starts; `uname` and `version` are the addresses of the two texts.
pub announce : (rounds uname version mboot_ptr : ℕ) → BootMode → Script
announce rounds uname version mboot_ptr mode = colours 12 0 (
    say "[%s %s]\n" (λ m. uname ∷ version ∷ [])
      (elim mode [ unknown ↦ stop | mrboots ↦ stop | multiboot ↦ dump_multiboot rounds mboot_ptr ]))

module _ (a : Allocator) (fuel buf : ℕ) (literal : String → ℕ) where
  -- The image and its root, the heap and the console; `none` where nothing is mounted.
  pub mount_ramdisk :
      (mboot_ptr ramdisk : ℕ)
      → BootMode
      → a.Heap
      → Console
      → Run (Option (Initrd × Node) × a.Heap × Console)
  mount_ramdisk mboot_ptr ramdisk unknown heap s = done (none, heap, s)
  mount_ramdisk mboot_ptr ramdisk mrboots heap s = done (none, heap, s)
  mount_ramdisk mboot_ptr ramdisk multiboot heap s =
      if has_modules mboot_ptr s.mem
      then (initrd_mount a fuel buf literal ramdisk heap s >>= λ r.
          done (some (r.image, r.fs_root), r.heap, r.console))
      else done (none, heap, s)

  -- `fs_root` is NULL where nothing is mounted, and then no image is read.
  abbrev no_image : Initrd
  no_image = record { start = null; inode_table = null }

  -- `main` from the first text on; `path` and `buffer` are arrays of the shell.
  pub main_shell :
      (uname version mboot_ptr ramdisk path buffer : ℕ)
      → BootMode
      → (mapped : ℕ → Bool) → (rounds : ℕ) → List ℕ
      → a.Heap
      → Console
      → Run Console
  main_shell uname version mboot_ptr ramdisk path buffer mode mapped rounds keys heap s =
      from_printed (run_script fuel buf literal (announce fuel uname version mboot_ptr mode) s)
      >>= λ s1. mount_ramdisk mboot_ptr ramdisk mode heap s1 >>= λ r.
          let (found, heap', s2) = r in
          elim found [
            | none ↦
                start_shell (initrd_driver a fuel no_image) fuel buf path buffer literal mapped none
                  rounds keys (record { node = none; heap = heap'; console = s2 })
                >>= λ shell. done shell.console
            | some (image, root) ↦
                start_shell (initrd_driver a fuel image) fuel buf path buffer literal mapped
                  (some root) rounds keys (record { node = none; heap = heap'; console = s2 })
                >>= λ shell. done shell.console
          ]
