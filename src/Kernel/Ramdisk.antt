-- ===== src/Kernel/Ramdisk.antt =====
-- The first module that the boot loader reports, as `main` copies it.
use mya_xos.Base.{
  ℕ, ◌+◌, ◌-◌, ◌^◌, ◌<◌, ◌≤◌, ◌≡◌, refl, none, ◌⊎◌, true, ltb, if◌then◌else◌, sub32, arith,
}
use mya_xos.Memory.{Memory, within, load32}
use mya_xos.Str.Copy.{memcpy-within}
use mya_xos.Paging.{Mm, kmalloc}
use mya_xos.Paging.Placement.{kmalloc_lem}
use mya_xos.Multiboot.{field, flag}
use mya_xos.Kernel.{multiboot, Loaded, has_modules, load_module, load_ramdisk}

-- The table of modules at `field mboot_ptr 6` gives the first module the addresses from `start` to `end`.
pub record IsModule (mboot_ptr start end : ℕ) (m : Memory) : Type 0 where
  pub starts : load32 m (field mboot_ptr 6 m) ≡ start
  pub ends : load32 m (field mboot_ptr 6 m + 4) ≡ end
  pub ordered : start ≤ end
  pub fits : 0x200000 + end < 2 ^ 32
  pub apart : (0x200000 ≤ start) ⊎ (end ≤ 0x200000)

-- The copy stands at 0x200000, the placement goes on behind it, and nothing else is written.
pub record IsCopied (start size : ℕ) (s : Mm) (m : Memory) (l : Loaded) : Type 0 where
  pub mode : l.boot_mode ≡ multiboot
  pub place : l.ramdisk ≡ 0x200000
  pub mm : l.mm ≡ record s { placement_pointer = 0x200000 + size }
  pub mem : (x : ℕ) → l.mem x ≡ (if within 0x200000 size x then m (start + (x - 0x200000)) else m x)

-- Where the magic number is that of a multiboot loader, which reports at least one module, and the
-- first one does not start below 0x200000 and end above it, `main` copies that module to 0x200000,
-- whole, writes nowhere else, and has the placement go on behind it.
pub load_ramdisk-IsCopied :
    (mboot_ptr start end : ℕ) (s : Mm) (m : Memory)
    → has_modules mboot_ptr m ≡ true
    → IsModule mboot_ptr start end m
    → IsCopied start (end - start) s m (load_ramdisk mboot_ptr 0x2BADB002 s m)
unfolding load_ramdisk load_module
load_ramdisk-IsCopied mboot_ptr start end s m there h =
    let flagged : flag mboot_ptr 3 m ≡ true = ground (arith, there) in
    let counted : ltb 0 (field mboot_ptr 5 m) ≡ true = ground (arith, there) in
    let away : (0x200000 ≤ start) ⊎ (start + (end - start) ≤ 0x200000) =
      ground (arith, h.apart, h.ordered) in
    let size : sub32 end start ≡ end - start = ground (arith, h.ordered, h.fits) in
    let placed : kmalloc (end - start) 0x200000
        ≡ record { address = 0x200000; phys = none; placement = 0x200000 + (end - start) } =
      kmalloc_lem (end - start) 0x200000 (ground (arith, h.fits)) in
    rw (flagged, counted, h.starts, h.ends, size, placed)
      (record {
        mode = refl;
        place = refl;
        mm = refl;
        mem = λ x. memcpy-within m 0x200000 start (end - start) x away;
      })
