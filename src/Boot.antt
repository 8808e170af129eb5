-- ===== src/Boot.antt =====
-- bootloader/stage2/main.c: the second stage of the boot loader, which looks for the kernel on an ext2
-- disk. The BIOS call of `read` is a parameter. At its end the processor stops, whatever was found.
pub mod Kernel
mod Tests
use mya_xos.Base.{
  ℕ, zero, suc, ◌+◌, ◌-◌, ◌*◌, ◌/◌, ◌≡◌, some, none, Option, List, [], ◌∷◌, ◌++◌, not, ◌==◌, ltb,
  if◌then◌else◌, u8, u16, u32, ◌<<<◌,
}
use mya_xos.Memory.{Memory, null, load16, load32, store16}
use mya_xos.Ext2.{i_size, i_block, d_rec_len, d_name}

-- EXT2_SUPER_OFFSET, which is also EXT2_START + 0x400, and EXT2_START.
abbrev pub ext2_super_offset : ℕ
ext2_super_offset = 0x1000

abbrev pub ext2_start : ℕ
ext2_start = 0x1000 - 0x400

-- The macro `ext2_get_block`.
abbrev pub boot_block : Memory → (block : ℕ) → ℕ
boot_block m block =
    u32 (ext2_start + u32 (u32 (0x400 <<< load32 m (ext2_super_offset + 24)) * block))

-- A revision without the size of an inode gets 128.
abbrev pub default_inode_size : Memory → Memory
default_inode_size m =
    if load16 m (ext2_super_offset + 88) == 0 then store16 m (ext2_super_offset + 88) 128 else m

-- `rnode`: the second inode of the table that the group descriptor leads to, both cut to 16 bits.
abbrev pub root_node : Memory → ℕ
root_node m =
    u16 (boot_block m (load32 m (ext2_start + 0x400 + 0x400 + 8)))
    + u16 (load16 m (ext2_super_offset + 88))

-- The loop over the entries, to the first name that starts with a k: `some none` is its end without one,
-- and `none` means that no fuel is left.
pub kernel_loop : (fuel : ℕ) → Memory → (block size dir_offset : ℕ) → Option (Option ℕ)
kernel_loop zero m block size dir_offset = none
kernel_loop (suc fuel) m block size dir_offset =
    let d_ent = u32 (u16 block + dir_offset) in
    let next = kernel_loop fuel m block size (u32 (dir_offset + d_rec_len m d_ent)) in
    if not (ltb dir_offset size)
    then some none
    else if m (d_name d_ent) == b'k'
    then some (some d_ent)
    else next

-- What was found and what was printed when the processor stops.
pub record Booted : Type 0 where
  pub direntry : ℕ
  pub printed : List ℕ

abbrev pub failed : List ℕ → Booted
failed text = record { direntry = null; printed = text ++ (19 ∷ []) }

-- The code behind `success` goes on to that behind `failure`.
abbrev pub ending : Option ℕ → Booted
ending none = failed (b'M' ∷ b'r' ∷ b'.' ∷ b' ' ∷ [])
ending (some direntry) = record {
  direntry = direntry;
  printed = b'M' ∷ b'r' ∷ b'.' ∷ b' ' ∷ b'B' ∷ b'o' ∷ b'o' ∷ b't' ∷ b's' ∷ 19 ∷ [];
}

module _ (read : (count sector segment offset : ℕ) → Memory → Memory) where
  -- Memory when the directory has been read, on a disk with the magic number.
  abbrev pub directory_memory : Memory → Memory
  directory_memory m =
      let m1 = default_inode_size m in
      read 2 (u8 (9 + boot_block m1 (i_block m1 (root_node m1) 0) / 0x200)) 0
        (ext2_super_offset + 0xc00) m1

  pub main : (fuel : ℕ) → Memory → Option Booted
  main fuel m =
      let m1 = read 16 3 0 ext2_super_offset m in
      let rnode = root_node (default_inode_size m1) in
      let m3 = directory_memory m1 in
      if not (load16 m1 (ext2_super_offset + 56) == 0xEF53)
      then some (failed (b'M' ∷ []))
      else elim (kernel_loop fuel m3 (boot_block m3 (i_block m3 rnode 0)) (i_size m3 rnode) 0) [
        | none ↦ none
        | some d ↦ some (ending d)
      ]
