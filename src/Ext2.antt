-- ===== src/Ext2.antt =====
-- kernel/core/fs/ext2_initrd.c over the structures of kernel/include/ext2.h: the ext2 image that was
-- loaded at `initrd_start`. A structure is read from memory field by field, at the offsets that the
-- packed declarations give. A node of the file system is a value: the pointer to it is left out.
pub mod Read
pub mod Nodes
pub mod Lookup
pub mod Directory
pub mod Driver
pub mod Mount
mod Tests
use mya_xos.Base.{
  ℕ, zero, suc, ◌+◌, ◌-◌, ◌*◌, ◌/◌, ◌%◌, ◌^◌, bit_and, bit_or, Bool, true, false, not, Option, none,
  some, List, [], ◌∷◌, ◌==◌, ltb, leb, if◌then◌else◌, u32, sub32, ◌<<<◌,
}
use mya_xos.Memory.{Memory, null, store8, load16, load32, store16}
use mya_xos.Panic.{Outcome, ok, halted, out_of_fuel, ◌>>=◌, ◌>>◌, check}
use mya_xos.Allocator.{Allocator}
use mya_xos.Str.{memcpy, strcmp, Compared, equal}

-- The image: `initrd_start` and `initrd_inode_table`.
pub record Initrd : Type 0 where
  pub start : ℕ
  pub inode_table : ℕ

-- The fields that are used of `ext2_superblock`, `ext2_bgdescriptor`, `ext2_inodetable` and
-- `ext2_dir`, by the address of the structure.
abbrev pub superblock : Initrd → ℕ
superblock d = d.start + 1024

abbrev pub log_block_size : Memory → Initrd → ℕ
log_block_size m d = load32 m (superblock d + 24)

abbrev pub magic : Memory → Initrd → ℕ
magic m d = load16 m (superblock d + 56)

abbrev pub inode_size : Memory → Initrd → ℕ
inode_size m d = load16 m (superblock d + 88)

abbrev pub i_mode : Memory → ℕ → ℕ
i_mode m inode = load16 m inode

abbrev pub i_uid : Memory → ℕ → ℕ
i_uid m inode = load16 m (inode + 2)

abbrev pub i_size : Memory → ℕ → ℕ
i_size m inode = load32 m (inode + 4)

abbrev pub i_gid : Memory → ℕ → ℕ
i_gid m inode = load16 m (inode + 24)

abbrev pub i_block : Memory → ℕ → ℕ → ℕ
i_block m inode k = load32 m (inode + 40 + 4 * k)

abbrev pub d_inode : Memory → ℕ → ℕ
d_inode m dir = load32 m dir

abbrev pub d_rec_len : Memory → ℕ → ℕ
d_rec_len m dir = load16 m (dir + 4)

abbrev pub d_name_len : Memory → ℕ → ℕ
d_name_len m dir = m (dir + 6)

abbrev pub d_name : ℕ → ℕ
d_name dir = dir + 8

-- `1024 << initrd_superblock->log_block_size`
unfoldable pub block_size : Memory → Initrd → ℕ
block_size m d = u32 (1024 <<< log_block_size m d)

pub ext2_get_inode : Memory → Initrd → (inode : ℕ) → ℕ
ext2_get_inode m d inode = u32 (d.inode_table + u32 (inode_size m d * sub32 inode 1))

pub ext2_get_block : Memory → Initrd → (block : ℕ) → ℕ
ext2_get_block m d block = u32 (d.start + u32 (block_size m d * block))

pub ext2_get_inode_block : Memory → Initrd → (inode block : ℕ) → ℕ
ext2_get_inode_block m d inode block =
    if ltb block 12
    then ext2_get_block m d (i_block m inode block)
    else if ltb block (12 + block_size m d / 4)
    then ext2_get_block m d (load32 m (ext2_get_block m d (i_block m inode 12) + (block - 12) * 4))
    else null

-- The loop over the blocks, with `left` rounds to go, from `block_offset` on.
read_blocks :
    (left : ℕ) → Initrd → (inode buffer offset bs block_offset blocks_read : ℕ) → Memory → Memory
read_blocks zero d inode buffer offset bs block_offset blocks_read m = m
read_blocks (suc left) d inode buffer offset bs block_offset blocks_read m =
    let block = ext2_get_inode_block m d inode block_offset in
    let m' =
      if block_offset == offset / bs
      then memcpy m buffer (block + offset % bs) (bs - offset % bs)
      else memcpy m (buffer + bs * blocks_read - offset % bs) block bs in
    read_blocks left d inode buffer offset bs (block_offset + 1) (blocks_read + 1) m'

-- Where the file ends, or the request.
abbrev pub read_end : (i_size offset size : ℕ) → ℕ
read_end i_size offset size =
    if ltb i_size (u32 (offset + size)) then i_size else u32 (offset + size)

-- The count returned, and memory with the buffer filled.
pub read_initrd : Initrd → (node_inode offset size buffer : ℕ) → Memory → ℕ × Memory
read_initrd d node_inode offset size buffer m =
    let inode = ext2_get_inode m d node_inode in
    let end = read_end (i_size m inode) offset size in
    let bs = block_size m d in
    let start_block = offset / bs in
    let end_block = end / bs in
    let size_to_read = sub32 end offset in
    let m' = read_blocks (end_block - start_block) d inode buffer offset bs start_block 0 m in
    if start_block == end_block
    then (
      size_to_read,
      memcpy m buffer (ext2_get_inode_block m d inode start_block + offset % bs) size_to_read,
    )
    else (
      size_to_read,
      memcpy m' (buffer + bs * (end_block - start_block) - offset % bs)
          (ext2_get_inode_block m' d inode end_block) (end % bs),
    )

-- `write_initrd` is not implemented by the driver: it returns 0 and writes nothing.
pub write_initrd : (node_inode offset size buffer : ℕ) → Memory → ℕ × Memory
write_initrd node_inode offset size buffer m = (0, m)

-- The loop of `ext2_get_direntry`: the address of the entry, `null` if there is none.
direntry_loop : (fuel : ℕ) → Memory → (block size index dir_offset dir_index : ℕ) → Outcome ℕ
direntry_loop zero m block size index dir_offset dir_index = out_of_fuel
direntry_loop (suc fuel) m block size index dir_offset dir_index =
    let d_ent = block + dir_offset in
    let next =
      direntry_loop fuel m block size index (u32 (dir_offset + d_rec_len m d_ent))
        (u32 (dir_index + 1)) in
    if not (ltb dir_offset size) then ok null else if dir_index == index then ok d_ent else next

pub ext2_get_direntry : (fuel : ℕ) → Memory → Initrd → (inode index : ℕ) → Outcome ℕ
ext2_get_direntry fuel m d inode index =
    direntry_loop fuel m (ext2_get_block m d (i_block m inode 0)) (i_size m inode) index 0 0
