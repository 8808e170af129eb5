-- ===== src/Ext2/Nodes.antt =====
-- The nodes of the file system that kernel/core/fs/ext2_initrd.c builds, and the image that the mount finds.
use mya_xos.Base.{ℕ, zero, suc, ◌+◌, ◌*◌, bit_and, bit_or, List, [], ◌∷◌, ◌==◌, if◌then◌else◌, u32}
use mya_xos.Memory.{Memory, null, load32, store16}
use mya_xos.Panic.{Outcome, ok, halted}
use mya_xos.Ext2.{
  Initrd, superblock, magic, inode_size, i_mode, i_uid, i_size, i_gid, d_inode, d_name_len, d_name,
  block_size,
}

-- The `n` bytes from `p` on.
abbrev pub bytes_at : Memory → (p n : ℕ) → List ℕ
bytes_at m p zero = []
bytes_at m p (suc n) = m p ∷ bytes_at m (p + 1) n

-- `struct dirent`: the name is the bytes before its NUL.
pub record Dirent : Type 0 where
  pub name : List ℕ
  pub ino : ℕ

-- `fs_node_t` of kernel/include/fs.h, without the pointers to the driver's functions, which are the
-- same for all nodes of the driver. The name is the bytes before its NUL.
pub record Node : Type 0 where
  pub name : List ℕ
  pub mask : ℕ
  pub uid : ℕ
  pub gid : ℕ
  pub flags : ℕ
  pub inode : ℕ
  pub length : ℕ

abbrev pub blank_node : Node
blank_node = record { name = []; mask = 0; uid = 0; gid = 0; flags = 0; inode = 0; length = 0 }

abbrev pub ext2_s_ifdir : ℕ
ext2_s_ifdir = 0x4000

-- One test of the mode: the flag is set where all digits of `kind` are.
unfoldable pub set_if : (mode kind flag : ℕ) → ℕ → ℕ
set_if mode kind flag flags = if bit_and mode kind == kind then bit_or flags flag else flags

-- The tests for a regular file, directory, block device, character device, pipe and link.
unfoldable pub mode_flags : (mode : ℕ) → ℕ
mode_flags mode =
    let flags = set_if mode 0x8000 0x01 0 in
    let flags = set_if mode ext2_s_ifdir 0x02 flags in
    let flags = set_if mode 0x6000 0x08 flags in
    let flags = set_if mode 0x2000 0x04 flags in
    let flags = set_if mode 0x1000 0x10 flags in set_if mode 0xA000 0x20 flags

-- What is returned, and the node with what was written through `fnode`.
unfoldable pub initrd_node_from_file : Memory → (inode direntry fnode : ℕ) → Node → ℕ × Node
initrd_node_from_file m inode direntry fnode old = if fnode == null then (0, old) else (
  1,
  record {
    name = bytes_at m (d_name direntry) (d_name_len m direntry);
    mask = bit_and (i_mode m inode) 0xFFF;
    uid = i_uid m inode;
    gid = i_gid m inode;
    flags = mode_flags (i_mode m inode);
    inode = d_inode m direntry;
    length = i_size m inode;
  },
)

unfoldable pub initrd_node_root : Memory → (inode fnode : ℕ) → Node → ℕ × Node
initrd_node_root m inode fnode old = if fnode == null then (0, old) else (
  1,
  record {
    name = b'/' ∷ [];
    mask = bit_and (i_mode m inode) 0xFF;
    uid = i_uid m inode;
    gid = i_gid m inode;
    flags = mode_flags (i_mode m inode);
    inode = 2;
    length = i_size m inode;
  },
)

pub initrd_node_from_dirent : Memory → (inode : ℕ) → Dirent → (fnode : ℕ) → Node → ℕ × Node
initrd_node_from_dirent m inode direntry fnode old = if fnode == null then (0, old) else (
  1,
  record {
    name = direntry.name;
    mask = bit_and (i_mode m inode) 0xFFF;
    uid = i_uid m inode;
    gid = i_gid m inode;
    flags = mode_flags (i_mode m inode);
    inode = direntry.ino;
    length = i_size m inode;
  },
)

-- The image as `initrd_mount` finds it, and memory with the inode size put right; a wrong magic
-- number stops the kernel.
pub find_image : (mem_head : ℕ) → Memory → Outcome (Initrd × Memory)
find_image mem_head m =
    let found : Initrd = record { start = mem_head; inode_table = 0 } in
    let m' = if inode_size m found == 0 then store16 m (superblock found + 88) 128 else m in
    let table =
      u32 (mem_head + u32 (block_size m' found * load32 m' (mem_head + 1024 + 1024 + 8))) in
    if magic m found == 0xEF53
    then ok (record { start = mem_head; inode_table = table }, m')
    else halted
