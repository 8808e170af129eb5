-- ===== src/Ext2/Mount.antt =====
-- `initrd_mount` of kernel/core/fs/ext2_initrd.c: the image, what is printed of its root, and the
-- root node.
use mya_xos.Base.{ℕ, ◌+◌, [], ◌∷◌, not, ◌==◌}
use Prim.Native.String.{String}
use mya_xos.Memory.{Memory, load32}
use mya_xos.Panic.{check}
use mya_xos.Allocator.{Allocator}
use mya_xos.Vga.{Console}
use mya_xos.Shell.Commands.{from_printed}
use mya_xos.Report.{Script, stop, say, run_script}
use mya_xos.Vfs.{Run, done, ◌>>=◌}
use mya_xos.Ext2.{Initrd, i_uid, i_size, i_block, ext2_get_inode, ext2_get_direntry}
use mya_xos.Ext2.Nodes.{Node, blank_node, initrd_node_root, find_image}
use mya_xos.Ext2.Driver.{as_run}

abbrev pub i_atime : Memory → ℕ → ℕ
i_atime m inode = load32 m (inode + 8)

pub mount_script : (root_inode : ℕ) → Script
mount_script root_inode =
    say "[DEBUG] root block 0 is %d\n" (λ m. i_block m root_inode 0 ∷ [])
      (say "[DEBUG] root size    is %d\n" (λ m. i_size m root_inode ∷ [])
        (say "[DEBUG]          uid is %d\n" (λ m. i_uid m root_inode ∷ [])
          (say "[DEBUG]        atime is %d\n" (λ m. i_atime m root_inode ∷ []) stop)))

-- The image, `fs_root`, the heap and the console, which has the memory.
pub record Mounted (a : Allocator) : Type 0 where
  pub image : Initrd
  pub fs_root : Node
  pub heap : a.Heap
  pub console : Console

-- The first entry is looked for and not used. The last assertion is for a block at NULL.
pub initrd_mount :
    (a : Allocator) (fuel buf : ℕ) (literal : String → ℕ) (mem_head : ℕ)
    → a.Heap
    → Console
    → Run (Mounted a)
initrd_mount a fuel buf literal mem_head heap s = as_run (find_image mem_head s.mem) >>= λ found.
    let (image, m) = found in
    let root_inode = ext2_get_inode m image 2 in
    from_printed (run_script fuel buf literal (mount_script root_inode) (record s { mem = m }))
    >>= λ s1. as_run (ext2_get_direntry fuel s1.mem image root_inode 0) >>= λ root_direntry.
        let block = a.malloc 312 heap s1.mem in
        let (made, root) = initrd_node_root block.mem root_inode block.pointer blank_node in
        as_run (check (not (made == 0))) >>= λ _. done (record {
          image = image;
          fs_root = root;
          heap = block.heap;
          console = record s1 { mem = block.mem };
        })
