-- ===== src/Ext2/Driver.antt =====
-- The driver that a node of the ext2 image has: the functions that kernel/core/fs/ext2_initrd.c puts
-- into each node, as kernel/core/vfs.c calls them.
mod Flags
mod Frame
pub mod Tree
mod Made
pub mod Open
mod Tests
use mya_xos.Base.{ℕ, some}
use mya_xos.Panic.{Outcome, ok, halted, out_of_fuel}
use mya_xos.Allocator.{Allocator, Machine}
use mya_xos.Vfs.{Run, done, stopped, Driver}
use mya_xos.Ext2.{Initrd, read_initrd, write_initrd}
use mya_xos.Ext2.Nodes.{Node}
use mya_xos.Ext2.Lookup.{readdir_initrd, finddir_initrd}

-- An assertion that fails stops the kernel.
abbrev pub as_run {ℓ} : {A : Type ℓ} → Outcome A → Run A
as_run (ok x) = done x
as_run halted = stopped
as_run Outcome.out_of_fuel = Run.out_of_fuel

module _ (a : Allocator) where
  unfoldable pub open_initrd : Node → (read write : ℕ) → Machine a → Machine a
  open_initrd node read write s = s

  pub close_initrd : Node → Machine a → Machine a
  close_initrd node s = s

  abbrev pub initrd_driver : (fuel : ℕ) → Initrd → Driver a
  initrd_driver fuel d = record {
    Node = Node;
    flags = λ n. n.flags;
    length = λ n. n.length;
    read = λ n. some (λ offset size buffer s.
        let (count, m) = read_initrd d n.inode offset size buffer s.mem in
        done (count, record s { mem = m }));
    write = λ n. some (λ offset size buffer s.
        let (count, m) = write_initrd n.inode offset size buffer s.mem in
        done (count, record s { mem = m }));
    open_node = λ n. some (λ r w s. done (open_initrd n r w s));
    close_node = λ n. some (λ s. done (close_initrd n s));
    readdir = λ n. some (λ index s. as_run (readdir_initrd a fuel d n.inode index s));
    finddir = λ n. some (λ name s. as_run (finddir_initrd a fuel d n.inode name s));
  }
