-- ===== src/Ext2/Lookup.antt =====
-- `readdir_initrd` and `finddir_initrd` of kernel/core/fs/ext2_initrd.c, over the kernel's allocator.
pub mod Finddir
use mya_xos.Base.{
  ℕ, zero, suc, ◌+◌, bit_and, ◌≡◌, some, none, Option, not, ◌==◌, ltb, if◌then◌else◌, u16, u32,
  ◌>>>◌,
}
use mya_xos.Memory.{Memory, null, store8, load16, load32, store16}
use mya_xos.Panic.{Outcome, ok, halted, out_of_fuel, ◌>>=◌, ◌>>◌, check}
use mya_xos.Allocator.{Allocator, Machine, allocate, release}
use mya_xos.Str.{memcpy, strcmp, Compared, equal}
use mya_xos.Ext2.{
  Initrd, i_mode, i_size, d_inode, d_rec_len, d_name_len, d_name, ext2_get_inode,
  ext2_get_inode_block, ext2_get_direntry,
}
use mya_xos.Ext2.Nodes.{bytes_at, Dirent, Node, blank_node, ext2_s_ifdir, initrd_node_from_file}

-- The name of an entry, copied into a block of its own and ended by a NUL.
pub copy_name : (d_ent dname : ℕ) → Memory → Memory
copy_name d_ent dname m =
    let n = d_name_len m d_ent in store8 (memcpy m dname (d_name d_ent) n) (dname + n) 0

module _ (a : Allocator) where
  -- The entry as a `struct dirent`, 260 bytes with the number behind the name, in a block of its own.
  make_dirent : (direntry : ℕ) → Machine a → ℕ × Machine a
  make_dirent direntry s =
      let (p, s') = allocate a 260 s in
      let m = copy_name direntry p s'.mem in
      let n = d_inode m direntry in
      let low = store16 m (p + 256) (u16 n) in
      (p, record s' { mem = store16 low (p + 258) (u16 (n >>> 16)) })

  pub readdir_initrd :
      (fuel : ℕ) → Initrd → (node_inode index : ℕ) → Machine a → Outcome (ℕ × Machine a)
  readdir_initrd fuel d node_inode index s = do
    direntry ← ext2_get_direntry fuel s.mem d (ext2_get_inode s.mem d node_inode) index
    ok (if direntry == null then (null, s) else make_dirent direntry s)

  -- The loop of `finddir_initrd`: the address of the entry with that name, `null` if there is none.
  -- Each round compares a copy of the entry's name, which is released again.
  pub finddir_loop :
      (fuel : ℕ) → (inode block name dir_offset : ℕ) → Machine a → Outcome (ℕ × Machine a)
  finddir_loop zero inode block name dir_offset s = out_of_fuel
  finddir_loop (suc fuel) inode block name dir_offset s =
      let d_ent = block + dir_offset in
      let (dname, s1) = allocate a (d_name_len s.mem d_ent + 1) s in
      let copied = copy_name d_ent dname s1.mem in
      let s2 = release a dname (record { heap = s1.heap; mem = copied }) in
      let next =
        finddir_loop fuel inode block name (u32 (dir_offset + d_rec_len s2.mem d_ent)) s2 in
      if not (ltb dir_offset (i_size s.mem inode))
      then ok (null, s)
      else elim (strcmp (suc fuel) copied dname name) [
        | none ↦ out_of_fuel
        | some equal ↦ ok (d_ent, s2)
        | some _ ↦ next
      ]

  -- The node for the entry that was found, in a block of its own; `none` where there is no block.
  unfoldable pub make_node : Initrd → (direntry : ℕ) → Machine a → Option Node × Machine a
  make_node d direntry s =
      let (p, s') = allocate a 312 s in
      let inode = ext2_get_inode s'.mem d (d_inode s'.mem direntry) in
      let (made, node) = initrd_node_from_file s'.mem inode direntry p blank_node in
      (if made == 0 then none else some node, s')

  -- `none` is NULL.
  unfoldable pub finddir_initrd :
      (fuel : ℕ) → Initrd → (node_inode name : ℕ) → Machine a → Outcome (Option Node × Machine a)
  finddir_initrd fuel d node_inode name s = do
    let inode = ext2_get_inode s.mem d node_inode
    check (not (bit_and (i_mode s.mem inode) ext2_s_ifdir == 0))
    (direntry, s') ← finddir_loop fuel inode (ext2_get_inode_block s.mem d inode 0) name 0 s
    ok (if direntry == null then (none, s') else make_node d direntry s')
