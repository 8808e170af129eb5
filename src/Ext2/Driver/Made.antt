-- ===== src/Ext2/Driver/Made.antt =====
-- The node that `finddir_initrd` makes of an entry.
use mya_xos.Base.{
  ℕ, ◌+◌, ◌<◌, ◌≤◌, ◌≡◌, refl, ◌∙◌, inl, inr, some, List, true, false, Bool, arith, ◌==◌,
  Bool-cases,
}
use mya_xos.Memory.{Memory, null}
use mya_xos.Allocator.{Allocator, Machine, allocate}
use mya_xos.Ext2.{Initrd, i_mode, i_uid, i_size, i_gid, d_inode, d_name_len, d_name, ext2_get_inode}
use mya_xos.Ext2.Nodes.{bytes_at, initrd_node_from_file}
use mya_xos.Ext2.Lookup.{make_node}
use mya_xos.Ext2.Lookup.Finddir.{IsStable}
use mya_xos.Ext2.Driver.Frame.{load16-same, load32-same, bytes_at-same, ext2_get_inode-same}
use mya_xos.Vfs.Resolve.{Spares}
use mya_xos.Ext2.Driver.Tree.{IsImage, node_of}

module _ (a : Allocator) (fuel : ℕ) (d : Initrd) (m : Memory) (img valid : ℕ → Bool)
    (entries : ℕ → List ℕ) (image : IsImage a fuel d m img valid entries) where
  -- What the machine keeps.
  abbrev pub Keeps : Machine a → Type 0
  Keeps s = IsStable a m img s

  -- The block for a node is not at NULL, since NULL belongs to the program.
  node_block : (s : Machine a) → a.safe s.heap null ≡ true → ((allocate a 312 s).0 == null) ≡ false
  node_block s own = elim (Bool-cases ((allocate a 312 s).0 == null)) [
    | inr block ↦ block
    | inl at_null ↦
        absurd (ground (arith, own, a.malloc_fresh 312 s.heap s.mem null (ground (arith, at_null))))
  ]

  -- The node of an entry, made in a machine that has the image.
  pub make_node-node_of :
      (e : ℕ) (s : Machine a)
      → Keeps s
      → valid (d_inode m e) ≡ true
      → ((x : ℕ) → e ≤ x → x < e + 8 + d_name_len m e → img x ≡ true)
      → (s' : Machine a) × (make_node a d e s ≡ (some (node_of d m e), s')) × Spares a s s'
  unfolding make_node initrd_node_from_file
  make_node-node_of e s keeps good reads =
      let (p, s') = allocate a 312 s in
      let same : (x : ℕ) → img x ≡ true → s'.mem x ≡ m x =
        λ x h. a.malloc_keeps 312 s.heap s.mem x (keeps.alive x h) ∙ keeps.same x h in
      let number : d_inode s'.mem e ≡ d_inode m e =
        load32-same m s'.mem e (λ x lo hi. same x (reads x lo (omega arith))) in
      let at : ext2_get_inode s'.mem d (d_inode m e) ≡ ext2_get_inode m d (d_inode m e) =
        ext2_get_inode-same d m s'.mem (d_inode m e)
          (λ x lo hi. same x (image.node_size x lo hi)) in
      let inode = ext2_get_inode m d (d_inode m e) in
      let field : (x : ℕ) → inode ≤ x → x < inode + 44 → s'.mem x ≡ m x =
        λ x lo hi. same x (image.inode (d_inode m e) x good lo hi) in
      let mode : i_mode s'.mem inode ≡ i_mode m inode =
        load16-same m s'.mem inode (λ x lo hi. field x lo (omega arith)) in
      let uid : i_uid s'.mem inode ≡ i_uid m inode =
        load16-same m s'.mem (inode + 2) (λ x lo hi. field x (omega arith) (omega arith)) in
      let gid : i_gid s'.mem inode ≡ i_gid m inode =
        load16-same m s'.mem (inode + 24) (λ x lo hi. field x (omega arith) (omega arith)) in
      let size : i_size s'.mem inode ≡ i_size m inode =
        load32-same m s'.mem (inode + 4) (λ x lo hi. field x (omega arith) (omega arith)) in
      let len : d_name_len s'.mem e ≡ d_name_len m e =
        same (e + 6) (reads (e + 6) (omega arith) (omega arith)) in
      let name : bytes_at s'.mem (d_name e) (d_name_len m e)
          ≡ bytes_at m (d_name e) (d_name_len m e) =
        bytes_at-same m s'.mem (d_name e) (d_name_len m e)
          (λ x lo hi. same x (reads x (omega arith) (omega arith))) in
      let block = node_block s (keeps.alive null image.zero_page) in
      (
        s',
        rw (block, number, at, mode, uid, gid, size, len, name) refl,
        record {
          same_mem = λ x h. a.malloc_keeps 312 s.heap s.mem x h;
          same_safe = λ x h. a.malloc_safe 312 s.heap s.mem x h;
        },
      )
