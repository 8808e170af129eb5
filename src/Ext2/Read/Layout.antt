-- ===== src/Ext2/Read/Layout.antt =====
-- Where the bytes of a file lie in an ext2 image, after the layout of ext2: the superblock is 1024 bytes
-- behind the start, an inode has 15 block numbers from its byte 40 on, the first twelve of them direct and
-- the next one that of the block with the further numbers.
use mya_xos.Base.{
  ℕ, ◌+◌, ◌-◌, ◌*◌, ◌/◌, ◌%◌, ◌^◌, ◌<◌, ◌≤◌, ◌≡◌, refl, ap, inl, inr, true, arith, ltb,
  if◌then◌else◌, sub32, Bool-cases,
}
use mya_xos.Memory.{Memory, load16, load32}
use mya_xos.Ext2.{Initrd, block_size, ext2_get_inode, ext2_get_block, ext2_get_inode_block}
use mya_xos.Ext2.Read.Fill.{file_byte}

module _ (m : Memory) (d : Initrd) where
  -- The bytes of a block.
  abbrev pub block_bytes : ℕ
  block_bytes = 1024 * 2 ^ load32 m (d.start + 1024 + 24) % 2 ^ 32

  -- The inode `i`, counted from 1.
  abbrev pub inode_at : ℕ → ℕ
  inode_at i = (d.inode_table + load16 m (d.start + 1024 + 88) * (i - 1) % 2 ^ 32) % 2 ^ 32

  abbrev pub block_at : ℕ → ℕ
  block_at number = (d.start + block_bytes * number % 2 ^ 32) % 2 ^ 32

  -- The number of the block `b` of a file, direct or by the block of numbers.
  abbrev pub number_of : (inode b : ℕ) → ℕ
  number_of inode b =
      if ltb b 12
      then load32 m (inode + 40 + 4 * b)
      else load32 m (block_at (load32 m (inode + 88)) + 4 * (b - 12))

  -- The byte `j` of the file whose inode is at `inode`.
  unfoldable pub byte_of : (inode j : ℕ) → ℕ
  byte_of inode j = m (block_at (number_of inode (j / block_bytes)) + j % block_bytes)

  pub ext2_get_inode-inode_at : (i : ℕ) → 1 ≤ i → i < 2 ^ 32 → ext2_get_inode m d i ≡ inode_at i
  unfolding ext2_get_inode
  ext2_get_inode-inode_at i lo hi = let e : sub32 i 1 ≡ i - 1 = omega arith in rw e refl

  get_inode_block-block_at :
      (inode b : ℕ)
      → b < 12 + block_bytes / 4
      → ext2_get_inode_block m d inode b ≡ block_at (number_of inode b)
  unfolding ext2_get_inode_block ext2_get_block block_size
  get_inode_block-block_at inode b h = elim (Bool-cases (ltb b 12)) [
    | inl direct ↦ rw direct refl
    | inr far ↦
        let near : ltb b (12 + block_bytes / 4) ≡ true = ground arith in
        let place : inode + 40 + 4 * 12 ≡ inode + 88 = omega arith in
        let scale : (b - 12) * 4 ≡ 4 * (b - 12) = omega arith in rw (far, near, place, scale) refl
  ]

  pub file_byte-byte_of :
      (inode j : ℕ)
      → j / block_bytes < 12 + block_bytes / 4
      → file_byte m d inode j ≡ byte_of inode j
  unfolding file_byte byte_of block_size
  file_byte-byte_of inode j h =
      ap (λ b. m (b + j % block_bytes)) (get_inode_block-block_at inode (j / block_bytes) h)
