-- ===== src/Ext2/Tests.antt =====
-- A small image: the inode 2 is a file of 16 bytes in the block 8, which is also a directory with one
-- entry, "a".
use mya_xos.Base.{
  ℕ, zero, suc, ◌+◌, ◌-◌, ◌≤◌, ◌≡◌, refl, [], ◌∷◌, Bool, arith, ◌==◌, ltb, if◌then◌else◌,
}
use mya_xos.Memory.{Memory, within, load32}
use mya_xos.Panic.{ok}
use mya_xos.Allocator.{Machine}
use mya_xos.Allocator.Bump.{bump}
use mya_xos.Ext2.{
  Initrd, block_size, ext2_get_inode, ext2_get_block, ext2_get_inode_block, ext2_get_direntry,
  read_initrd,
}
use mya_xos.Ext2.Read.Fill.{IsAway, IsApart}
use mya_xos.Ext2.Read.Layout.{byte_of}
use mya_xos.Ext2.Read.File.{read_initrd-IsFilled}
use mya_xos.Ext2.Directory.{ext2_get_direntry-entry_at}
use mya_xos.Ext2.Lookup.{finddir_loop}
use mya_xos.Ext2.Lookup.Finddir.{IsStable, FirstNamed, finddir_loop-FirstNamed}

abbrev image : Memory
image x =
    if x == 0x10458
    then 128
    else if x == 0x20084
    then 16
    else if x == 0x200A8
    then 8
    else if x == 0x12000
    then 5
    else if x == 0x12004
    then 16
    else if x == 0x12006
    then 1
    else if x == 0x12008
    then 97
    else if x == 0x30000
    then 97
    else 0

abbrev disk : Initrd
disk = record { start = 0x10000; inode_table = 0x20000 }

first_block-IsAway : IsAway 0x100 3 0x12000 1024
first_block-IsAway x lo hi = ground arith

block-IsAway :
    (b : ℕ)
    → b ≤ 0
    → IsAway 0x100 3 (ext2_get_inode_block image disk 0x20080 b) (block_size image disk)
unfolding block_size load32 ext2_get_block ext2_get_inode_block
block-IsAway zero h = first_block-IsAway
block-IsAway (suc b) h = absurd (omega arith)

image-IsApart : IsApart 0x100 3 image disk 0x20080 0 0
unfolding block_size load32 ext2_get_block ext2_get_inode_block
image-IsApart = record {
  super = λ x lo hi. ground arith;
  node = λ x lo hi. ground arith;
  index = λ x lo hi. ground arith;
  blocks = λ b lb hb. block-IsAway b hb;
}

read_initrd-IsFilled_example :
    let (count, m') = read_initrd disk 2 7 3 0x100 image in
    (count ≡ 3)
    × ((x : ℕ)
        → m' x
          ≡ (if within 0x100 3 x then byte_of image disk 0x20080 (7 + (x - 0x100)) else image x))
unfolding block_size ext2_get_inode load32
read_initrd-IsFilled_example =
    read_initrd-IsFilled disk 2 7 3 0x100 image (omega arith) (omega arith) (omega arith)
      (omega arith) (omega arith) (omega arith) image-IsApart

ext2_get_direntry-entry_at_example : ext2_get_direntry 5 image disk 0x20080 0 ≡ ok 0x12000
unfolding ext2_get_block block_size load32
ext2_get_direntry-entry_at_example =
    ext2_get_direntry-entry_at 5 image disk 0x20080 0 (0x12000 ∷ [])
      (refl, omega arith, omega arith, omega arith) (omega arith) (omega arith)

abbrev booted : Machine bump
booted = record { heap = (0x40000, 0); mem = image }

abbrev low : ℕ → Bool
low x = ltb x 0x40000

finddir_loop-FirstNamed_example :
    (p : ℕ) × (s' : Machine bump) × (finddir_loop bump 300 0x20080 0x12000 0x30000 0 booted
      ≡ ok (p, s'))
    × FirstNamed image (97 ∷ []) (0x12000 ∷ []) p
    × IsStable bump image low s'
unfolding load32
finddir_loop-FirstNamed_example =
    finddir_loop-FirstNamed bump image low 0x20080 0x12000 0x30000 (97 ∷ [])
      (λ x lo hi. ground arith) (λ x lo hi. ground arith) (ground arith) (ground arith) 300 0
      (0x12000 ∷ []) booted (record { same = λ x h. refl; alive = λ x h. h })
      (refl, omega arith, omega arith, omega arith)
      ((λ x lo hi. ground arith, omega arith, ground arith), tt) (omega arith)
