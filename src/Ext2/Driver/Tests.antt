-- ===== src/Ext2/Driver/Tests.antt =====
-- An image whose root directory has one file, "a", and the path "/a".
use mya_xos.Base.{
  ℕ, ◌≡◌, refl, ◌⊎◌, inl, inr, some, List, [], ◌∷◌, true, Bool, arith, ◌==◌, ltb, if◌then◌else◌,
  Bool-cases,
}
use mya_xos.Memory.{Memory, load32}
use mya_xos.Allocator.{Machine}
use mya_xos.Allocator.Bump.{bump}
use mya_xos.Vfs.{done, kopen}
use mya_xos.Ext2.{Initrd, block_size, ext2_get_inode, ext2_get_block, ext2_get_inode_block}
use mya_xos.Ext2.Nodes.{blank_node, initrd_node_root}
use mya_xos.Ext2.Driver.{initrd_driver}
use mya_xos.Ext2.Driver.Tree.{IsImage, lookup}
use mya_xos.Ext2.Driver.Open.{kopen-resolve_image}
use mya_xos.Vfs.Resolve.{resolve, first_name, other_names}

abbrev image : Memory
image x =
    if x == 0x10458
    then 128
    else if x == 0x20081
    then 0x40
    else if x == 0x20084
    then 16
    else if x == 0x200A8
    then 8
    else if x == 0x20201
    then 0x80
    else if x == 0x12000
    then 5
    else if x == 0x12004
    then 16
    else if x == 0x12006
    then 1
    else if x == 0x12008
    then 97
    else if x == 0x30000
    then 47
    else if x == 0x30001
    then 97
    else 0

abbrev disk : Initrd
disk = record { start = 0x10000; inode_table = 0x20000 }

abbrev booted : Machine bump
booted = record { heap = (0x40000, 0); mem = image }

abbrev low : ℕ → Bool
low x = ltb x 0x40000

-- The root, and the file.
abbrev valid : ℕ → Bool
valid i = if i == 2 then true else i == 5

abbrev entries : ℕ → List ℕ
entries i = if i == 2 then 0x12000 ∷ [] else []

valid-cases : (i : ℕ) → valid i ≡ true → (i ≡ 2) ⊎ (i ≡ 5)
valid-cases i h = elim (Bool-cases (i == 2)) [
  | inl root ↦ inl (ground (arith, root))
  | inr other ↦ inr (ground (arith, other, h))
]

image-IsImage : IsImage bump 300 disk image low valid entries
unfolding ext2_get_inode load32 ext2_get_block ext2_get_inode_block block_size
image-IsImage = record {
  zero_page = refl;
  log_size = λ x lo hi. ground arith;
  node_size = λ x lo hi. ground arith;
  inode = λ i x good lo hi. elim (valid-cases i good) [
    | inl root ↦ ground (arith, rw root at hi)
    | inr file ↦ ground (arith, rw file at hi)
  ];
  directory = λ i good directory. elim (valid-cases i good) [
    | inl root ↦ rw root (
      (refl, omega arith, omega arith, omega arith),
      ((λ x lo hi. ground arith, omega arith, ground arith), tt),
      ((refl, λ e. absurd (omega arith)), tt),
      omega arith,
    )
    | inr file ↦ absurd (ground (arith, rw file at directory))
  ];
}

kopen-resolve_image_example :
    let driver = initrd_driver bump 300 disk in
    let root = (initrd_node_root image 0x20080 1 blank_node).1 in
    (s' : Machine bump) × (kopen driver 9 (some root) 0x30000 booted
      ≡ done (
        resolve driver
            (lookup bump 300 disk image low valid entries)
            (first_name (97 ∷ []))
            (other_names (97 ∷ []))
            root,
        s',
      ))
unfolding ext2_get_inode load32
kopen-resolve_image_example =
    kopen-resolve_image bump 9 300 disk image low valid entries 0x30000 (97 ∷ []) booted
      image-IsImage (record { same = λ x h. refl; alive = λ x h. h }) refl
      (record {
        text = (refl, omega arith, (refl, omega arith, refl));
        owned = λ x lo hi. ground arith;
        behind = refl;
      })
      ((omega arith, omega arith), tt) (omega arith) refl
