-- ===== src/Boot/Tests.antt =====
-- A disk whose root directory is the block 1 and holds one entry, "k".
use mya_xos.Base.{ℕ, ◌≡◌, refl, some, [], ◌∷◌, arith, ◌==◌, if◌then◌else◌}
use mya_xos.Memory.{Memory, load32}
use mya_xos.Boot.{main}
use mya_xos.Boot.Kernel.{first_k, main-first_k}

-- The magic number, the size 256 of an inode, the inode table in the block 3, the root inode with the
-- size 16 and the block 4, and the entry.
abbrev disk : Memory
disk x =
    if x == 0x1038
    then 0x53
    else if x == 0x1039
    then 0xEF
    else if x == 0x1059
    then 1
    else if x == 0x1408
    then 3
    else if x == 0x1904
    then 16
    else if x == 0x1928
    then 4
    else if x == 0x1C04
    then 16
    else if x == 0x1C08
    then 107
    else 0

-- The disk is in memory already.
abbrev read_nothing : (count sector segment offset : ℕ) → Memory → Memory
read_nothing count sector segment offset m = m

main-first_k_example :
    main read_nothing 2 disk
    ≡ some (record {
      direntry = 0x1C00;
      printed = b'M' ∷ b'r' ∷ b'.' ∷ b' ' ∷ b'B' ∷ b'o' ∷ b'o' ∷ b't' ∷ b's' ∷ 19 ∷ [];
    })
unfolding first_k load32
main-first_k_example =
    main-first_k read_nothing 2 disk (0x1C00 ∷ []) (refl, omega arith, omega arith, omega arith)
      (omega arith) (omega arith)
