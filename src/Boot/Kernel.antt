-- ===== src/Boot/Kernel.antt =====
-- The second stage finds the first entry that a k starts.
use mya_xos.Base.{
  ℕ, zero, suc, ◌+◌, ◌^◌, ◌<◌, ◌≤◌, ◌≡◌, refl, inl, inr, some, none, Option, List, [], ◌∷◌, true,
  arith, ◌==◌, ltb, if◌then◌else◌, length, Bool-cases, u16, u32,
}
use mya_xos.Memory.{Memory, load16}
use mya_xos.Ext2.{i_size, i_block, d_rec_len, d_name}
use mya_xos.Ext2.Directory.{IsEntries}
use mya_xos.Boot.{
  ext2_super_offset, boot_block, default_inode_size, root_node, kernel_loop, ending,
  directory_memory, main,
}

-- The first entry whose name starts with a k.
unfoldable pub first_k : Memory → List ℕ → Option ℕ
first_k m [] = none
first_k m (e ∷ es) = let rest = first_k m es in if m (d_name e) == b'k' then some e else rest

kernel_loop-first_k :
    (fuel : ℕ) (m : Memory) (block size off : ℕ) (es : List ℕ)
    → IsEntries m (u16 block) size off es
    → size + 2 ^ 16 ≤ 2 ^ 32
    → length es < fuel
    → kernel_loop fuel m block size off ≡ some (first_k m es)
unfolding kernel_loop first_k
kernel_loop-first_k zero m block size off es h small lt = absurd (omega arith)
kernel_loop-first_k (suc fuel) m block size off [] h small lt = ground arith
kernel_loop-first_k (suc fuel) m block size off (e ∷ es) h small lt =
    let at : u32 (u16 block + off) ≡ e = omega (arith, h.0, h.1) in
    let inside : ltb off size ≡ true = ground (arith, h.1) in
    let step : u32 (off + d_rec_len m e) ≡ off + d_rec_len m e = omega (arith, h.2) in
    let rest =
      kernel_loop-first_k fuel m block size (off + d_rec_len m e) es h.3 small (omega arith) in
    elim (Bool-cases (m (e + 8) == b'k')) [
      | inl hit ↦ rw (at, inside, step, rest, hit) refl
      | inr miss ↦ rw (at, inside, step, rest, miss) refl
    ]

ending-printed :
    (d : Option ℕ)
    → some (ending d)
      ≡ some (elim d [
        | none ↦ record { direntry = 0; printed = b'M' ∷ b'r' ∷ b'.' ∷ b' ' ∷ 19 ∷ [] }
        | some e ↦ record {
          direntry = e;
          printed = b'M' ∷ b'r' ∷ b'.' ∷ b' ' ∷ b'B' ∷ b'o' ∷ b'o' ∷ b't' ∷ b's' ∷ 19 ∷ [];
        }
      ])
ending-printed none = refl
ending-printed (some e) = refl

module _ (read : (count sector segment offset : ℕ) → Memory → Memory) where
  -- With the root directory on the disk, its entries one behind the other up to its size and fuel for
  -- each, the boot loader comes to an end. Where the magic number is wrong it has printed M and no entry
  -- is found; where it is right, the entry is the first whose name starts with a k and the text printed
  -- is that of Mr. Boots, or there is none and only the Mr. is printed. The character 19 ends each text.
  pub main-first_k :
      (fuel : ℕ) (m : Memory) (es : List ℕ)
      → let m1 = read 16 3 0 ext2_super_offset m in
        let rnode = root_node (default_inode_size m1) in
        let m3 = directory_memory read m1 in
        IsEntries m3 (u16 (boot_block m3 (i_block m3 rnode 0))) (i_size m3 rnode) 0 es
        → i_size m3 rnode + 2 ^ 16 ≤ 2 ^ 32
        → length es < fuel
        → main read fuel m
          ≡ some (
              if load16 m1 (ext2_super_offset + 56) == 0xEF53
              then (elim (first_k m3 es) [
                | none ↦ record { direntry = 0; printed = b'M' ∷ b'r' ∷ b'.' ∷ b' ' ∷ 19 ∷ [] }
                | some d ↦ record {
                  direntry = d;
                  printed = b'M' ∷ b'r' ∷ b'.' ∷ b' ' ∷ b'B' ∷ b'o' ∷ b'o' ∷ b't' ∷ b's' ∷ 19 ∷ [];
                }
              ])
              else record { direntry = 0; printed = b'M' ∷ 19 ∷ [] })
  unfolding main
  main-first_k fuel m es h small lt =
      let m1 = read 16 3 0 ext2_super_offset m in
      let rnode = root_node (default_inode_size m1) in
      let m3 = directory_memory read m1 in
      let found =
        kernel_loop-first_k fuel m3 (boot_block m3 (i_block m3 rnode 0)) (i_size m3 rnode) 0 es h
          small lt in
      elim (Bool-cases (load16 m1 (ext2_super_offset + 56) == 0xEF53)) [
        | inl good ↦ rw (main, good, found) (ending-printed (first_k m3 es))
        | inr bad ↦ rw (main, bad) refl
      ]
