-- ===== src/Ext2/Driver/Frame.antt =====
-- What is read of the image in a memory that has its bytes.
use mya_xos.Base.{
  ℕ, zero, suc, ◌+◌, ◌*◌, ◌<◌, ◌≤◌, ◌≡◌, refl, ap, List, [], ◌∷◌, arith, All, u32, sub32,
}
use mya_xos.Memory.{Memory, load16, load32}
use mya_xos.Ext2.{
  Initrd, d_rec_len, d_name_len, block_size, ext2_get_inode, ext2_get_block, ext2_get_inode_block,
}
use mya_xos.Ext2.Nodes.{bytes_at}
use mya_xos.Ext2.Directory.{IsEntries}

pub load16-same :
    (m m' : Memory) (a : ℕ) → ((x : ℕ) → a ≤ x → x < a + 2 → m' x ≡ m x) → load16 m' a ≡ load16 m a
load16-same m m' a same =
    ground (arith, same a (omega arith) (omega arith), same (a + 1) (omega arith) (omega arith))

pub load32-same :
    (m m' : Memory) (a : ℕ) → ((x : ℕ) → a ≤ x → x < a + 4 → m' x ≡ m x) → load32 m' a ≡ load32 m a
unfolding load32
load32-same m m' a same =
    let low = load16-same m m' a (λ x lo hi. same x lo (omega arith)) in
    let high = load16-same m m' (a + 2) (λ x lo hi. same x (omega arith) (omega arith)) in
    rw (low, high) refl

pub bytes_at-same :
    (m m' : Memory) (p n : ℕ)
    → ((x : ℕ) → p ≤ x → x < p + n → m' x ≡ m x)
    → bytes_at m' p n ≡ bytes_at m p n
bytes_at-same m m' p zero same = refl
bytes_at-same m m' p (suc n) same =
    let here = same p (omega arith) (omega arith) in
    rw (here, bytes_at-same m m' (p + 1) n (λ x lo hi. same x (omega arith) (omega arith))) refl

module _ (d : Initrd) (m m' : Memory) where
  pub block_size-same :
      ((x : ℕ) → d.start + 1048 ≤ x → x < d.start + 1052 → m' x ≡ m x)
      → block_size m' d ≡ block_size m d
  unfolding block_size
  block_size-same same =
      let e =
        load32-same m m' (d.start + 1024 + 24) (λ x lo hi. same x (omega arith) (omega arith)) in
      rw e refl

  pub ext2_get_inode-same :
      (i : ℕ)
      → ((x : ℕ) → d.start + 1112 ≤ x → x < d.start + 1114 → m' x ≡ m x)
      → ext2_get_inode m' d i ≡ ext2_get_inode m d i
  unfolding ext2_get_inode
  ext2_get_inode-same i same =
      let e =
        load16-same m m' (d.start + 1024 + 88) (λ x lo hi. same x (omega arith) (omega arith)) in
      ap (λ z. u32 (d.inode_table + u32 (z * sub32 i 1))) e

  pub first_block-same :
      (inode : ℕ)
      → ((x : ℕ) → d.start + 1048 ≤ x → x < d.start + 1052 → m' x ≡ m x)
      → ((x : ℕ) → inode ≤ x → x < inode + 44 → m' x ≡ m x)
      → ext2_get_inode_block m' d inode 0 ≡ ext2_get_inode_block m d inode 0
  unfolding ext2_get_inode_block ext2_get_block
  first_block-same inode super same =
      let size = block_size-same super in
      let block =
        load32-same m m' (inode + 40 + 4 * 0) (λ x lo hi. same x (omega arith) (omega arith)) in
      rw (size, block) refl

-- The entries and their names are in both.
abbrev pub AreSame : Memory → Memory → List ℕ → Type 0
AreSame m m' es = All (λ e. (x : ℕ) → e ≤ x → x < e + 8 + d_name_len m e → m' x ≡ m x) es

pub IsEntries-same :
    (m m' : Memory) (block size off : ℕ) (es : List ℕ)
    → AreSame m m' es
    → IsEntries m block size off es
    → IsEntries m' block size off es
IsEntries-same m m' block size off [] same h = h
IsEntries-same m m' block size off (e ∷ es) same h =
    let len : d_rec_len m' e ≡ d_rec_len m e =
      load16-same m m' (e + 4) (λ x lo hi. same.0 x (omega arith) (omega arith)) in
    (
      h.0,
      h.1,
      rw len h.2,
      rw len (IsEntries-same m m' block size (off + d_rec_len m e) es same.1 h.3),
    )
