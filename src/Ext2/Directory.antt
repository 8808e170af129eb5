-- ===== src/Ext2/Directory.antt =====
-- `ext2_get_direntry` against the list of entries that a directory holds.
use mya_xos.Base.{
  ℕ, zero, suc, ◌+◌, ◌^◌, ◌<◌, ◌≤◌, ◌≡◌, sym, ap, ◌∙◌, true, false, List, [], ◌∷◌, arith, ◌==◌, ltb,
  u32, length,
}
use mya_xos.Memory.{Memory, null}
use mya_xos.Panic.{ok}
use mya_xos.Ext2.{
  Initrd, d_rec_len, i_block, i_size, ext2_get_block, direntry_loop, ext2_get_direntry,
}

-- The entries from `off` on stand at the addresses `es`, each behind the one before, up to `size`.
abbrev pub IsEntries : (m : Memory) (block size off : ℕ) → List ℕ → Type 0
IsEntries m block size off [] = size ≤ off
IsEntries m block size off (e ∷ es) =
    (e ≡ block + off)
    × (off < size)
    × (off + d_rec_len m e < 2 ^ 32)
    × IsEntries m block size (off + d_rec_len m e) es

-- The entry at an index, `null` past the last.
abbrev pub entry_at : ℕ → List ℕ → ℕ
entry_at i [] = null
entry_at zero (e ∷ es) = e
entry_at (suc i) (e ∷ es) = entry_at i es

direntry_loop-entry_at :
    (fuel : ℕ) (m : Memory) (block size off at i : ℕ) (es : List ℕ)
    → IsEntries m block size off es
    → length es < fuel
    → at + length es < 2 ^ 32
    → direntry_loop fuel m block size (at + i) off at ≡ ok (entry_at i es)
unfolding direntry_loop
direntry_loop-entry_at zero m block size off at i es d h small = absurd (omega arith)
direntry_loop-entry_at (suc fuel) m block size off at i [] d h small = ground arith
direntry_loop-entry_at (suc fuel) m block size off at zero (e ∷ es) d h small = ground arith
direntry_loop-entry_at (suc fuel) m block size off at (suc i) (e ∷ es) d h small =
    let next : at + suc i ≡ at + 1 + i = omega arith in
    let inside : ltb off size ≡ true = ground (arith, d.1) in
    let other : (at == at + 1 + i) ≡ false = ground arith in
    let step : u32 (off + d_rec_len m (block + off)) ≡ off + d_rec_len m e =
      ap (λ a. u32 (off + d_rec_len m a)) (sym d.0) ∙ omega (arith, d.2) in
    let count : u32 (at + 1) ≡ at + 1 = omega arith in
    rw (next, inside, other, step, count)
      (direntry_loop-entry_at fuel m block size (off + d_rec_len m e) (at + 1) i es d.3
        (omega arith) (omega arith))

-- In a directory whose entries fill its first block's part up to the size, `ext2_get_direntry` comes
-- to an end and returns the entry at the index, or NULL past the last one.
pub ext2_get_direntry-entry_at :
    (fuel : ℕ) (m : Memory) (d : Initrd) (inode index : ℕ) (es : List ℕ)
    → IsEntries m (ext2_get_block m d (i_block m inode 0)) (i_size m inode) 0 es
    → length es < fuel
    → length es < 2 ^ 32
    → ext2_get_direntry fuel m d inode index ≡ ok (entry_at index es)
unfolding ext2_get_direntry
ext2_get_direntry-entry_at fuel m d inode index es entries h small =
    let from : 0 + index ≡ index = omega arith in
    rw from at (direntry_loop-entry_at fuel m _ _ 0 0 index es entries h (omega arith))

direntry_loop-stuck :
    (fuel : ℕ) (m : Memory) (block size index at left : ℕ)
    → at + left ≡ index
    → left < fuel
    → index < 2 ^ 32
    → d_rec_len m block ≡ 0
    → 0 < size
    → direntry_loop fuel m block size index 0 at ≡ ok block
unfolding direntry_loop
direntry_loop-stuck zero m block size index at left e h small still some_size = absurd (omega arith)
direntry_loop-stuck (suc fuel) m block size index at zero e h small still some_size = ground arith
direntry_loop-stuck (suc fuel) m block size index at (suc left) e h small still some_size =
    ground (arith, direntry_loop-stuck fuel m block size index (at + 1) left)

-- Where the first entry has the length 0, the walk never leaves it: it is returned for every index.
pub ext2_get_direntry-stuck :
    (fuel : ℕ) (m : Memory) (d : Initrd) (inode index : ℕ)
    → d_rec_len m (ext2_get_block m d (i_block m inode 0)) ≡ 0
    → 0 < i_size m inode
    → index < fuel
    → index < 2 ^ 32
    → ext2_get_direntry fuel m d inode index ≡ ok (ext2_get_block m d (i_block m inode 0))
unfolding ext2_get_direntry
ext2_get_direntry-stuck fuel m d inode index still some_size h small =
    direntry_loop-stuck fuel m _ _ index 0 index (omega arith) h small still some_size
