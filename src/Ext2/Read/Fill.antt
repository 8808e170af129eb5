-- ===== src/Ext2/Read/Fill.antt =====
-- The bytes of a file, and a buffer that is filled with them block by block while the image stays
-- as it is.
use mya_xos.Base.{
  ℕ, ◌+◌, ◌-◌, ◌*◌, ◌/◌, ◌%◌, ◌<◌, ◌≤◌, ◌≡◌, refl, ap, ◌∙◌, ◌⊎◌, inl, inr, false, arith,
  if◌then◌else◌, ltb, ltb→lt, ltb→le, Bool-cases, div-add_small, mod-add_small, u32, ◌<<<◌,
}
use mya_xos.Memory.{Memory, within, load32}
use mya_xos.Str.{memcpy}
use mya_xos.Str.Copy.{memcpy-within}
use mya_xos.Ext2.{Initrd, superblock, block_size, i_block, ext2_get_block, ext2_get_inode_block}

-- The byte of the file `inode` at `j`.
unfoldable pub file_byte : Memory → Initrd → (inode j : ℕ) → ℕ
file_byte m d inode j = m (ext2_get_inode_block m d inode (j / block_size m d) + j % block_size m d)

-- None of the `len` bytes from `p` on lies in the buffer.
abbrev pub IsAway : (buffer n p len : ℕ) → Type 0
IsAway buffer n p len = (x : ℕ) → p ≤ x → x < p + len → within buffer n x ≡ false

-- `m'` is `m` outside the buffer.
abbrev pub AgreesOutside : (buffer n : ℕ) → Memory → Memory → Type 0
AgreesOutside buffer n m m' = (x : ℕ) → within buffer n x ≡ false → m' x ≡ m x

-- The buffer of `n` bytes touches nothing that `read_initrd` reads for the blocks from `lo` to `hi`.
pub record IsApart (buffer n : ℕ) (m : Memory) (d : Initrd) (inode lo hi : ℕ) : Type 0 where
  pub super : IsAway buffer n (superblock d) 1024
  pub node : IsAway buffer n inode 128
  pub index : IsAway buffer n (ext2_get_block m d (i_block m inode 12)) (block_size m d)
  pub blocks :
      (b : ℕ)
      → lo ≤ b
      → b ≤ hi
      → IsAway buffer n (ext2_get_inode_block m d inode b) (block_size m d)

load32-agrees :
    (m m' : Memory) (buffer n p len a : ℕ)
    → AgreesOutside buffer n m m'
    → IsAway buffer n p len
    → p ≤ a
    → a + 4 ≤ p + len
    → load32 m' a ≡ load32 m a
unfolding load32
load32-agrees m m' buffer n p len a same away lo hi = ground (
  arith,
  same a,
  same (a + 1),
  same (a + 2),
  same (a + 2 + 1),
  away a,
  away (a + 1),
  away (a + 2),
  away (a + 2 + 1),
)

module _ (buffer n : ℕ) (m : Memory) (d : Initrd) (inode lo hi : ℕ)
    (apart : IsApart buffer n m d inode lo hi) where
  module _ (m' : Memory) (same : AgreesOutside buffer n m m') where
    pub block_size-agrees : block_size m' d ≡ block_size m d
    unfolding block_size
    block_size-agrees =
        ap (λ k. u32 (1024 <<< k))
          (load32-agrees m m' buffer n (superblock d) 1024 (superblock d + 24) same apart.super
            (omega arith) (omega arith))

    get_block-agrees : (b : ℕ) → ext2_get_block m' d b ≡ ext2_get_block m d b
    unfolding ext2_get_block
    get_block-agrees b = rw block_size-agrees

    i_block-agrees : (k : ℕ) → k < 15 → i_block m' inode k ≡ i_block m inode k
    i_block-agrees k h =
        load32-agrees m m' buffer n inode 128 (inode + 40 + 4 * k) same apart.node (omega arith)
          (omega arith)

    pub get_inode_block-agrees :
        (b : ℕ) → ext2_get_inode_block m' d inode b ≡ ext2_get_inode_block m d inode b
    unfolding ext2_get_inode_block
    get_inode_block-agrees b = elim (Bool-cases (ltb b 12)) [
      | inl direct ↦ rw direct (
          get_block-agrees _
          ∙ ap (ext2_get_block m d) (i_block-agrees b (omega (arith, ltb→lt b 12 direct))))
      | inr far ↦
          rw (far, block_size-agrees)
            (elim (Bool-cases (ltb b (12 + block_size m d / 4))) [
              | inr none_left ↦ rw none_left refl
              | inl indirect ↦
                  let index = ext2_get_block m d (i_block m inode 12) in
                  let place : ext2_get_block m' d (i_block m' inode 12) ≡ index =
                    get_block-agrees _
                    ∙ ap (ext2_get_block m d) (i_block-agrees 12 (omega arith)) in
                  let entry : load32 m' (index + (b - 12) * 4) ≡ load32 m (index + (b - 12) * 4) =
                    load32-agrees m m' buffer n index (block_size m d) (index + (b - 12) * 4) same
                      apart.index (omega arith)
                      (omega (arith, ltb→lt _ _ indirect, ltb→le b 12 far)) in
                  rw (indirect, place, entry) (get_block-agrees _)
            ])
    ]

  -- The first `k` bytes of the buffer hold those of the file from `offset` on.
  pub record IsFilled (offset k : ℕ) (m' : Memory) : Type 0 where
    pub bytes :
        (x : ℕ)
        → m' x ≡ (if within buffer k x then file_byte m d inode (offset + (x - buffer)) else m x)

  pub IsFilled-AgreesOutside :
      (offset k : ℕ) (m' : Memory) → k ≤ n → IsFilled offset k m' → AgreesOutside buffer n m m'
  IsFilled-AgreesOutside offset k m' le f x out = ground (arith, f.bytes x)

  module _ (offset k c : ℕ) (m' : Memory) (pos : 0 < block_size m d) (fits : k + c ≤ n)
      (inside : (offset + k) % block_size m d + c ≤ block_size m d)
      (low : lo ≤ (offset + k) / block_size m d) (high : (offset + k) / block_size m d ≤ hi)
      (f : IsFilled offset k m') where
    abbrev source : ℕ
    source =
        ext2_get_inode_block m d inode ((offset + k) / block_size m d)
        + (offset + k) % block_size m d

    source-IsAway : IsAway buffer n source c
    source-IsAway x a b =
        apart.blocks ((offset + k) / block_size m d) low high x (omega arith) (omega arith)

    source_before_or_after : (buffer + k ≤ source) ⊎ (source + c ≤ buffer + k)
    source_before_or_after = ground (arith, source-IsAway (buffer + k))

    copied : (j : ℕ) → j < c → m' (source + j) ≡ file_byte m d inode (offset + k + j)
    unfolding file_byte
    copied j h =
        let out = source-IsAway (source + j) (omega arith) (omega arith) in
        let same = IsFilled-AgreesOutside offset k m' (omega arith) f (source + j) out in
        same
        ∙ rw
            (
              div-add_small (block_size m d) pos (offset + k) j (omega arith),
              mod-add_small (block_size m d) pos (offset + k) j (omega arith),
            )
            (ap m (omega arith))

    -- Copying from the block where the file goes on fills more of the buffer.
    pub IsFilled-memcpy : IsFilled offset (k + c) (memcpy m' (buffer + k) source c)
    IsFilled-memcpy = record {
      bytes = λ x.
          let j = x - (buffer + k) in
          ground (
            arith,
            memcpy-within m' (buffer + k) source c x source_before_or_after,
            f.bytes x,
            copied j,
          );
    }

  -- The same, with the block, the place in it and the destination as the code computes them.
  pub IsFilled-round :
      (offset k c b p dest total : ℕ) (m' : Memory)
      → 0 < block_size m d
      → (offset + k) / block_size m d ≡ b
      → (offset + k) % block_size m d ≡ p
      → dest ≡ buffer + k
      → total ≡ k + c
      → total ≤ n
      → p + c ≤ block_size m d
      → lo ≤ b
      → b ≤ hi
      → IsFilled offset k m'
      → IsFilled offset total (memcpy m' dest (ext2_get_inode_block m' d inode b + p) c)
  IsFilled-round offset k c b p dest total m' pos eb ep ed et fits inside low high f =
      let agree =
        get_inode_block-agrees m' (IsFilled-AgreesOutside offset k m' (omega arith) f) b in
      rw (agree, ed, et, ← eb, ← ep)
        (IsFilled-memcpy offset k c m' pos (omega arith) (omega arith) (omega arith) (omega arith)
          f)
