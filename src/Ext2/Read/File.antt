-- ===== src/Ext2/Read/File.antt =====
-- The loop of `read_initrd` over the blocks, and the whole of it.
use mya_xos.Base.{
  ℕ, zero, suc, ◌+◌, ◌-◌, ◌*◌, ◌/◌, ◌%◌, ◌^◌, ◌<◌, ◌≤◌, ◌≡◌, refl, ap, ◌∙◌, true, false, arith,
  ◌==◌, if◌then◌else◌, Bool-cases, ==→eq, ==→ne, block-div, block-mod, mul_le, sub32, inl, inr,
}
use Prim.Native.Nat.{min}
use native.Mathlib.Nat.{div-add-mod', add-zero, mod-lt, le-div_iff_mul-le}
use mya_xos.Memory.{Memory, within, load32}
use mya_xos.Str.{memcpy}
use mya_xos.Ext2.{
  Initrd, block_size, i_size, ext2_get_inode, ext2_get_inode_block, read_blocks, read_end,
  read_initrd,
}
use mya_xos.Ext2.Read.Layout.{
  block_bytes, inode_at, byte_of, ext2_get_inode-inode_at, file_byte-byte_of,
}
use mya_xos.Ext2.Read.Fill.{file_byte, IsApart, IsFilled, IsFilled-round}

module _ (buffer n : ℕ) (m : Memory) (d : Initrd) (inode lo hi : ℕ)
    (apart : IsApart buffer n m d inode lo hi) (pos : 0 < block_size m d) (offset : ℕ)
    (first : lo ≤ offset / block_size m d) where
  abbrev bs : ℕ
  bs = block_size m d

  -- The bytes that are there after `r` blocks.
  abbrev filled : ℕ → ℕ
  filled r = bs * r - offset % bs

  one_block :
      (r b : ℕ) (m' : Memory)
      → b ≡ offset / bs + r
      → filled (suc r) ≤ n
      → b ≤ hi
      → IsFilled buffer n m d inode lo hi apart offset (filled r) m'
      → IsFilled buffer n m d inode lo hi apart offset (filled (suc r)) (
          if b == offset / bs
          then memcpy m' buffer (ext2_get_inode_block m' d inode b + offset % bs) (bs - offset % bs)
          else memcpy m' (buffer + bs * r - offset % bs) (ext2_get_inode_block m' d inode b) bs)
  one_block zero b m' eb fits high f =
      let here : (b == offset / bs) ≡ true = ground arith in
      let start : offset + filled 0 ≡ offset = omega arith in
      rw here (
        IsFilled-round buffer n m d inode lo hi apart offset (filled 0) (bs - offset % bs) b
          (offset % bs) buffer (filled 1) m' pos (ap (λ t. t / bs) start ∙ omega arith)
          (ap (λ t. t % bs) start) (omega arith) (omega arith) fits (omega arith) (omega arith) high
          f)
  one_block (suc r) b m' eb fits high f =
      let past : (b == offset / bs) ≡ false = ground arith in
      let place : offset + filled (suc r) ≡ b * bs + 0 =
        rw eb (omega (arith, div-add-mod' offset bs)) in
      rw (past, ← add-zero (ext2_get_inode_block m' d inode b))
        (IsFilled-round buffer n m d inode lo hi apart offset (filled (suc r)) bs b 0
          (buffer + bs * suc r - offset % bs) (filled (suc (suc r))) m' pos
          (ap (λ t. t / bs) place ∙ block-div bs pos b 0 pos)
          (ap (λ t. t % bs) place ∙ block-mod bs pos b 0 pos) (omega arith) (omega arith) fits
          (omega arith) (omega arith) high f)

  -- The loop fills the buffer up to the last block.
  read_blocks-IsFilled :
      (left r b : ℕ) (m' : Memory)
      → b ≡ offset / bs + r
      → filled (r + left) ≤ n
      → b + left ≤ hi + 1
      → IsFilled buffer n m d inode lo hi apart offset (filled r) m'
      → IsFilled buffer n m d inode lo hi apart offset
          (filled (r + left))
          (read_blocks left d inode buffer offset bs b r m')
  unfolding read_blocks
  read_blocks-IsFilled zero r b m' eb fits high f = rw (add-zero r) f
  read_blocks-IsFilled (suc left) r b m' eb fits high f =
      let further : filled (suc r) ≤ n =
        omega (arith, mul_le bs (suc r) (r + suc left) (omega arith)) in
      let next = one_block r b m' eb further (omega arith) f in
      let e : r + suc left ≡ suc r + left = omega arith in
      let e' : r + 1 ≡ suc r = omega arith in
      rw (e, e')
        (read_blocks-IsFilled left (suc r) (b + 1) _ (omega arith) (rw e at fits) (omega arith)
          next)

  IsFilled-none : IsFilled buffer n m d inode lo hi apart offset 0 m
  IsFilled-none = record { bytes = λ x. ground arith }

  filled_zero : filled 0 ≡ 0
  filled_zero = omega arith

  -- The two ways to the last bytes.
  read_one-IsFilled :
      (end : ℕ)
      → offset ≤ end
      → n ≡ end - offset
      → offset / bs ≡ end / bs
      → end / bs ≤ hi
      → IsFilled buffer n m d inode lo hi apart offset n
          (memcpy m buffer (ext2_get_inode_block m d inode (offset / bs) + offset % bs) n)
  read_one-IsFilled end le en same high =
      let start : offset + 0 ≡ offset = omega arith in
      IsFilled-round buffer n m d inode lo hi apart offset 0 n (offset / bs) (offset % bs) buffer n
        m pos (ap (λ t. t / bs) start) (ap (λ t. t % bs) start) (omega arith) (omega arith)
        (omega arith)
        (omega (
          arith,
          div-add-mod' offset bs,
          div-add-mod' end bs,
          ap (λ (t : ℕ). t * bs) same,
          mod-lt end pos,
        ))
        first (omega arith) IsFilled-none

  read_more-IsFilled :
      (end : ℕ)
      → offset / bs < end / bs
      → n ≡ end - offset
      → end / bs ≤ hi
      → let rounds = end / bs - offset / bs in
        let m' = read_blocks rounds d inode buffer offset bs (offset / bs) 0 m in
        IsFilled buffer n m d inode lo hi apart offset n (
          memcpy m'
            (buffer + bs * rounds - offset % bs)
            (ext2_get_inode_block m' d inode (end / bs))
            (end % bs))
  read_more-IsFilled end more en high =
      let rounds = end / bs - offset / bs in
      let all : 0 + rounds ≡ rounds = omega arith in
      let split : end / bs ≡ offset / bs + rounds = omega arith in
      let total = ap (λ (t : ℕ). bs * t) split in
      let one = mul_le bs 1 rounds (omega arith) in
      let whole = div-add-mod' offset bs in
      let last = div-add-mod' end bs in
      let small = mod-lt offset pos in
      let place : offset + filled rounds ≡ end / bs * bs + 0 = omega arith in
      let looped =
        read_blocks-IsFilled rounds 0 (offset / bs) m (omega arith) (rw all (omega arith))
          (omega arith) (rw (filled_zero) IsFilled-none) in
      rw
        (← add-zero (
          ext2_get_inode_block (read_blocks rounds d inode buffer offset bs (offset / bs) 0 m) d
            inode (end / bs)))
        (IsFilled-round buffer n m d inode lo hi apart offset (filled rounds) (end % bs) (end / bs)
          0 (buffer + bs * rounds - offset % bs) n _ pos
          (ap (λ t. t / bs) place ∙ block-div bs pos (end / bs) 0 pos)
          (ap (λ t. t % bs) place ∙ block-mod bs pos (end / bs) 0 pos) (omega arith) (omega arith)
          (omega arith) (omega (arith, mod-lt end pos)) (omega arith) high (rw all at looped))

read_initrd-file_byte :
    (d : Initrd) (node_inode offset size buffer : ℕ) (m : Memory)
    → 0 < block_size m d
    → offset ≤ i_size m (ext2_get_inode m d node_inode)
    → offset + size < 2 ^ 32
    → let inode = ext2_get_inode m d node_inode in
      let n = min size (i_size m inode - offset) in
      (apart : IsApart buffer n m d inode (offset / block_size m d) ((offset + n) / block_size m d))
      → let (count, m') = read_initrd d node_inode offset size buffer m in
        (count ≡ n)
        × ((x : ℕ)
            → m' x
              ≡ (if within buffer n x then file_byte m d inode (offset + (x - buffer)) else m x))
unfolding read_initrd
read_initrd-file_byte d node_inode offset size buffer m pos begins fits apart =
    let inode = ext2_get_inode m d node_inode in
    let b = block_size m d in
    let n = min size (i_size m inode - offset) in
    let end : read_end (i_size m inode) offset size ≡ offset + n = ground arith in
    let count : sub32 (offset + n) offset ≡ n = omega arith in
    let up : offset / b ≤ (offset + n) / b =
      (le-div_iff_mul-le pos).1 (omega (arith, div-add-mod' offset b)) in
    rw (end, count)
      (elim (Bool-cases (offset / b == (offset + n) / b)) [
        | inl same ↦
            let f =
              read_one-IsFilled buffer n m d inode _ _ apart pos offset (omega arith) (offset + n)
                (omega arith) (omega arith) (==→eq _ _ same) (omega arith) in
            rw same (refl, f.bytes)
        | inr more ↦
            let f =
              read_more-IsFilled buffer n m d inode _ _ apart pos offset (omega arith) (offset + n)
                (omega (arith, ==→ne _ _ more)) (omega arith) (omega arith) in
            rw more (refl, f.bytes)
      ])

-- A request for an inode from 1 on that starts inside the file, whose end is below 2 ^ 32 and whose last
-- block is a direct or a singly indirect one, into a buffer that touches nothing of the image that is
-- read, with a block size that is not 0, returns the number of bytes up to the end of the request or of
-- the file, puts the bytes of the file, as the layout has them, into the buffer, and writes nothing else.
pub read_initrd-IsFilled :
    (d : Initrd) (node_inode offset size buffer : ℕ) (m : Memory)
    → 1 ≤ node_inode
    → node_inode < 2 ^ 32
    → 0 < block_bytes m d
    → let inode = inode_at m d node_inode in
      let n = min size (load32 m (inode + 4) - offset) in
      offset ≤ load32 m (inode + 4)
      → offset + size < 2 ^ 32
      → (offset + n) / block_bytes m d < 12 + block_bytes m d / 4
      → IsApart buffer n m d inode (offset / block_bytes m d) ((offset + n) / block_bytes m d)
      → let (count, m') = read_initrd d node_inode offset size buffer m in
        (count ≡ n)
        × ((x : ℕ)
            → m' x ≡ (if within buffer n x then byte_of m d inode (offset + (x - buffer)) else m x))
unfolding block_size
read_initrd-IsFilled d node_inode offset size buffer m real small pos begins fits near apart =
    let inode = inode_at m d node_inode in
    let n = min size (load32 m (inode + 4) - offset) in
    let bs = block_bytes m d in
    let same = ext2_get_inode-inode_at m d node_inode real small in
    let (count, bytes) =
      read_initrd-file_byte d node_inode offset size buffer m pos (rw same begins) fits
        (rw same apart) in
    (
      rw same at count,
      λ x. elim (Bool-cases (within buffer n x)) [
        | inr off ↦ ground (arith, off, rw same at bytes x)
        | inl inside ↦
            let j = offset + (x - buffer) in
            let up : j / bs ≤ (offset + n) / bs =
              (le-div_iff_mul-le pos).1 (ground (arith, inside, div-add-mod' j bs)) in
            ground (
              arith,
              inside,
              rw same at bytes x,
              file_byte-byte_of m d inode j (omega (arith, up, near)),
            )
      ],
    )

-- A request that starts behind the end of the file is not refused: the count is the distance to the
-- end of the file, counted down from 2 ^ 32.
read_initrd-past_end :
    (d : Initrd) (node_inode offset size buffer : ℕ) (m : Memory)
    → i_size m (ext2_get_inode m d node_inode) < offset
    → offset + size < 2 ^ 32
    → (read_initrd d node_inode offset size buffer m).0
      ≡ 2 ^ 32 - (offset - i_size m (ext2_get_inode m d node_inode))
unfolding read_initrd
read_initrd-past_end d node_inode offset size buffer m past fits =
    let end : read_end (i_size m (ext2_get_inode m d node_inode)) offset size
        ≡ i_size m (ext2_get_inode m d node_inode) =
      ground arith in
    rw end (ground arith)
