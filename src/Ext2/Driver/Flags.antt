-- ===== src/Ext2/Driver/Flags.antt =====
-- The flag for a directory in a node, and the mode of its inode.
use mya_xos.Base.{ℕ, ◌*◌, ◌≡◌, refl, ap, ◌∙◌, inl, inr, false, bit_and, arith, ◌==◌, Bool-cases}
use mya_xos.Base.Bits.{bit, bit-bit_or, bit_and-pow}
use mya_xos.Ext2.Nodes.{ext2_s_ifdir, set_if, mode_flags}

-- A flag that is not the second digit.
set_if-bit :
    (mode kind flag flags : ℕ) → bit flag 1 ≡ 0 → bit (set_if mode kind flag flags) 1 ≡ bit flags 1
unfolding set_if
set_if-bit mode kind flag flags other = elim (Bool-cases (bit_and mode kind == kind)) [
  | inl set ↦ rw set (ground (arith, bit-bit_or 1 flags flag, other))
  | inr clear ↦ rw clear refl
]

set_if-unset :
    (mode kind flag flags : ℕ)
    → (bit_and mode kind == kind) ≡ false
    → bit (set_if mode kind flag flags) 1 ≡ bit flags 1
unfolding set_if
set_if-unset mode kind flag flags clear = rw clear refl

-- A node that is flagged as a directory has a mode that is.
pub mode_flags-directory :
    (mode : ℕ)
    → (bit_and (mode_flags mode) 0x02 == 0) ≡ false
    → (bit_and mode ext2_s_ifdir == 0) ≡ false
unfolding mode_flags
mode_flags-directory mode flagged = elim (Bool-cases (bit_and mode ext2_s_ifdir == 0)) [
  | inr directory ↦ directory
  | inl other ↦
      let f1 = set_if mode 0x8000 0x01 0 in
      let f2 = set_if mode ext2_s_ifdir 0x02 f1 in
      let f3 = set_if mode 0x6000 0x08 f2 in
      let f4 = set_if mode 0x2000 0x04 f3 in
      let f5 = set_if mode 0x1000 0x10 f4 in
      let clear : bit (mode_flags mode) 1 ≡ 0 =
        set_if-bit mode 0xA000 0x20 f5 refl
        ∙ set_if-bit mode 0x1000 0x10 f4 refl
        ∙ set_if-bit mode 0x2000 0x04 f3 refl
        ∙ set_if-bit mode 0x6000 0x08 f2 refl
        ∙ set_if-unset mode ext2_s_ifdir 0x02 f1 (ground (arith, other))
        ∙ set_if-bit mode 0x8000 0x01 0 refl in
      let none_set : bit_and (mode_flags mode) 0x02 ≡ 0 =
        bit_and-pow 1 (mode_flags mode) ∙ ap (λ b. b * 2) clear in
      absurd (ground (arith, flagged, none_set))
]
