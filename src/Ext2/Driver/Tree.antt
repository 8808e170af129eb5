-- ===== src/Ext2/Driver/Tree.antt =====
-- `kopen` on an ext2 image: the driver's `finddir` looks a name up in the entries of a directory.
use mya_xos.Base.{
  ℕ, ◌+◌, ◌<◌, ◌≤◌, ◌≡◌, ◌≢◌, refl, sym, ◌∙◌, ◌⊎◌, inl, inr, some, none, Option, List, [], ◌∷◌,
  true, false, Bool, bit_and, arith, ◌==◌, if◌then◌else◌, length, All,
}
use mya_xos.Memory.{Memory, null}
use mya_xos.Allocator.{Allocator}
use mya_xos.Str.{equal}
use mya_xos.Str.Compare.{IsText, compare_text, compare_text-cases}
use mya_xos.Ext2.{
  Initrd, i_mode, i_size, d_inode, d_name_len, d_name, ext2_get_inode, ext2_get_inode_block,
}
use mya_xos.Ext2.Nodes.{Node, blank_node, ext2_s_ifdir, mode_flags, initrd_node_from_file}
use mya_xos.Ext2.Directory.{IsEntries}
use mya_xos.Ext2.Lookup.Finddir.{name_of, FirstNamed, nowhere, here, later, AreRead}
use mya_xos.Ext2.Driver.Frame.{bytes_at-same, AreSame}

-- What the name finds of the entries: the first of that name.
unfoldable pub first_named : Memory → List ℕ → List ℕ → Option ℕ
first_named m name [] = none
first_named m name (e ∷ es) =
    let rest = first_named m name es in
    elim (compare_text (name_of m e) name) [ equal ↦ some e | _ ↦ rest ]

-- The node of an entry.
abbrev pub node_of : Initrd → Memory → ℕ → Node
node_of d m e = (initrd_node_from_file m (ext2_get_inode m d (d_inode m e)) e 1 blank_node).1

abbrev pub node_or {ℓ κ} : {A : Type ℓ} {B : Type κ} → (A → B) → Option A → Option B
node_or f none = none
node_or f (some x) = some (f x)

module _ (a : Allocator) (fuel : ℕ) (d : Initrd) (m : Memory) (img valid : ℕ → Bool)
    (entries : ℕ → List ℕ) where
  -- What is needed of an entry of a directory.
  abbrev pub AreLinked : List ℕ → Type 0
  AreLinked es = All (λ e. (valid (d_inode m e) ≡ true) × (e ≢ null)) es

  -- The bytes `img` of memory `m` hold the super block, the valid inodes, and the entries of those that
  -- are directories, one behind the other up to the size, which lead to valid inodes.
  pub record IsImage : Type 0 where
    pub zero_page : img null ≡ true
    pub log_size : (x : ℕ) → d.start + 1048 ≤ x → x < d.start + 1052 → img x ≡ true
    pub node_size : (x : ℕ) → d.start + 1112 ≤ x → x < d.start + 1114 → img x ≡ true
    pub inode :
        (i x : ℕ)
        → valid i ≡ true
        → ext2_get_inode m d i ≤ x
        → x < ext2_get_inode m d i + 44
        → img x ≡ true
    pub directory :
        (i : ℕ)
        → valid i ≡ true
        → (bit_and (i_mode m (ext2_get_inode m d i)) ext2_s_ifdir == 0) ≡ false
        → let inode = ext2_get_inode m d i in
          IsEntries m (ext2_get_inode_block m d inode 0) (i_size m inode) 0 (entries i)
          × AreRead a m img (entries i)
          × AreLinked (entries i)
          × (length (entries i) + 256 ≤ fuel)

  -- A node that the driver made of a valid inode.
  abbrev pub IsMade : Node → Type 0
  IsMade n = (valid n.inode ≡ true) × (n.flags ≡ mode_flags (i_mode m (ext2_get_inode m d n.inode)))

  -- A name in a node, by the entries of the directory.
  unfoldable pub lookup : Node → List ℕ → Option Node
  lookup n text =
      if bit_and n.flags 0x02 == 0
      then none
      else node_or (node_of d m) (first_named m text (entries n.inode))

module _ (m m' : Memory) (img : ℕ → Bool) (a : Allocator)
    (same : (x : ℕ) → img x ≡ true → m' x ≡ m x) where
  pub AreRead-AreSame : (es : List ℕ) → AreRead a m img es → AreSame m m' es
  AreRead-AreSame [] h = tt
  AreRead-AreSame (e ∷ es) h = ((λ x lo hi. same x (h.0.0 x lo hi)), AreRead-AreSame es h.1)

  len-same :
      (e : ℕ)
      → ((x : ℕ) → e ≤ x → x < e + 8 + d_name_len m e → img x ≡ true)
      → d_name_len m' e ≡ d_name_len m e
  len-same e h = same (e + 6) (h (e + 6) (omega arith) (omega arith))

  pub name_of-same :
      (e : ℕ)
      → ((x : ℕ) → e ≤ x → x < e + 8 + d_name_len m e → img x ≡ true)
      → name_of m' e ≡ name_of m e
  name_of-same e h = rw (len-same e h) (
      bytes_at-same m m' (d_name e) (d_name_len m e)
        (λ x lo hi. same x (h x (omega arith) (omega arith))))

  pub AreRead-same :
      (safe : ℕ → Bool) (es : List ℕ)
      → ((x : ℕ) → img x ≡ true → safe x ≡ true)
      → AreRead a m img es
      → AreRead a m' safe es
  AreRead-same safe [] wide h = tt
  AreRead-same safe (e ∷ es) wide h =
      let len = len-same e h.0.0 in
      (
        (
          λ x lo hi. wide x (h.0.0 x lo (rw len at hi)),
          rw len h.0.1,
          rw (name_of-same e h.0.0) h.0.2,
        ),
        AreRead-same safe es wide h.1,
      )

  -- The entry that the loop finds.
  pub FirstNamed-first_named :
      (linked : ℕ → Type 0) (text es : List ℕ) (p : ℕ)
      → IsText text
      → AreRead a m img es
      → All linked es
      → FirstNamed m' text es p
      → ((p ≡ null) × (first_named m text es ≡ none))
        ⊎ (linked p
            × ((x : ℕ) → p ≤ x → x < p + 8 + d_name_len m p → img x ≡ true)
            × (first_named m text es ≡ some p))
  unfolding first_named
  FirstNamed-first_named linked text [] p t h l nowhere = inl (refl, refl)
  FirstNamed-first_named linked text (e ∷ es) p t h l (here named) =
      elim (compare_text-cases (name_of m e) text h.0.2 t) [
        | inl (agree, found) ↦ inr (l.0, h.0.0, rw (first_named, found) refl)
        | inr (differ, ne) ↦ absurd (differ (sym (name_of-same e h.0.0) ∙ named))
      ]
  FirstNamed-first_named linked text (e ∷ es) p t h l (later other rest) =
      let below = FirstNamed-first_named linked text es p t h.1 l.1 rest in
      elim (compare_text-cases (name_of m e) text h.0.2 t) [
        | inl (agree, found) ↦ absurd (other (name_of-same e h.0.0 ∙ agree))
        | inr (differ, ne) ↦ elim ne [
          | inl less_eq ↦ rw (first_named, less_eq) below
          | inr greater_eq ↦ rw (first_named, greater_eq) below
        ]
      ]
