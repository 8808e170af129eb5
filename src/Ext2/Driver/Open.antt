-- ===== src/Ext2/Driver/Open.antt =====
-- `kopen` on the driver of an ext2 image.
use mya_xos.Base.{
  ℕ, suc, ◌+◌, ◌<◌, ◌≤◌, ◌≡◌, ◌≢◌, refl, ap, ◌∙◌, ◌⊎◌, inl, inr, some, none, Option, List, [], ◌∷◌,
  true, false, Bool, bit_and, arith, ◌==◌, length, All, Bool-cases, Option-cases,
}
use mathlib.Core.Path.{subst}
use mya_xos.Memory.{Memory, null, CString}
use mya_xos.Panic.{ok}
use mya_xos.Allocator.{Allocator, Machine, allocate}
use mya_xos.Str.Compare.{IsText, compare_text, Compared-cases}
use mya_xos.Ext2.{Initrd, i_mode, i_size, d_inode, d_name_len, ext2_get_inode, ext2_get_inode_block}
use mya_xos.Ext2.Nodes.{Node, blank_node, ext2_s_ifdir, initrd_node_from_file}
use mya_xos.Ext2.Lookup.{finddir_loop, finddir_initrd}
use mya_xos.Ext2.Lookup.Finddir.{name_of, IsStable, finddir_loop-FirstNamed}
use mya_xos.Ext2.Driver.{initrd_driver, open_initrd}
use mya_xos.Ext2.Driver.Flags.{mode_flags-directory}
use mya_xos.Ext2.Driver.Frame.{
  load16-same, load32-same, ext2_get_inode-same, first_block-same, IsEntries-same,
}
use mya_xos.Vfs.{done, finddir_fs, open_fs}
use mya_xos.Vfs.Resolve.{Spares, IsLookingWhile}
use mya_xos.Ext2.Driver.Tree.{
  IsImage, IsMade, AreLinked, lookup, node_of, node_or, first_named, AreRead-AreSame, AreRead-same,
  FirstNamed-first_named,
}
use mya_xos.Ext2.Driver.Made.{Keeps, make_node-node_of}
use mya_xos.Vfs.{kopen}
use mya_xos.Vfs.Resolve.{first_name, other_names, resolve}
use mya_xos.Vfs.Open.{IsPath, kopen-walks, prepared-Spares}
use mya_xos.Ext2.Nodes.{initrd_node_root}

abbrev some_or {ℓ} : {A : Type ℓ} → A → Option A → A
some_or x none = x
some_or x (some y) = y

some-injective {ℓ} : {A : Type ℓ} {x y : A} → some x ≡ some y → x ≡ y
some-injective {x = x} e = ap (some_or x) e

Spares-refl : (a : Allocator) (s : Machine a) → Spares a s s
Spares-refl a s = record { same_mem = λ x h. refl; same_safe = λ x h. h }

Spares-trans :
    (a : Allocator) (s s' s'' : Machine a) → Spares a s s' → Spares a s' s'' → Spares a s s''
Spares-trans a s s' s'' h h' = record {
  same_mem = λ x own. h'.same_mem x (h.same_safe x own) ∙ h.same_mem x own;
  same_safe = λ x own. h'.same_safe x (h.same_safe x own);
}

module _ (a : Allocator) (fuel : ℕ) (d : Initrd) (m : Memory) (img valid : ℕ → Bool)
    (entries : ℕ → List ℕ) (image : IsImage a fuel d m img valid entries) where
  abbrev Kept : Machine a → Type 0
  Kept = Keeps a fuel d m img valid entries image

  Kept-Spares : (s s' : Machine a) → Spares a s s' → Kept s → Kept s'
  Kept-Spares s s' spares k = record {
    same = λ x h. spares.same_mem x (k.alive x h) ∙ k.same x h;
    alive = λ x h. spares.same_safe x (k.alive x h);
  }

  -- What the loop finds in a directory.
  finddir_loop-first_named :
      (i name : ℕ) (text : List ℕ) (s : Machine a)
      → valid i ≡ true
      → (bit_and (i_mode m (ext2_get_inode m d i)) ext2_s_ifdir == 0) ≡ false
      → Kept s
      → IsText text
      → CString s.mem name text
      → ((x : ℕ) → name ≤ x → x ≤ name + length text → a.safe s.heap x ≡ true)
      → let inode = ext2_get_inode m d i in
        (p : ℕ) × (s' : Machine a) × (finddir_loop a fuel inode
            (ext2_get_inode_block m d inode 0)
            name
            0
            s
          ≡ ok (p, s'))
        × Spares a s s'
        × (((p ≡ null) × (first_named m text (entries i) ≡ none))
            ⊎ ((valid (d_inode m p) ≡ true)
                × (p ≢ null)
                × ((x : ℕ) → p ≤ x → x < p + 8 + d_name_len m p → img x ≡ true)
                × (first_named m text (entries i) ≡ some p)))
  finddir_loop-first_named i name text s good directory k is_text held own =
      let inode = ext2_get_inode m d i in
      let (chain, read, linked, enough) = image.directory i good directory in
      let field : (x : ℕ) → inode ≤ x → x < inode + 44 → a.safe s.heap x ≡ true =
        λ x lo hi. k.alive x (image.inode i x good lo hi) in
      let size : i_size s.mem inode ≡ i_size m inode =
        load32-same m s.mem (inode + 4)
          (λ x lo hi. k.same x (image.inode i x good (omega arith) (omega arith))) in
      let chain' =
        IsEntries-same m s.mem (ext2_get_inode_block m d inode 0) (i_size m inode) 0 (entries i)
          (AreRead-AreSame m s.mem img a k.same (entries i) read) chain in
      let (p, s', run, first, stable) =
        finddir_loop-FirstNamed a s.mem (a.safe s.heap) inode (ext2_get_inode_block m d inode 0)
          name text (λ x lo hi. field x (omega arith) (omega arith)) own held is_text fuel 0
          (entries i) s (record { same = λ x h. refl; alive = λ x h. h }) (rw size chain')
          (AreRead-same m s.mem img a k.same (a.safe s.heap) (entries i) k.alive read) enough in
      (
        p,
        s',
        run,
        record { same_mem = stable.same; same_safe = stable.alive },
        elim (FirstNamed-first_named m s.mem img a k.same
            (λ e. (valid (d_inode m e) ≡ true) × (e ≢ null)) text (entries i) p is_text read linked
            first) [
              | inl missing ↦ inl missing
              | inr (l, reads, found) ↦ inr (l.0, l.1, reads, found)
            ],
      )

  -- `finddir_initrd` in a directory.
  finddir_initrd-lookup :
      (i name : ℕ) (text : List ℕ) (s : Machine a)
      → valid i ≡ true
      → (bit_and (i_mode m (ext2_get_inode m d i)) ext2_s_ifdir == 0) ≡ false
      → Kept s
      → IsText text
      → CString s.mem name text
      → ((x : ℕ) → name ≤ x → x ≤ name + length text → a.safe s.heap x ≡ true)
      → (s' : Machine a) × (finddir_initrd a fuel d i name s
          ≡ ok (node_or (node_of d m) (first_named m text (entries i)), s'))
        × Spares a s s'
  unfolding finddir_initrd
  finddir_initrd-lookup i name text s good directory k is_text held own =
      let inode = ext2_get_inode m d i in
      let (p, s', run, spares, found) =
        finddir_loop-first_named i name text s good directory k is_text held own in
      let at : ext2_get_inode s.mem d i ≡ inode =
        ext2_get_inode-same d m s.mem i (λ x lo hi. k.same x (image.node_size x lo hi)) in
      let mode : i_mode s.mem inode ≡ i_mode m inode =
        load16-same m s.mem inode (λ x lo hi. k.same x (image.inode i x good lo (omega arith))) in
      let block : ext2_get_inode_block s.mem d inode 0 ≡ ext2_get_inode_block m d inode 0 =
        first_block-same d m s.mem inode (λ x lo hi. k.same x (image.log_size x lo hi))
          (λ x lo hi. k.same x (image.inode i x good lo hi)) in
      elim found [
        | inl (at_null, missing) ↦
            let is_null : (p == null) ≡ true = ground arith in
            (s', rw (at, mode, directory, block, run, is_null, missing) refl, spares)
        | inr (good', ne, reads, named) ↦
            let some_entry : (p == null) ≡ false = ground arith in
            let (s2, made, spares2) =
              make_node-node_of a fuel d m img valid entries image p s' (Kept-Spares s s' spares k)
                good' reads in
            (
              s2,
              rw (at, mode, directory, block, run, some_entry, named, made) refl,
              Spares-trans a s s' s2 spares spares2,
            )
      ]

  finddir_fs-lookup :
      (n : Node) (name : ℕ) (text : List ℕ) (s : Machine a)
      → IsMade a fuel d m img valid entries n
      → Kept s
      → IsText text
      → CString s.mem name text
      → ((x : ℕ) → name ≤ x → x ≤ name + length text → a.safe s.heap x ≡ true)
      → (s' : Machine a) × (finddir_fs (initrd_driver a fuel d) n name s
          ≡ done (lookup a fuel d m img valid entries n text, s'))
        × Spares a s s'
  unfolding finddir_fs lookup
  finddir_fs-lookup n name text s made k is_text held own =
      elim (Bool-cases (bit_and n.flags 0x02 == 0)) [
        | inl other ↦ (s, rw other refl, Spares-refl a s)
        | inr directory ↦
            let mode =
              mode_flags-directory (i_mode m (ext2_get_inode m d n.inode))
                (rw made.1 at directory) in
            let (s', run, spares) =
              finddir_initrd-lookup n.inode name text s made.0 mode k is_text held own in
            (s', rw (directory, run) refl, spares)
      ]

  first_named-valid :
      (text es : List ℕ) (e : ℕ)
      → AreLinked a fuel d m img valid entries es
      → first_named m text es ≡ some e
      → valid (d_inode m e) ≡ true
  unfolding first_named
  first_named-valid text [] e linked found = absurd (ground (arith, found))
  first_named-valid text (e' ∷ es) e linked found =
      elim (Compared-cases (compare_text (name_of m e') text)) [
        | inl eq ↦
            subst (λ k. valid (d_inode m k) ≡ true) (some-injective (rw (first_named, eq) at found))
              linked.0.0
        | inr ne ↦ first_named-valid text es e linked.1 (elim ne [
          | inl less_eq ↦ rw (first_named, less_eq) at found
          | inr greater_eq ↦ rw (first_named, greater_eq) at found
        ])
      ]

  lookup-IsMade :
      (n next : Node) (text : List ℕ)
      → IsMade a fuel d m img valid entries n
      → lookup a fuel d m img valid entries n text ≡ some next
      → IsMade a fuel d m img valid entries next
  unfolding lookup initrd_node_from_file
  lookup-IsMade n next text made found = elim (Bool-cases (bit_and n.flags 0x02 == 0)) [
    | inl other ↦ absurd (ground (arith, rw other at found))
    | inr directory ↦
        let mode =
          mode_flags-directory (i_mode m (ext2_get_inode m d n.inode)) (rw made.1 at directory) in
        let linked = (image.directory n.inode made.0 mode).2 in
        let found' = rw directory at found in
        elim (Option-cases (first_named m text (entries n.inode))) [
          | inl missing ↦ absurd (ground (arith, rw missing at found'))
          | inr (e, named) ↦
              let same : node_of d m e ≡ next = some-injective (rw named at found') in
              let good = first_named-valid text (entries n.inode) e linked named in
              subst (IsMade a fuel d m img valid entries) same (good, refl)
        ]
  ]

  driver-IsLookingWhile :
      IsLookingWhile
        (initrd_driver a fuel d)
        (lookup a fuel d m img valid entries)
        Kept
        (IsMade a fuel d m img valid entries)
        IsText
  unfolding open_fs open_initrd
  driver-IsLookingWhile = record {
    finds = λ n name text s g k fit held own. finddir_fs-lookup n name text s g k fit held own;
    opens = λ n s. (s, refl);
    good = λ n next text g found. lookup-IsMade n next text g found;
    kept = λ s s' spares k. Kept-Spares s s' spares k;
  }

IsText-names : (bs : List ℕ) → IsText bs → IsText (first_name bs) × All IsText (other_names bs)
unfolding first_name other_names
IsText-names [] h = (tt, tt)
IsText-names (c ∷ cs) h =
    let (first, others) = IsText-names cs h.1 in
    elim (Bool-cases (c == b'/')) [
      | inl slash ↦ rw slash (tt, (first, others))
      | inr letter ↦ rw letter ((h.0, first), others)
    ]

-- On the driver of an ext2 image with a root inode, with the image in memory of the program, a path
-- of bytes, the copy of the path and the byte behind it not owned by anyone before and by the program
-- then, and fuel for the path and for each directory, `kopen` of an absolute path from the root node
-- comes to an end. It returns the node to which the names lead, each found as the first entry of that
-- name in the directory before, or NULL where one is missing.
pub kopen-resolve_image :
    (a : Allocator) (fuel fuel' : ℕ) (d : Initrd) (m : Memory) (img valid : ℕ → Bool)
    (entries : ℕ → List ℕ) (filename : ℕ) (bs : List ℕ) (s : Machine a)
    → IsImage a fuel' d m img valid entries
    → IsStable a m img s
    → valid 2 ≡ true
    → IsPath (initrd_driver a fuel' d) filename bs s
    → IsText bs
    → suc (length bs) < fuel
    → a.safe s.heap ((allocate a (suc (length bs)) s).0 + suc (length bs)) ≡ false
    → let driver = initrd_driver a fuel' d in
      let root = (initrd_node_root m (ext2_get_inode m d 2) 1 blank_node).1 in
      (s' : Machine a) × (kopen driver fuel (some root) filename s
        ≡ done (
          resolve driver
              (lookup a fuel' d m img valid entries)
              (first_name bs)
              (other_names bs)
              root,
          s',
        ))
unfolding initrd_node_root
kopen-resolve_image a fuel fuel' d m img valid entries filename bs s image k good path text lt
      behind =
    let driver = initrd_driver a fuel' d in
    let names = IsText-names bs text in
    kopen-walks driver (lookup a fuel' d m img valid entries)
      (Kept a fuel' d m img valid entries image) (IsMade a fuel' d m img valid entries) IsText
      (driver-IsLookingWhile a fuel' d m img valid entries image) fuel filename
      (initrd_node_root m (ext2_get_inode m d 2) 1 blank_node).1 bs s path lt (good, refl)
      (Kept-Spares a fuel' d m img valid entries image s _
        (prepared-Spares driver filename bs s path behind) k)
      names
