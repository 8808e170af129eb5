-- ===== src/Vfs/Open.antt =====
-- `kopen` from the copy of the path to the node.
use mya_xos.Base.{
  ℕ, suc, ◌+◌, ◌<◌, ◌≤◌, ◌≡◌, ◌⊎◌, inl, inr, some, Option, List, ◌∷◌, All, true, false, arith, ◌==◌,
  length, Bool-cases,
}
use mathlib.Core.Path.{subst}
use mya_xos.Memory.{Memory, store8, within, CString}
use mya_xos.Allocator.{Allocator, Machine, allocate, owned-apart}
use mya_xos.Str.{memcpy}
use mya_xos.Str.Copy.{memcpy-within}
use mya_xos.Str.Text.{Bytes, memcpy-Bytes, strlen-length}
use mya_xos.Vfs.{done, Driver, cut_slashes, kopen}
use mya_xos.Vfs.Resolve.{
  first_name, other_names, Cut, Cut-HoldsAll, room-names, cut_slashes-mem, cut_slashes-count,
  Bytes-Cut, IsLookingWhile, Spares, resolve, walk-resolve,
}

module _ {a : Allocator} (d : Driver a) where
  -- The copy of an absolute path, cut, with the NUL behind it.
  cut_slashes-Cut :
      (m : Memory) (path : ℕ) (bs : List ℕ)
      → Bytes m path (b'/' ∷ bs)
      → let r = cut_slashes d (suc (length bs)) path 0 m in
        (r.0 ≡ suc (length (other_names bs)))
        × Cut (store8 r.1 (path + suc (length bs)) 0) path (b'/' ∷ bs)
  unfolding other_names
  cut_slashes-Cut m path bs h =
      let n = suc (length bs) in
      let r = cut_slashes d n path 0 m in
      (
        ground (arith, cut_slashes-count d path 0 m (b'/' ∷ bs) h),
        Bytes-Cut m (store8 r.1 (path + n) 0) path (b'/' ∷ bs) h
            (λ x lo hi.
              let inside : within path n x ≡ true = ground arith in
              let away : (x == path + n) ≡ false = ground arith in
              ground (arith, away, inside, cut_slashes-mem d n path 0 m x))
            (ground arith),
      )

module _ {a : Allocator} (d : Driver a) where
  -- A machine whose file name is an absolute path, and room for its copy.
  pub record IsPath (filename : ℕ) (bs : List ℕ) (s : Machine a) : Type 0 where
    pub text : CString s.mem filename (b'/' ∷ bs)
    pub owned : (x : ℕ) → filename ≤ x → x ≤ filename + suc (length bs) → a.safe s.heap x ≡ true
    pub behind :
        let (path, s1) = allocate a (suc (length bs)) s in
        a.safe s1.heap (path + suc (length bs)) ≡ true

  copy-apart :
      (filename : ℕ) (bs : List ℕ) (s : Machine a)
      → IsPath filename bs s
      → let path = (allocate a (suc (length bs)) s).0 in
        (path ≤ filename) ⊎ (filename + suc (length bs) ≤ path)
  copy-apart filename bs s h =
      ground
        (arith, owned-apart a (suc (length bs)) filename (suc (length bs)) s (omega arith) h.owned)

  -- The machine with the copy of the path, cut.
  abbrev pub prepared : (filename n : ℕ) → Machine a → Machine a
  prepared filename n s =
      let (path, s1) = allocate a n s in
      let m2 = memcpy s1.mem path filename n in
      record { heap = s1.heap; mem = store8 (cut_slashes d n path 0 m2).1 (path + n) 0 }

module _ {a : Allocator} (d : Driver a) (lookup : d.Node → List ℕ → Option d.Node)
    (Inv : Machine a → Type 0) (Good : d.Node → Type 0) (Fit : List ℕ → Type 0)
    (looking : IsLookingWhile d lookup Inv Good Fit) where
  pub kopen-walks :
      (fuel filename : ℕ) (root : d.Node) (bs : List ℕ) (s : Machine a)
      → IsPath d filename bs s
      → suc (length bs) < fuel
      → Good root
      → Inv (prepared d filename (suc (length bs)) s)
      → All Fit (first_name bs ∷ other_names bs)
      → (s' : Machine a) × (kopen d fuel (some root) filename s
          ≡ done (resolve d lookup (first_name bs) (other_names bs) root, s'))
  unfolding kopen
  kopen-walks fuel filename root bs s h lt g i fit =
      let n = suc (length bs) in
      let (path, s1) = allocate a n s in
      let first : (s.mem filename == 0) ≡ false = ground (arith, h.text.0) in
      let len = strlen-length fuel s.mem filename (b'/' ∷ bs) h.text lt in
      let copied =
        memcpy-Bytes s.mem s1.mem filename path (b'/' ∷ bs) h.text
          (λ k lt'.
            a.malloc_keeps n s.heap s.mem (filename + k)
              (h.owned (filename + k) (omega arith) (omega arith)))
          (copy-apart d filename bs s h) in
      let m2 = memcpy s1.mem path filename n in
      let (depth, cut) = cut_slashes-Cut d m2 path bs copied in
      let m4 = store8 (cut_slashes d n path 0 m2).1 (path + n) 0 in
      let (head, rest) = Cut-HoldsAll m4 (path + 1) bs cut.2 in
      let rooms = room-names bs in
      let ready : Machine a = record { heap = s1.heap; mem = m4 } in
      let (s', walked) =
        walk-resolve d lookup Inv Good Fit looking fuel path (path + 1) (first_name bs)
          (other_names bs) root ready g i fit head rest
          (λ k lo hi. elim (Bool-cases (within path n k)) [
            | inl inside ↦ a.malloc_live n s.heap s.mem k inside
            | inr outside ↦
                let last : path + n ≡ k = ground (arith, outside) in
                subst (λ x. a.safe s1.heap x ≡ true) last h.behind
          ])
          (omega arith) in
      (s', rw (first, len, depth) walked)

module _ {a : Allocator} (d : Driver a) where
  -- What the program owned is not written to where nobody owned the byte behind the copy.
  pub prepared-Spares :
      (filename : ℕ) (bs : List ℕ) (s : Machine a)
      → IsPath d filename bs s
      → a.safe s.heap ((allocate a (suc (length bs)) s).0 + suc (length bs)) ≡ false
      → Spares a s (prepared d filename (suc (length bs)) s)
  prepared-Spares filename bs s h behind =
      let n = suc (length bs) in
      let (path, s1) = allocate a n s in
      record {
        same_mem = λ x own. elim (Bool-cases (within path n x)) [
          | inl inside ↦ absurd (ground (arith, own, a.malloc_fresh n s.heap s.mem x inside))
          | inr outside ↦
              let other : (x == path + n) ≡ false = elim (Bool-cases (x == path + n)) [
                | inl at ↦ absurd (ground (arith, at, own, behind))
                | inr away ↦ away
              ] in
              ground (
                arith,
                other,
                outside,
                cut_slashes-mem d n path 0 (memcpy s1.mem path filename n) x,
                memcpy-within s1.mem path filename n x (copy-apart d filename bs s h),
                a.malloc_keeps n s.heap s.mem x own,
              )
        ];
        same_safe = λ x own. a.malloc_safe n s.heap s.mem x own;
      }
