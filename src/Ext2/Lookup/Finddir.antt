-- ===== src/Ext2/Lookup/Finddir.antt =====
-- `finddir_initrd` finds the first entry with a name, whatever the allocator does between.
use mya_xos.Base.{
  ℕ, zero, suc, ◌+◌, ◌<◌, ◌≤◌, ◌≡◌, ◌≢◌, refl, sym, ap, ◌∙◌, ◌⊎◌, inl, inr, some, List, [], ◌∷◌,
  true, false, Bool, ◌&&◌, arith, ltb, length, All, Bool-cases, ltb→le, u32,
}
use mya_xos.Memory.{Memory, null, load32, within, CString}
use mya_xos.Panic.{Outcome, ok}
use mya_xos.Allocator.{Machine, release, Allocator, Block}
use mya_xos.Str.{strcmp, Compared, equal, less, greater}
use mya_xos.Str.Text.{CString-frame}
use mya_xos.Str.Copy.{memcpy-within}
use mya_xos.Str.Compare.{IsText, compare_text, strcmp-compare_text, compare_text-cases}
use mya_xos.Ext2.{d_rec_len, d_name_len, d_name, i_size}
use mya_xos.Ext2.Nodes.{bytes_at}
use mya_xos.Ext2.Lookup.{copy_name, finddir_loop}
use mya_xos.Ext2.Directory.{IsEntries}

-- The name of the entry at `e`.
abbrev pub name_of : Memory → ℕ → List ℕ
name_of m e = bytes_at m (d_name e) (d_name_len m e)

-- `p` is the first of the entries that has the name, `null` where none has it.
pub data FirstNamed (m : Memory) (name : List ℕ) : List ℕ → ℕ → Type 0 where
  nowhere : FirstNamed m name [] null
  here : {e : ℕ} {es : List ℕ} → name_of m e ≡ name → FirstNamed m name (e ∷ es) e
  later :
      {e p : ℕ} {es : List ℕ}
      → name_of m e ≢ name
      → FirstNamed m name es p
      → FirstNamed m name (e ∷ es) p

-- What follows on a comparison.
abbrev goes_on {ℓ} : {A : Type ℓ} → A → Outcome A → Compared → Outcome A
goes_on found next equal = ok found
goes_on found next less = next
goes_on found next greater = next

length-bytes_at : (m : Memory) (p n : ℕ) → length (bytes_at m p n) ≡ n
length-bytes_at m p zero = refl
length-bytes_at m p (suc n) = ap suc (length-bytes_at m (p + 1) n)

-- Bytes that were copied, and a NUL behind them.
bytes_at-CString :
    (m m' : Memory) (p q n : ℕ)
    → ((k : ℕ) → k < n → m' (q + k) ≡ m (p + k))
    → m' (q + n) ≡ 0
    → IsText (bytes_at m p n)
    → CString m' q (bytes_at m p n)
bytes_at-CString m m' p q zero same end text = ground (arith, end)
bytes_at-CString m m' p q (suc n) same end text = (
  ground (arith, same 0),
  ground (arith, text.0),
  bytes_at-CString m m' (p + 1) (q + 1) n (λ k h. ground (arith, same (suc k) (omega arith)))
      (ground (arith, end)) text.1,
)

-- What the copy of a name writes.
module _ (m m' : Memory) (e dname n : ℕ) (len : m' (e + 6) ≡ n)
    (apart : (dname ≤ d_name e) ⊎ (d_name e + n ≤ dname)) where
  copy_name-CString :
      ((k : ℕ) → k < n → m' (d_name e + k) ≡ m (d_name e + k))
      → IsText (bytes_at m (d_name e) n)
      → CString (copy_name e dname m') dname (bytes_at m (d_name e) n)
  unfolding copy_name
  copy_name-CString same text = rw len (
      bytes_at-CString m _ (d_name e) dname n
        (λ k h. ground (arith, memcpy-within m' dname (d_name e) n (dname + k) apart, same k h))
        (ground arith) text)

  copy_name-keeps : (x : ℕ) → within dname (n + 1) x ≡ false → copy_name e dname m' x ≡ m' x
  unfolding copy_name
  copy_name-keeps x off = rw len (ground (arith, memcpy-within m' dname (d_name e) n x apart))

module _ (a : Allocator) (m : Memory) (needed : ℕ → Bool) where
  -- The bytes that are needed are as in `m`, and belong to the program.
  pub record IsStable (s : Machine a) : Type 0 where
    pub same : (x : ℕ) → needed x ≡ true → s.mem x ≡ m x
    pub alive : (x : ℕ) → needed x ≡ true → a.safe s.heap x ≡ true

  -- One round on the entry `e`, all of which is needed.
  module _ (s : Machine a) (stable : IsStable s) (e n : ℕ) (len : m (e + 6) ≡ n)
      (reads : (x : ℕ) → e ≤ x → x < e + 8 + n → needed x ≡ true) where
    abbrev block : Block a.Heap
    block = a.malloc (n + 1) s.heap s.mem

    off_block : (x : ℕ) → needed x ≡ true → within block.pointer (n + 1) x ≡ false
    off_block x h = elim (Bool-cases (within block.pointer (n + 1) x)) [
      | inr out ↦ out
      | inl in_block ↦
          ground (arith, a.malloc_fresh (n + 1) s.heap s.mem x in_block, stable.alive x h)
    ]

    block-same : (x : ℕ) → needed x ≡ true → block.mem x ≡ m x
    block-same x h = a.malloc_keeps (n + 1) s.heap s.mem x (stable.alive x h) ∙ stable.same x h

    block-len : block.mem (e + 6) ≡ n
    block-len = block-same (e + 6) (reads (e + 6) (omega arith) (omega arith)) ∙ len

    block-apart : (block.pointer ≤ d_name e) ⊎ (d_name e + n ≤ block.pointer)
    block-apart =
        elim (Bool-cases (ltb (d_name e) block.pointer && ltb block.pointer (d_name e + n))) [
          | inr out ↦ elim (Bool-cases (ltb (d_name e) block.pointer)) [
            | inl lt ↦ inr (ground arith)
            | inr ge ↦ inl (ltb→le (d_name e) block.pointer ge)
          ]
          | inl inside ↦
              ground
                (arith, off_block block.pointer (reads block.pointer (ground arith) (ground arith)))
        ]

    abbrev copied : Memory
    copied = copy_name e block.pointer block.mem

    copied-same : (x : ℕ) → needed x ≡ true → copied x ≡ m x
    copied-same x h =
        copy_name-keeps m block.mem e block.pointer n block-len block-apart x (off_block x h)
        ∙ block-same x h

    copied-CString : IsText (name_of m e) → CString copied block.pointer (name_of m e)
    copied-CString text = rw len (
        copy_name-CString m block.mem e block.pointer n block-len block-apart
          (λ k h. block-same (d_name e + k) (reads (d_name e + k) (omega arith) (omega arith)))
          (rw len at text))

    released-IsStable :
        IsStable (release a block.pointer (record { heap = block.heap; mem = copied }))
    released-IsStable = record {
      same = λ x h.
          a.free_keeps block.pointer block.heap copied x (alive x h) (outside x h)
          ∙ copied-same x h;
      alive = λ x h. a.free_safe block.pointer block.heap copied x (alive x h) (outside x h);
    }
      where
        alive : (x : ℕ) → needed x ≡ true → a.safe block.heap x ≡ true
        alive x h = a.malloc_safe (n + 1) s.heap s.mem x (stable.alive x h)

        outside :
            (x : ℕ)
            → needed x ≡ true
            → within block.pointer (a.size_of block.heap block.pointer) x ≡ false
        outside x h = rw (a.malloc_size (n + 1) s.heap s.mem) (off_block x h)

  -- The entries can be read, and their names are texts.
  abbrev pub AreRead : List ℕ → Type 0
  AreRead es =
      All
        (λ e.
          ((x : ℕ) → e ≤ x → x < e + 8 + d_name_len m e → needed x ≡ true)
          × (d_name_len m e < 256)
          × IsText (name_of m e))
        es

  module _ (inode dir_block name : ℕ) (bs : List ℕ)
      (size_read : (x : ℕ) → inode + 4 ≤ x → x < inode + 8 → needed x ≡ true)
      (name_read : (x : ℕ) → name ≤ x → x ≤ name + length bs → needed x ≡ true)
      (held : CString m name bs) (text : IsText bs) where
    strcmp-name :
        (s : Machine a) (stable : IsStable s) (e n fuel : ℕ) (len : d_name_len m e ≡ n)
        → (reads : (x : ℕ) → e ≤ x → x < e + 8 + n → needed x ≡ true) → n ≤ fuel
        → IsText (name_of m e)
        → strcmp
            (suc fuel)
            (copied s stable e n len reads)
            (block s stable e n len reads).pointer
            name
          ≡ some (compare_text (name_of m e) bs)
    strcmp-name s stable e n fuel len reads short named =
        strcmp-compare_text (suc fuel) _ _ name (name_of m e) bs
          (copied-CString s stable e n len reads named)
          (CString-frame m _ name bs
            (λ x lo hi. copied-same s stable e n len reads x (name_read x lo hi)) held)
          named text (omega (arith, len, length-bytes_at m (d_name e) (d_name_len m e)))

    i_size-stable : (s : Machine a) → IsStable s → i_size s.mem inode ≡ i_size m inode
    unfolding load32
    i_size-stable s stable =
        let at : (x : ℕ) → inode + 4 ≤ x → x < inode + 8 → s.mem x ≡ m x =
          λ x lo hi. stable.same x (size_read x lo hi) in
        ground (
          arith,
          at (inode + 4) (omega arith) (omega arith),
          at (inode + 4 + 1) (omega arith) (omega arith),
          at (inode + 4 + 2) (omega arith) (omega arith),
          at (inode + 4 + 2 + 1) (omega arith) (omega arith),
        )

    -- With fuel for each entry and for the longest name, the loop comes to an end at the first entry with
    -- the name.
    pub finddir_loop-FirstNamed :
        (fuel off : ℕ) (es : List ℕ) (s : Machine a)
        → IsStable s
        → IsEntries m dir_block (i_size m inode) off es
        → AreRead es
        → length es + 256 ≤ fuel
        → (p : ℕ) × (s' : Machine a) × (finddir_loop a fuel inode dir_block name off s ≡ ok (p, s'))
          × FirstNamed m bs es p
          × IsStable s'
    unfolding finddir_loop
    finddir_loop-FirstNamed zero off es s stable d read h = absurd (omega arith)
    finddir_loop-FirstNamed (suc fuel) off [] s stable d read h =
        let size : i_size s.mem inode ≡ i_size m inode = i_size-stable s stable in
        let done : ltb off (i_size m inode) ≡ false = ground (arith, d) in
        (null, s, rw (size, done) refl, nowhere, stable)
    finddir_loop-FirstNamed (suc fuel) off (e ∷ es) s stable d read h =
        let e' = dir_block + off in
        let here_read = rw d.0 at read.0 in
        let there = rw d.0 at d.3 in
        let n = d_name_len s.mem e' in
        let len : d_name_len m e' ≡ n =
          sym (stable.same (e' + 6) (here_read.0 (e' + 6) (omega arith) (omega arith))) in
        let reads : (x : ℕ) → e' ≤ x → x < e' + 8 + n → needed x ≡ true =
          λ x lo hi. here_read.0 x lo (omega (arith, len)) in
        let size = i_size-stable s stable in
        let inside : ltb off (i_size m inode) ≡ true = ground (arith, d.1) in
        let run =
          strcmp-name s stable e' n fuel len reads (omega (arith, here_read.1, len)) here_read.2 in
        let after = released-IsStable s stable e' n len reads in
        let s2 : Machine a = release a (block s stable e' n len reads).pointer (record {
          heap = (block s stable e' n len reads).heap;
          mem = copied s stable e' n len reads;
        }) in
        let further : off + d_rec_len m e' ≡ u32 (off + d_rec_len s2.mem e') = omega (
          arith,
          rw d.0 at d.2,
          after.same (e' + 4) (reads (e' + 4) (omega arith) (omega arith)),
          after.same (e' + 4 + 1) (reads (e' + 4 + 1) (omega arith) (omega arith)),
        ) in
        let next = finddir_loop a fuel inode dir_block name (u32 (off + d_rec_len s2.mem e')) s2 in
        let turn : finddir_loop a (suc fuel) inode dir_block name off s
            ≡ goes_on (e', s2) next (compare_text (name_of m e') bs) =
          rw (size, inside, run) refl in
        rw d.0 (elim (compare_text-cases (name_of m e') bs here_read.2 text) [
          | inl (same, eq) ↦ (e', s2, turn ∙ ap (goes_on (e', s2) next) eq, here same, after)
          | inr (other, ne) ↦
              let (p, s', rest, first, kept) =
                finddir_loop-FirstNamed fuel (u32 (off + d_rec_len s2.mem e')) es s2 after
                  (rw further at there) read.1 (omega arith) in
              (
                p,
                s',
                elim ne [
                  | inl less_eq ↦ turn ∙ ap (goes_on (e', s2) next) less_eq ∙ rest
                  | inr greater_eq ↦ turn ∙ ap (goes_on (e', s2) next) greater_eq ∙ rest
                ],
                later other first,
                kept,
              )
        ])
