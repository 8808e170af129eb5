-- ===== src/Shell/Join.antt =====
-- A name put together from the working directory and an argument, in a block of 1024 bytes.
use mya_xos.Base.{
  ℕ, ◌+◌, ◌<◌, ◌≤◌, ◌≡◌, ◌≢◌, refl, sym, ◌∙◌, ◌⊎◌, ◌↔◌, some, List, [], ◌∷◌, ◌++◌, false, arith,
  ◌==◌, if◌then◌else◌, length,
}
use mathlib.Core.Path.{subst}
use mya_xos.Memory.{Memory, store8, within, CString}
use mya_xos.Str.{memcpy, strlen, strcmp, equal, Compared, less, greater}
use mya_xos.Str.Copy.{memcpy-within}
use mya_xos.Str.Text.{
  Bytes, Bytes-frame, Bytes-append, CString-frame, memcpy-Bytes, memcpy-CString, strlen-length,
}
use mya_xos.Str.Compare.{IsText, compare_text, strcmp-compare_text, strcmp-equal_iff}
use mya_xos.Shell.{copy_text, append_name}

-- An argument that starts with a slash is a name by itself; any other stands behind the working
-- directory, with a slash between the two unless the directory is the root.
unfoldable pub below : List ℕ → List ℕ → List ℕ
below [] arg = b'/' ∷ arg
below (c ∷ []) arg = if c == b'/' then c ∷ arg else c ∷ b'/' ∷ arg
below (c ∷ d ∷ cs) arg = c ∷ d ∷ (cs ++ (b'/' ∷ arg))

unfoldable pub joined : List ℕ → List ℕ → List ℕ
joined path [] = below path []
joined path (c ∷ cs) = if c == b'/' then c ∷ cs else below path (c ∷ cs)

below-root : (arg : List ℕ) → below (b'/' ∷ []) arg ≡ (b'/' ∷ []) ++ arg
unfolding below
below-root arg = refl

below-other : (path arg : List ℕ) → path ≢ b'/' ∷ [] → below path arg ≡ path ++ (b'/' ∷ arg)
unfolding below
below-other [] arg h = refl
below-other (c ∷ []) arg h = ground (arith, h)
below-other (c ∷ d ∷ cs) arg h = refl

-- The copy of a text: it stands at `dest`, and nothing else is written.
pub copy_text-CString :
    (fuel : ℕ) (m : Memory) (dest arg : ℕ) (bs : List ℕ)
    → CString m arg bs
    → length bs < fuel
    → (dest ≤ arg) ⊎ (arg + (length bs + 1) ≤ dest)
    → (m' : Memory) × (copy_text fuel m dest arg ≡ some m')
      × CString m' dest bs
      × ((x : ℕ) → within dest (length bs + 1) x ≡ false → m' x ≡ m x)
unfolding copy_text
copy_text-CString fuel m dest arg bs h lt apart =
    let n = length bs + 1 in
    (
      memcpy m dest arg n,
      rw (copy_text, strlen-length fuel m arg bs h lt) refl,
      memcpy-CString m arg dest bs h apart,
      λ x off. rw off at (memcpy-within m dest arg n x apart),
    )

-- A prefix and a copy behind it.
append-CString :
    (fuel : ℕ) (m : Memory) (dest arg : ℕ) (front bs : List ℕ)
    → Bytes m dest front
    → CString m arg bs
    → length bs < fuel
    → (dest + length front ≤ arg) ⊎ (arg + (length bs + 1) ≤ dest + length front)
    → (m' : Memory) × (copy_text fuel m (dest + length front) arg ≡ some m')
      × CString m' dest (front ++ bs)
      × ((x : ℕ) → within dest (length front + length bs + 1) x ≡ false → m' x ≡ m x)
append-CString fuel m dest arg front bs b h lt apart =
    let (m', run, held, same) = copy_text-CString fuel m (dest + length front) arg bs h lt apart in
    (
      m',
      run,
      Bytes-append m' dest front bs
          (Bytes-frame m m' dest front (λ x lo hi. same x (ground arith)) b) held,
      λ x off. same x (ground (arith, off)),
    )

-- The text at `q` stands outside of the block at `block`.
abbrev pub IsOutside : (block q : ℕ) → List ℕ → Type 0
IsOutside block q bs = (q + length bs < block) ⊎ (block + 1024 ≤ q)

-- The working directory, the argument and the literal "/".
pub record AreNames (block path arg slash : ℕ) (ps cs : List ℕ) (m : Memory) : Type 0 where
  pub path_held : CString m path ps
  pub arg_held : CString m arg cs
  pub slash_held : CString m slash (b'/' ∷ [])
  pub path_outside : IsOutside block path ps
  pub arg_outside : IsOutside block arg cs
  pub slash_outside : IsOutside block slash (b'/' ∷ [])

AreNames-frame :
    (block path arg slash : ℕ) (ps cs : List ℕ) (m m' : Memory)
    → ((x : ℕ) → within block 1024 x ≡ false → m' x ≡ m x)
    → AreNames block path arg slash ps cs m
    → AreNames block path arg slash ps cs m'
AreNames-frame block path arg slash ps cs m m' same h = record {
  path_held =
      CString-frame m m' path ps (λ x lo hi. same x (ground (arith, h.path_outside))) h.path_held;
  arg_held =
      CString-frame m m' arg cs (λ x lo hi. same x (ground (arith, h.arg_outside))) h.arg_held;
  slash_held =
      CString-frame m m' slash (b'/' ∷ []) (λ x lo hi. same x (ground (arith, h.slash_outside)))
        h.slash_held;
  path_outside = h.path_outside;
  arg_outside = h.arg_outside;
  slash_outside = h.slash_outside;
}

module _ (fuel block path arg slash : ℕ) (ps cs : List ℕ) (text : IsText ps)
    (path_short : length ps < fuel) (arg_short : length cs < fuel)
    (room : length ps + length cs + 2 ≤ 1024) where
  -- The text is in the block, and nothing else is written.
  pub record IsNamed (m : Memory) (name : List ℕ) (m' : Memory) : Type 0 where
    pub named : CString m' block name
    pub elsewhere : (x : ℕ) → within block 1024 x ≡ false → m' x ≡ m x

  module _ (m : Memory) (h : AreNames block path arg slash ps cs m) where
    abbrev m2 : Memory
    m2 = memcpy m block path (length ps)

    m2-outside : (x : ℕ) → within block 1024 x ≡ false → m2 x ≡ m x
    m2-outside x off = ground (arith, memcpy-within m block path (length ps) x, h.path_outside)

    m2-AreNames : AreNames block path arg slash ps cs m2
    m2-AreNames = AreNames-frame block path arg slash ps cs m m2 m2-outside h

    m2-Bytes : Bytes m2 block ps
    m2-Bytes =
        memcpy-Bytes m m path block ps h.path_held (λ k lt. refl) (ground (arith, h.path_outside))

    abbrev slashed : Memory
    slashed = store8 m2 (block + length ps) b'/'

    append_name-root :
        ps ≡ b'/' ∷ []
        → strcmp fuel m2 path slash ≡ some equal
        → (m' : Memory) × (append_name fuel m block path arg slash ≡ some m')
          × IsNamed m (below ps cs) m'
    unfolding append_name
    append_name-root root e =
        let g = m2-AreNames in
        let (m', run, held, same) =
          append-CString fuel m2 block arg ps cs m2-Bytes g.arg_held arg_short
            (ground (arith, h.arg_outside)) in
        let name : below ps cs ≡ ps ++ cs = rw root (below-root cs) in
        (
          m',
          rw
              (
                append_name,
                strlen-length fuel m path ps h.path_held path_short,
                e,
                strlen-length fuel m2 path ps g.path_held path_short,
              )
              run,
          record {
            named = subst (λ n. CString m' block n) (sym name) held;
            elsewhere = λ x off. same x (ground (arith, off)) ∙ m2-outside x off;
          },
        )

    slashed-AreNames : AreNames block path arg slash ps cs slashed
    slashed-AreNames =
        AreNames-frame block path arg slash ps cs m2 slashed (λ x off. ground (arith, off))
          m2-AreNames

    read_path : strlen fuel m path ≡ some (length ps)
    read_path = strlen-length fuel m path ps h.path_held path_short

    read_path2 : strlen fuel m2 path ≡ some (length ps)
    read_path2 = strlen-length fuel m2 path ps m2-AreNames.path_held path_short

    read_path3 : strlen fuel slashed path ≡ some (length ps)
    read_path3 = strlen-length fuel slashed path ps slashed-AreNames.path_held path_short

    -- What is written where a slash is put between the two.
    slashed-IsNamed :
        ps ≢ b'/' ∷ []
        → (m' : Memory) × (copy_text fuel slashed (block + length ps + 1) arg ≡ some m')
          × IsNamed m (below ps cs) m'
    slashed-IsNamed other =
        let (m', run, held, same) =
          copy_text-CString fuel slashed (block + length ps + 1) arg cs slashed-AreNames.arg_held
            arg_short (ground (arith, h.arg_outside)) in
        let here : m' (block + length ps) ≡ b'/' =
          same (block + length ps) (ground arith) ∙ ground arith in
        let front : Bytes m' block ps =
          Bytes-frame m2 m' block ps (λ x lo hi. same x (ground arith) ∙ ground arith) m2-Bytes in
        (
          m',
          run,
          record {
            named =
                subst (λ n. CString m' block n) (sym (below-other ps cs other))
                  (Bytes-append m' block ps (b'/' ∷ cs) front (here, omega arith, held));
            elsewhere =
                λ x off. same x (ground (arith, off)) ∙ ground (arith, off) ∙ m2-outside x off;
          },
        )

    equal_iff : (strcmp fuel m2 path slash ≡ some equal) ↔ (ps ≡ b'/' ∷ [])
    equal_iff =
        strcmp-equal_iff fuel m2 path slash ps (b'/' ∷ []) m2-AreNames.path_held
          m2-AreNames.slash_held text ((omega arith, omega arith), tt) path_short

    append_name-by :
        (c : Compared)
        → strcmp fuel m2 path slash ≡ some c
        → (m' : Memory) × (append_name fuel m block path arg slash ≡ some m')
          × IsNamed m (below ps cs) m'
    unfolding append_name
    append_name-by equal e = append_name-root (equal_iff.0 e) e
    append_name-by less e =
        let (m', run, named) = slashed-IsNamed (λ root. ground (arith, sym e ∙ equal_iff.1 root)) in
        (m', rw (append_name, read_path, e, read_path2, read_path3) run, named)
    append_name-by greater e =
        let (m', run, named) = slashed-IsNamed (λ root. ground (arith, sym e ∙ equal_iff.1 root)) in
        (m', rw (append_name, read_path, e, read_path2, read_path3) run, named)

    pub append_name-joined :
        (m' : Memory) × (append_name fuel m block path arg slash ≡ some m')
        × IsNamed m (below ps cs) m'
    append_name-joined = append_name-by (compare_text ps (b'/' ∷ [])) (
        strcmp-compare_text fuel m2 path slash ps (b'/' ∷ []) m2-AreNames.path_held
          m2-AreNames.slash_held text ((omega arith, omega arith), tt) path_short)
