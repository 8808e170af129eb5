-- ===== src/Str/Text.antt =====
-- The routines that walk a string, against the list of bytes that the string holds.
use mya_xos.Base.{
  ℕ, zero, suc, ◌+◌, ◌-◌, ◌<◌, ◌≤◌, ◌≡◌, ◌≢◌, refl, sym, ◌∙◌, ◌⊎◌, some, List, [], ◌∷◌, ◌++◌, true,
  false, Bool, arith, ◌==◌, if◌then◌else◌, length,
}
use mya_xos.Memory.{Memory, null, within, CString}
use mya_xos.Str.Copy.{memcpy-within}
use mya_xos.Str.{
  memcpy, strlen_loop, strlen, lfind_loop, lfind, accepts, strspn_loop, strspn, strpbrk,
}

-- `c` occurs in `bs`.
abbrev pub has : ℕ → List ℕ → Bool
has c [] = false
has c (b ∷ bs) = if c == b then true else has c bs

-- The longest run of characters of `ds` at the start, and what follows it.
unfoldable pub skipped : List ℕ → List ℕ → ℕ
skipped ds [] = 0
skipped ds (c ∷ cs) = if has c ds then suc (skipped ds cs) else 0

unfoldable pub drop_while : List ℕ → List ℕ → List ℕ
drop_while ds [] = []
drop_while ds (c ∷ cs) = let rest = drop_while ds cs in if has c ds then rest else c ∷ cs

-- The characters before the first one of `ds`, and the rest from there on.
unfoldable pub word : List ℕ → List ℕ → List ℕ
word ds [] = []
word ds (c ∷ cs) = if has c ds then [] else c ∷ word ds cs

unfoldable pub after_word : List ℕ → List ℕ → List ℕ
after_word ds [] = []
after_word ds (c ∷ cs) = let rest = after_word ds cs in if has c ds then c ∷ cs else rest

-- The address `n` bytes from `p`, or NULL where nothing is left.
abbrev pub found : ℕ → ℕ → List ℕ → ℕ
found p n [] = null
found p n (c ∷ cs) = p + n

-- The string at `p` reads alike in two memories that agree on it and its NUL.
pub CString-frame :
    (m m' : Memory) (p : ℕ) (bs : List ℕ)
    → ((x : ℕ) → p ≤ x → x ≤ p + length bs → m' x ≡ m x)
    → CString m p bs
    → CString m' p bs
CString-frame m m' p [] same s = ground (arith, same p)
CString-frame m m' p (c ∷ cs) same s = (
  ground (arith, same p),
  s.1,
  CString-frame m m' (p + 1) cs (λ x lo hi. same x (omega arith) (omega arith)) s.2,
)

-- The string at an address is one.
pub CString-unique :
    (m : Memory) (p : ℕ) (bs cs : List ℕ) → CString m p bs → CString m p cs → bs ≡ cs
CString-unique m p [] [] h k = refl
CString-unique m p [] (c ∷ cs) h k = absurd (k.1 (sym k.0 ∙ h))
CString-unique m p (b ∷ bs) [] h k = absurd (h.1 (sym h.0 ∙ k))
CString-unique m p (b ∷ bs) (c ∷ cs) h k =
    cc (sym h.0 ∙ k.0, CString-unique m (p + 1) bs cs h.2 k.2)

-- The bytes of a text, whatever stands behind it.
abbrev pub Bytes : Memory → ℕ → List ℕ → Type 0
Bytes m p [] = Unit
Bytes m p (c ∷ cs) = (m p ≡ c) × (c ≢ 0) × Bytes m (p + 1) cs

CString-Bytes :
    (m m' : Memory) (p q : ℕ) (bs : List ℕ)
    → ((k : ℕ) → k < length bs → m' (q + k) ≡ m (p + k))
    → CString m p bs
    → Bytes m' q bs
CString-Bytes m m' p q [] same h = tt
CString-Bytes m m' p q (c ∷ cs) same h = (
  ground (arith, same 0),
  h.1,
  CString-Bytes m m' (p + 1) (q + 1) cs (λ k lt. ground (arith, same (suc k))) h.2,
)

pub Bytes-frame :
    (m m' : Memory) (p : ℕ) (bs : List ℕ)
    → ((x : ℕ) → p ≤ x → x < p + length bs → m' x ≡ m x)
    → Bytes m p bs
    → Bytes m' p bs
Bytes-frame m m' p [] same h = tt
Bytes-frame m m' p (c ∷ cs) same h = (
  same p (omega arith) (omega arith) ∙ h.0,
  h.1,
  Bytes-frame m m' (p + 1) cs (λ x lo hi. same x (omega arith) (omega arith)) h.2,
)

-- A text behind the bytes of another.
pub Bytes-append :
    (m : Memory) (p : ℕ) (bs cs : List ℕ)
    → Bytes m p bs
    → CString m (p + length bs) cs
    → CString m p (bs ++ cs)
Bytes-append m p [] cs h k = let e : p + 0 ≡ p = omega arith in rw e at k
Bytes-append m p (b ∷ bs) cs h k =
    let e : p + suc (length bs) ≡ p + 1 + length bs = omega arith in
    (h.0, h.1, Bytes-append m (p + 1) bs cs h.2 (rw e at k))

pub memcpy-Bytes :
    (m0 m : Memory) (src dest : ℕ) (bs : List ℕ)
    → CString m0 src bs
    → ((k : ℕ) → k < length bs → m (src + k) ≡ m0 (src + k))
    → (dest ≤ src) ⊎ (src + length bs ≤ dest)
    → Bytes (memcpy m dest src (length bs)) dest bs
memcpy-Bytes m0 m src dest bs h same apart =
    CString-Bytes m0 (memcpy m dest src (length bs)) src dest bs
      (λ k lt.
        let e : dest + k - dest ≡ k = omega arith in
        let inside : within dest (length bs) (dest + k) ≡ true = ground arith in
        rw (inside, e) at (memcpy-within m dest src (length bs) (dest + k) apart) ∙ same k lt)
      h

CString-moved :
    (m m' : Memory) (p q : ℕ) (bs : List ℕ)
    → ((k : ℕ) → k < length bs + 1 → m' (q + k) ≡ m (p + k))
    → CString m p bs
    → CString m' q bs
CString-moved m m' p q [] same h = ground (arith, same 0)
CString-moved m m' p q (c ∷ cs) same h = (
  ground (arith, same 0),
  h.1,
  CString-moved m m' (p + 1) (q + 1) cs (λ k lt. ground (arith, same (suc k))) h.2,
)

pub memcpy-CString :
    (m : Memory) (src dest : ℕ) (bs : List ℕ)
    → CString m src bs
    → (dest ≤ src) ⊎ (src + (length bs + 1) ≤ dest)
    → CString (memcpy m dest src (length bs + 1)) dest bs
memcpy-CString m src dest bs h apart =
    let n = length bs + 1 in
    CString-moved m (memcpy m dest src n) src dest bs
      (λ k lt.
        let e : dest + k - dest ≡ k = omega arith in
        let inside : within dest n (dest + k) ≡ true = ground arith in
        rw (inside, e) at (memcpy-within m dest src n (dest + k) apart))
      h

strlen_loop-length :
    (fuel : ℕ) (m : Memory) (str i p : ℕ) (bs : List ℕ)
    → p ≡ str + i
    → CString m p bs
    → length bs < fuel
    → strlen_loop fuel m str i ≡ some (i + length bs)
unfolding strlen_loop
strlen_loop-length zero m str i p bs e s h = absurd (omega arith)
strlen_loop-length (suc fuel) m str i p [] e s h = ground arith
strlen_loop-length (suc fuel) m str i p (c ∷ cs) e s h =
    ground (arith, strlen_loop-length fuel m str (i + 1) (p + 1) cs)

-- With fuel for every character and the NUL, `strlen` returns the number of characters.
pub strlen-length :
    (fuel : ℕ) (m : Memory) (str : ℕ) (bs : List ℕ)
    → CString m str bs
    → length bs < fuel
    → strlen fuel m str ≡ some (length bs)
unfolding strlen
strlen-length fuel m str bs s h = ground (arith, strlen_loop-length fuel m str 0 str bs)

lfind_loop-end :
    (fuel : ℕ) (m : Memory) (str i p : ℕ) (bs : List ℕ)
    → p ≡ str + i
    → CString m p bs
    → length bs < fuel
    → lfind_loop fuel m str 0 i ≡ some (p + length bs)
unfolding lfind_loop
lfind_loop-end zero m str i p bs e s h = absurd (omega arith)
lfind_loop-end (suc fuel) m str i p [] e s h = ground arith
lfind_loop-end (suc fuel) m str i p (c ∷ cs) e s h =
    ground (arith, lfind_loop-end fuel m str (i + 1) (p + 1) cs)

-- Looking for NUL, `lfind` returns the end of the string.
pub lfind-end :
    (fuel : ℕ) (m : Memory) (str : ℕ) (bs : List ℕ)
    → CString m str bs
    → length bs < fuel
    → lfind fuel m str 0 ≡ some (str + length bs)
unfolding lfind
lfind-end fuel m str bs s h = ground (arith, lfind_loop-end fuel m str 0 str bs)

pub accepts-has :
    (fuel : ℕ) (m : Memory) (acc c : ℕ) (ds : List ℕ)
    → CString m acc ds
    → length ds < fuel
    → accepts fuel m acc c ≡ some (has c ds)
unfolding accepts
accepts-has zero m acc c ds s h = absurd (omega arith)
accepts-has (suc fuel) m acc c [] s h = ground arith
accepts-has (suc fuel) m acc c (d ∷ ds) s h = ground (arith, accepts-has fuel m (acc + 1) c ds)

module _ (m : Memory) (delim : ℕ) (ds : List ℕ) (sd : CString m delim ds) where
  strspn_loop-skipped :
      (fuel p n : ℕ) (bs : List ℕ)
      → CString m p bs
      → length bs + length ds < fuel
      → strspn_loop fuel m p delim n ≡ some (n + skipped ds bs)
  unfolding strspn_loop skipped
  strspn_loop-skipped zero p n bs s h = absurd (omega arith)
  strspn_loop-skipped (suc fuel) p n [] s h = ground arith
  strspn_loop-skipped (suc fuel) p n (c ∷ cs) s h = ground (
    arith,
    accepts-has (suc fuel) m delim (m p) ds sd (omega arith),
    strspn_loop-skipped fuel (p + 1) (n + 1) cs,
  )

  -- `strspn` counts the leading characters that stand in the second string.
  pub strspn-skipped :
      (fuel p : ℕ) (bs : List ℕ)
      → CString m p bs
      → length bs + length ds < fuel
      → strspn fuel m p delim ≡ some (skipped ds bs)
  unfolding strspn
  strspn-skipped fuel p bs s h = ground (arith, strspn_loop-skipped fuel p 0 bs)

  -- `strpbrk` finds the first character that stands in the second string, or returns NULL.
  pub strpbrk-word :
      (fuel p : ℕ) (bs : List ℕ)
      → CString m p bs
      → length bs + length ds < fuel
      → strpbrk fuel m p delim ≡ some (found p (length (word ds bs)) (after_word ds bs))
  unfolding strpbrk word after_word
  strpbrk-word zero p bs s h = absurd (omega arith)
  strpbrk-word (suc fuel) p [] s h = ground arith
  strpbrk-word (suc fuel) p (c ∷ cs) s h = ground (
    arith,
    accepts-has (suc fuel) m delim (m p) ds sd (omega arith),
    strpbrk-word fuel (p + 1) cs,
  )
