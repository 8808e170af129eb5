-- ===== src/Str/Compare.antt =====
-- `strcmp` against the lists of bytes that its arguments hold.
use mya_xos.Base.{
  ℕ, zero, suc, ◌+◌, ◌<◌, ◌≡◌, ◌≢◌, refl, some, List, [], ◌∷◌, arith, if◌then◌else◌, length, All,
  ◌≢◌, ◌⊎◌, inl, inr, ◌≡◌, ◌↔◌, ap, sym, ◌∙◌,
}
use mya_xos.Memory.{Memory, CString}
use mya_xos.Str.{Compared, less, greater, equal, char_lt, strcmp_loop, strcmp}

-- The lexicographic order, characters as signed numbers, NUL at the end of each string.
pub compare_text : List ℕ → List ℕ → Compared
compare_text [] [] = equal
compare_text [] (c ∷ cs) = if char_lt 0 c then less else greater
compare_text (b ∷ bs) [] = if char_lt b 0 then less else greater
compare_text (b ∷ bs) (c ∷ cs) =
    let rest = compare_text bs cs in
    if char_lt b c then less else if char_lt c b then greater else rest

abbrev pub IsText : List ℕ → Type 0
IsText bs = All (λ c. (0 < c) × (c < 256)) bs

strcmp_loop-compare_text :
    (fuel : ℕ) (m : Memory) (a b i p q : ℕ) (bs cs : List ℕ)
    → p ≡ a + i
    → q ≡ b + i
    → CString m p bs
    → CString m q cs
    → IsText bs
    → IsText cs
    → length bs < fuel
    → strcmp_loop fuel m a b i ≡ some (compare_text bs cs)
unfolding strcmp_loop compare_text
strcmp_loop-compare_text zero m a b i p q bs cs ep eq sp sq tb tc h = absurd (omega arith)
strcmp_loop-compare_text (suc fuel) m a b i p q [] [] ep eq sp sq tb tc h = ground arith
strcmp_loop-compare_text (suc fuel) m a b i p q [] (c ∷ cs) ep eq sp sq tb tc h = ground arith
strcmp_loop-compare_text (suc fuel) m a b i p q (c ∷ bs) [] ep eq sp sq tb tc h = ground arith
strcmp_loop-compare_text (suc fuel) m a b i p q (x ∷ bs) (y ∷ cs) ep eq sp sq tb tc h =
    ground (arith, strcmp_loop-compare_text fuel m a b (i + 1) (p + 1) (q + 1) bs cs)

-- `strcmp` orders two strings lexicographically by their signed characters.
pub strcmp-compare_text :
    (fuel : ℕ) (m : Memory) (a b : ℕ) (bs cs : List ℕ)
    → CString m a bs
    → CString m b cs
    → IsText bs
    → IsText cs
    → length bs < fuel
    → strcmp fuel m a b ≡ some (compare_text bs cs)
unfolding strcmp
strcmp-compare_text fuel m a b bs cs sa sb ta tb h =
    ground (arith, strcmp_loop-compare_text fuel m a b 0 a b bs cs)

pub compare_text-equal :
    (bs cs : List ℕ) → IsText bs → IsText cs → compare_text bs cs ≡ equal → bs ≡ cs
unfolding compare_text
compare_text-equal [] [] tb tc h = refl
compare_text-equal [] (c ∷ cs) tb tc h = ground arith
compare_text-equal (b ∷ bs) [] tb tc h = ground arith
compare_text-equal (b ∷ bs) (c ∷ cs) tb tc h = ground (arith, compare_text-equal bs cs)

pub compare_text_refl : (bs : List ℕ) → compare_text bs bs ≡ equal
unfolding compare_text
compare_text_refl [] = refl
compare_text_refl (b ∷ bs) = ground (arith, compare_text_refl bs)

-- It returns 0 exactly when the two strings hold the same characters.
pub strcmp-equal_iff :
    (fuel : ℕ) (m : Memory) (a b : ℕ) (bs cs : List ℕ)
    → CString m a bs
    → CString m b cs
    → IsText bs
    → IsText cs
    → length bs < fuel
    → (strcmp fuel m a b ≡ some equal) ↔ (bs ≡ cs)
strcmp-equal_iff fuel m a b bs cs sa sb ta tb h =
    let run = strcmp-compare_text fuel m a b bs cs sa sb ta tb h in
    (
      λ e. compare_text-equal bs cs ta tb (cc run),
      λ e. run ∙ ap some (ap (compare_text bs) (sym e) ∙ compare_text_refl bs),
    )

Compared-distinct : ¬ ((less ≡ equal) ⊎ (greater ≡ equal))
Compared-distinct h = ground arith

pub Compared-cases : (c : Compared) → (c ≡ equal) ⊎ ((c ≡ less) ⊎ (c ≡ greater))
Compared-cases less = inr (inl refl)
Compared-cases equal = inl refl
Compared-cases greater = inr (inr refl)

-- To split on a comparison.
pub compare_text-cases :
    (bs cs : List ℕ)
    → IsText bs
    → IsText cs
    → ((bs ≡ cs) × (compare_text bs cs ≡ equal))
      ⊎ ((bs ≢ cs) × ((compare_text bs cs ≡ less) ⊎ (compare_text bs cs ≡ greater)))
compare_text-cases bs cs tb tc = elim (Compared-cases (compare_text bs cs)) [
  | inl e ↦ inl (compare_text-equal bs cs tb tc e, e)
  | inr ne ↦ inr (
    λ same.
        let e = ap (compare_text bs) (sym same) ∙ compare_text_refl bs in
        elim ne [
          | inl l ↦ Compared-distinct (inl (sym l ∙ e))
          | inr g ↦ Compared-distinct (inr (sym g ∙ e))
        ],
    ne,
  )
]
