-- ===== src/Str/Token.antt =====
-- `strtok_r` cuts the next word off a string.
use mya_xos.Base.{
  ℕ, ◌+◌, ◌≤◌, ◌<◌, ◌≡◌, ◌≢◌, refl, sym, some, List, [], ◌∷◌, arith, ◌==◌, if◌then◌else◌, length,
  ap, ◌∙◌, ◌⊎◌, false, inl, inr, Bool-cases,
}
use mathlib.Core.Path.{subst}
use mya_xos.Memory.{Memory, null, store8, CString}
use mya_xos.Str.{Tok, tok, strpbrk, strtok_word, strtok_at, strtok_r}
use mya_xos.Str.Text.{
  has, skipped, drop_while, word, after_word, found, CString-frame, lfind-end, strspn-skipped,
  strpbrk-word,
}

CString-at : (m : Memory) (p q : ℕ) (bs : List ℕ) → p ≡ q → CString m p bs → CString m q bs
CString-at m p q bs e s = subst (λ x. CString m x bs) e s

-- Past the leading delimiters stands the rest of the text.
CString-skipped :
    (m : Memory) (p : ℕ) (ds bs : List ℕ)
    → CString m p bs
    → CString m (p + skipped ds bs) (drop_while ds bs)
unfolding skipped drop_while
CString-skipped m p ds [] s = CString-at m p _ [] (omega arith) s
CString-skipped m p ds (c ∷ cs) s = elim (Bool-cases (has c ds)) [
  | inl e ↦
      rw e (
        CString-at m (p + 1 + skipped ds cs) _ _ (omega arith)
          (CString-skipped m (p + 1) ds cs s.2))
  | inr e ↦ rw e (CString-at m p _ (c ∷ cs) (omega arith) s)
]

CString-end : (m : Memory) (p : ℕ) (bs : List ℕ) → CString m p bs → CString m (p + length bs) []
CString-end m p [] s = CString-at m p _ [] (omega arith) s
CString-end m p (c ∷ cs) s =
    CString-at m (p + 1 + length cs) _ [] (omega arith) (CString-end m (p + 1) cs s.2)

skipped-all : (ds bs : List ℕ) → drop_while ds bs ≡ [] → skipped ds bs ≡ length bs
unfolding skipped drop_while
skipped-all ds [] e = refl
skipped-all ds (c ∷ cs) e = ground (arith, skipped-all ds cs)

length-drop_while : (ds bs : List ℕ) → length (drop_while ds bs) ≤ length bs
unfolding drop_while
length-drop_while ds [] = omega arith
length-drop_while ds (c ∷ cs) = ground (arith, length-drop_while ds cs)

module _ (ds : List ℕ) where
  word-all : (bs : List ℕ) → after_word ds bs ≡ [] → word ds bs ≡ bs
  unfolding word after_word
  word-all [] e = refl
  word-all (c ∷ cs) e = ground (arith, word-all cs)

  length-word-lt :
      (bs : List ℕ) {d : ℕ} {r : List ℕ}
      → after_word ds bs ≡ d ∷ r
      → length (word ds bs) < length bs
  unfolding word after_word
  length-word-lt [] e = ground arith
  length-word-lt (c ∷ cs) {d} {r} e = ground (arith, length-word-lt cs {d = d} {r = r})

  -- Behind the word stand a delimiter and the rest.
  CString-after_word :
      (m : Memory) (p : ℕ) (bs : List ℕ) {d : ℕ} {r : List ℕ}
      → CString m p bs
      → after_word ds bs ≡ d ∷ r
      → CString m (p + length (word ds bs)) (d ∷ r)
  unfolding word after_word
  CString-after_word m p [] s e = ground arith
  CString-after_word m p (c ∷ cs) {d} {r} s e = elim (Bool-cases (has c ds)) [
    | inl h ↦
        rw h
          (subst (λ l. CString m (p + 0) l) (rw h at e) (CString-at m p _ (c ∷ cs) (omega arith) s))
    | inr h ↦ rw h (
        CString-at m (p + 1 + length (word ds cs)) _ (d ∷ r) (omega arith)
          (CString-after_word m (p + 1) cs s.2 (rw h at e)))
  ]

  -- Once the delimiter is a NUL, the word is a string.
  CString-word :
      (m : Memory) (p z : ℕ) (bs : List ℕ) {d : ℕ} {r : List ℕ}
      → CString m p bs
      → after_word ds bs ≡ d ∷ r
      → z ≡ p + length (word ds bs)
      → CString (store8 m z 0) p (word ds bs)
  unfolding word after_word
  CString-word m p z [] s e ez = ground arith
  CString-word m p z (c ∷ cs) s e ez = elim (Bool-cases (has c ds)) [
    | inl h ↦ rw h (ground arith)
    | inr h ↦ rw h (ground arith, s.1, CString-word m (p + 1) z cs s.2 (rw h at e) (ground arith))
  ]

-- What cutting a word off the text `bs` at `start` leaves: NULL and the end of the text, where only
-- delimiters are left; or a pointer to the first word, which is now a string of its own, and the
-- text behind the delimiter that ended it. Only that delimiter is overwritten.
pub data Cut (ds : List ℕ) (m : Memory) (start : ℕ) (bs : List ℕ) (t : Tok) : Type 0 where
  finished : drop_while ds bs ≡ [] → t ≡ tok null (start + length bs) m → Cut ds m start bs t
  last_word :
      after_word ds (drop_while ds bs) ≡ []
      → drop_while ds bs ≢ []
      → t.token ≡ start + skipped ds bs
      → t.save ≡ t.token + length (word ds (drop_while ds bs))
      → t.mem ≡ m
      → CString m t.token (word ds (drop_while ds bs))
      → CString m t.save []
      → Cut ds m start bs t
  more_words :
      (d : ℕ) (rest : List ℕ)
      → after_word ds (drop_while ds bs) ≡ d ∷ rest
      → t.token ≡ start + skipped ds bs
      → t.save ≡ t.token + length (word ds (drop_while ds bs)) + 1
      → t.mem ≡ store8 m (t.token + length (word ds (drop_while ds bs))) 0
      → CString t.mem t.token (word ds (drop_while ds bs))
      → CString t.mem t.save rest
      → Cut ds m start bs t

pub List-cases : (l : List ℕ) → (l ≡ []) ⊎ ((d : ℕ) × (r : List ℕ) × (l ≡ d ∷ r))
List-cases [] = inl refl
List-cases (d ∷ r) = inr (d, r, refl)

module _ (m : Memory) (delim : ℕ) (ds : List ℕ) (sd : CString m delim ds) where
  -- `strtok_word` where the word runs to the end of the text.
  strtok_word-last :
      (fuel p : ℕ) (bs : List ℕ)
      → CString m p bs
      → length bs + length ds < fuel
      → after_word ds bs ≡ []
      → strtok_word fuel m p delim ≡ some (tok p (p + length bs) m)
  unfolding strtok_word
  strtok_word-last fuel p bs s h e =
      ground
        (arith, strpbrk-word m delim ds sd fuel p bs s h, lfind-end fuel m p bs s (omega arith))

  strtok_word-more :
      (fuel p d : ℕ) (bs r : List ℕ)
      → 0 < p
      → CString m p bs
      → length bs + length ds < fuel
      → after_word ds bs ≡ d ∷ r
      → let z = p + length (word ds bs) in
        strtok_word fuel m p delim ≡ some (tok p (z + 1) (store8 m z 0))
  unfolding strtok_word
  strtok_word-more fuel p d bs r pos s h e =
      let z = p + length (word ds bs) in
      let cut : strpbrk fuel m p delim ≡ some z =
        strpbrk-word m delim ds sd fuel p bs s h
        ∙ ap (λ a. some (found p (length (word ds bs)) a)) e in
      let real : (z == null) ≡ false = ground arith in rw (cut, strtok_word) (rw real refl)

  strtok_at-none :
      (fuel start : ℕ) (bs : List ℕ)
      → CString m start bs
      → length bs + length ds < fuel
      → drop_while ds bs ≡ []
      → strtok_at fuel m start delim ≡ some (tok null (start + length bs) m)
  unfolding strtok_at
  strtok_at-none fuel start bs s h e =
      let n = skipped-all ds bs e in
      let z : m (start + skipped ds bs) ≡ 0 =
        subst (λ l. CString m (start + skipped ds bs) l) e (CString-skipped m start ds bs s) in
      ground (arith, strspn-skipped m delim ds sd fuel start bs s h, n, z)

  strtok_at-word :
      (fuel start c : ℕ) (bs cs : List ℕ)
      → CString m start bs
      → length bs + length ds < fuel
      → drop_while ds bs ≡ c ∷ cs
      → strtok_at fuel m start delim ≡ strtok_word fuel m (start + skipped ds bs) delim
  unfolding strtok_at
  strtok_at-word fuel start c bs cs s h e =
      let z : CString m (start + skipped ds bs) (c ∷ cs) =
        subst (λ l. CString m (start + skipped ds bs) l) e (CString-skipped m start ds bs s) in
      ground (arith, strspn-skipped m delim ds sd fuel start bs s h, z.0, z.1)

  strtok_at-Cut :
      (fuel start : ℕ) (bs : List ℕ)
      → 0 < start
      → CString m start bs
      → length bs + length ds < fuel
      → (t : Tok) × (strtok_at fuel m start delim ≡ some t) × Cut ds m start bs t
  strtok_at-Cut fuel start bs pos s h =
      let p = start + skipped ds bs in
      let left = CString-skipped m start ds bs s in
      let short = length-drop_while ds bs in
      elim (List-cases (drop_while ds bs)) [
        | inl e ↦
            (tok null (start + length bs) m, strtok_at-none fuel start bs s h e, finished e refl)
        | inr (c, cs, e) ↦ elim (List-cases (after_word ds (drop_while ds bs))) [
          | inl a ↦ (
            tok p (p + length (drop_while ds bs)) m,
            strtok_at-word fuel start c bs cs s h e
                ∙ strtok_word-last fuel p (drop_while ds bs) left (omega arith) a,
            last_word a (λ n. cc (sym n ∙ e)) refl
                (ap (λ l. p + length l) (sym (word-all ds (drop_while ds bs) a))) refl
                (subst (λ l. CString m p l) (sym (word-all ds (drop_while ds bs) a)) left)
                (CString-end m p (drop_while ds bs) left),
          )
          | inr (d, rest, a) ↦
              let w = word ds (drop_while ds bs) in
              let z = p + length w in
              (
                tok p (z + 1) (store8 m z 0),
                strtok_at-word fuel start c bs cs s h e
                    ∙ strtok_word-more fuel p d (drop_while ds bs) rest (omega arith) left
                        (omega arith) a,
                more_words d rest a refl refl refl
                    (CString-word ds m p z (drop_while ds bs) left a refl)
                    (CString-frame m (store8 m z 0) (z + 1) rest (λ x lo hi. ground arith)
                      (CString-after_word ds m p (drop_while ds bs) left a).2),
              )
        ]
      ]

  -- With fuel for the text and the delimiters, `strtok_r` returns, whether it goes on from the saved
  -- pointer or starts on a new string, and what it leaves is `Cut` of that text.
  pub strtok_r-Cut :
      (fuel str save start : ℕ) (bs : List ℕ)
      → start ≡ (if str == null then save else str)
      → 0 < start
      → CString m start bs
      → length bs + length ds < fuel
      → (t : Tok) × (strtok_r fuel m str delim save ≡ some t) × Cut ds m start bs t
  unfolding strtok_r
  strtok_r-Cut fuel str save start bs es pos s h = rw (← es) (strtok_at-Cut fuel start bs pos s h)
