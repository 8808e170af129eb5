-- ===== src/Shell/Words.antt =====
-- The tokens of a command are its words.
use mya_xos.Base.{
  ℕ, zero, suc, ◌+◌, ◌*◌, ◌<◌, ◌≤◌, ◌≡◌, ◌≢◌, refl, sym, ap, ◌∙◌, ◌⊎◌, inl, inr, some, List, [],
  ◌∷◌, true, false, arith, ◌==◌, if◌then◌else◌, length, Bool-cases,
}
use mya_xos.Memory.{Memory, null, store8, CString}
use mya_xos.Str.{Tok}
use mya_xos.Str.Text.{has, skipped, drop_while, word, after_word, CString-frame}
use mya_xos.Str.Token.{Cut, finished, last_word, more_words, strtok_r-Cut, List-cases}
use mya_xos.Shell.{token_loop, tokenize}

module _ (ds : List ℕ) where
  unfoldable pub lengthen : ℕ → List (List ℕ) → List (List ℕ)
  lengthen c [] = (c ∷ []) ∷ []
  lengthen c (w ∷ ws) = (c ∷ w) ∷ ws

  -- A character in front of a text: it starts a word of its own, or goes on the first one.
  unfoldable pub in_front : ℕ → List ℕ → List (List ℕ) → List (List ℕ)
  in_front c [] ws = (c ∷ []) ∷ ws
  in_front c (d ∷ cs) ws = if has d ds then (c ∷ []) ∷ ws else lengthen c ws

  -- The words of a text, which are separated by the characters of `ds`.
  unfoldable pub words : List ℕ → List (List ℕ)
  words [] = []
  words (c ∷ cs) = let rest = words cs in if has c ds then rest else in_front c cs rest

  words-drop_while : (bs : List ℕ) → words bs ≡ words (drop_while ds bs)
  unfolding words drop_while
  words-drop_while [] = refl
  words-drop_while (c ∷ cs) = ground (arith, words-drop_while cs)

  words-delimiter : (d : ℕ) (cs : List ℕ) → has d ds ≡ true → words (d ∷ cs) ≡ words cs
  unfolding words
  words-delimiter d cs h = rw h refl

  -- The text starts with a word.
  words-word :
      (c : ℕ) (cs : List ℕ)
      → has c ds ≡ false
      → words (c ∷ cs) ≡ word ds (c ∷ cs) ∷ words (after_word ds (c ∷ cs))
  unfolding words word after_word in_front lengthen
  words-word c [] e = rw e refl
  words-word c (d ∷ cs) e = elim (Bool-cases (has d ds)) [
    | inl h ↦ rw (e, h) (ap (λ ws. (c ∷ []) ∷ ws) (sym (words-delimiter d cs h)))
    | inr h ↦
        let next : words (d ∷ cs) ≡ word ds (d ∷ cs) ∷ words (after_word ds (d ∷ cs)) =
          words-word d cs h in
        rw (e, h) (ap (lengthen c) (rw h at next))
  ]

  drop_while-head :
      (bs : List ℕ) {c : ℕ} {cs : List ℕ} → drop_while ds bs ≡ c ∷ cs → has c ds ≡ false
  unfolding drop_while
  drop_while-head [] e = ground arith
  drop_while-head (b ∷ bs) {c} {cs} e = ground (arith, drop_while-head bs {c = c} {cs = cs})

  after_word-head : (bs : List ℕ) {d : ℕ} {r : List ℕ} → after_word ds bs ≡ d ∷ r → has d ds ≡ true
  unfolding after_word
  after_word-head [] e = ground arith
  after_word-head (b ∷ bs) {d} {r} e = ground (arith, after_word-head bs {d = d} {r = r})

  length-skipped : (bs : List ℕ) → skipped ds bs + length (drop_while ds bs) ≡ length bs
  unfolding skipped drop_while
  length-skipped [] = refl
  length-skipped (c ∷ cs) = ground (arith, length-skipped cs)

  length-word : (bs : List ℕ) → length (word ds bs) + length (after_word ds bs) ≡ length bs
  unfolding word after_word
  length-word [] = refl
  length-word (c ∷ cs) = ground (arith, length-word cs)

  words-blank : (bs : List ℕ) → drop_while ds bs ≡ [] → words bs ≡ []
  unfolding words
  words-blank bs e = words-drop_while bs ∙ ap words e

  words-next :
      (bs : List ℕ)
      → drop_while ds bs ≢ []
      → words bs ≡ word ds (drop_while ds bs) ∷ words (after_word ds (drop_while ds bs))
  words-next bs some_left = elim (List-cases (drop_while ds bs)) [
    | inl e ↦ absurd (some_left e)
    | inr (c, cs, e) ↦ words-drop_while bs ∙ rw e (words-word c cs (drop_while-head bs e))
  ]

-- Each token is the address of its word, which stands between `lo` and `hi`.
abbrev pub PointTo : Memory → (lo hi : ℕ) → List ℕ → List (List ℕ) → Type 0
PointTo m lo hi [] [] = Unit
PointTo m lo hi (p ∷ ps) (w ∷ ws) =
    CString m p w × (lo ≤ p) × (p + length w ≤ hi) × PointTo m lo hi ps ws
PointTo m lo hi _ _ = ⊥

pub PointTo-widen :
    (m : Memory) (lo hi lo' hi' : ℕ) (ps : List ℕ) (ws : List (List ℕ))
    → lo' ≤ lo
    → hi ≤ hi'
    → PointTo m lo hi ps ws
    → PointTo m lo' hi' ps ws
PointTo-widen m lo hi lo' hi' [] [] a b h = h
PointTo-widen m lo hi lo' hi' [] (w ∷ ws) a b h = elim h [ ]
PointTo-widen m lo hi lo' hi' (p ∷ ps) [] a b h = elim h [ ]
PointTo-widen m lo hi lo' hi' (p ∷ ps) (w ∷ ws) a b h =
    (h.0, omega (arith, h.1), omega (arith, h.2), PointTo-widen m lo hi lo' hi' ps ws a b h.3)

length-positive : (bs : List ℕ) → bs ≢ [] → 0 < length bs
length-positive [] h = absurd (h refl)
length-positive (b ∷ bs) h = omega arith

module _ (delim : ℕ) (ds : List ℕ) (fuel : ℕ) where
  -- The text at `start`, and the delimiters elsewhere.
  pub record IsReading (m : Memory) (start : ℕ) (bs : List ℕ) : Type 0 where
    pub real : 0 < start
    pub text : CString m start bs
    pub delimiters : CString m delim ds
    pub apart : (delim + length ds < start) ⊎ (start + length bs < delim)
    pub enough : length bs + length ds < fuel

  -- What is left behind once the tokens of a text are cut: the text alone is written to.
  record HasTokens (m : Memory) (start : ℕ) (bs : List ℕ) (r : List ℕ × Memory) : Type 0 where
    pub tokens : PointTo r.1 start (start + length bs) r.0 (words ds bs)
    pub outside : (x : ℕ) → (x < start) ⊎ (start + length bs ≤ x) → r.1 x ≡ m x

  abbrev Tokens : (rounds : ℕ) → Memory → (start : ℕ) → List ℕ → Tok → Type 0
  Tokens rounds m start bs t =
      (r : List ℕ × Memory) × (token_loop rounds fuel t.mem delim t.token t.save ≡ some r)
      × HasTokens m start bs r

  -- One token in front of those of the rest, which is cut behind it.
  token_loop-next :
      (rounds start : ℕ) (bs rest w : List ℕ) (m : Memory) (t : Tok)
      → 0 < t.token
      → start ≤ t.token
      → t.token + length w ≤ start + length bs
      → start ≤ t.save
      → t.save + length rest ≤ start + length bs
      → words ds bs ≡ w ∷ words ds rest
      → CString t.mem t.token w
      → ((x : ℕ) → x ≤ t.token + length w → (x < t.save) ⊎ (t.save + length rest ≤ x))
      → ((x : ℕ)
          → (x < start) ⊎ (start + length bs ≤ x)
          → ((x < t.save) ⊎ (t.save + length rest ≤ x)) × (t.mem x ≡ m x))
      → IsReading t.mem t.save rest
      → ((t' : Tok) → Cut ds t.mem t.save rest t' → Tokens rounds t.mem t.save rest t')
      → Tokens (suc rounds) m start bs t
  unfolding token_loop
  token_loop-next rounds start bs rest w m t real from to later inside split held behind away g ih =
      let (t', run, cut) =
        strtok_r-Cut t.mem delim ds g.delimiters fuel null t.save t.save rest refl g.real g.text
          g.enough in
      let (r, more, has) = ih t' cut in
      let nonnull : (t.token == null) ≡ false = ground (arith, real) in
      (
        (t.token ∷ r.0, r.1),
        rw (nonnull, run, more) refl,
        record {
          tokens = rw split (
            CString-frame t.mem r.1 t.token w (λ x lo hi. has.outside x (behind x hi)) held,
            from,
            to,
            PointTo-widen r.1 t.save (t.save + length rest) start (start + length bs) r.0
                (words ds rest) later inside has.tokens,
          );
          outside = λ x off. has.outside x (away x off).0 ∙ (away x off).1;
        },
      )

  token_loop-HasTokens :
      (rounds start : ℕ) (bs : List ℕ) (m : Memory) (t : Tok)
      → IsReading m start bs
      → length bs + 1 < rounds
      → Cut ds m start bs t
      → Tokens rounds m start bs t
  unfolding token_loop
  token_loop-HasTokens zero start bs m t h lt cut = absurd (omega arith)
  token_loop-HasTokens (suc rounds) start bs m t h lt (finished e same) =
      rw same
        (([], m), refl, record { tokens = rw (words-blank ds bs e) tt; outside = λ x off. refl })
  token_loop-HasTokens (suc rounds) start bs m t h lt (last_word a left at_word save mem held end) =
      let b = drop_while ds bs in
      let n = length-skipped ds bs in
      let k = length-word ds b in
      let z : length (after_word ds b) ≡ 0 = ap length a in
      let positive : 0 < length b = length-positive b left in
      let g : IsReading t.mem t.save [] = record {
        real = omega (arith, h.real, at_word, save);
        text = rw mem end;
        delimiters = rw mem h.delimiters;
        apart = ground (arith, h.apart);
        enough = omega (arith, h.enough);
      } in
      token_loop-next rounds start bs [] (word ds b) m t (omega (arith, h.real, at_word))
        (omega (arith, at_word)) (omega (arith, at_word, n, k)) (omega (arith, at_word, save))
        (omega (arith, at_word, save, n, k, z))
        (words-next ds bs left ∙ ap (λ l. word ds b ∷ words ds l) a) (rw mem held)
        (λ x hi. ground arith) (λ x off. (ground arith, ap (λ g. g x) mem)) g
        (λ t' cut. token_loop-HasTokens rounds t.save [] t.mem t' g (omega arith) cut)
  token_loop-HasTokens (suc rounds) start bs m t h lt
        (more_words d rest a at_word save mem held next) =
      let b = drop_while ds bs in
      let n = length-skipped ds bs in
      let k = length-word ds b in
      let z : length (after_word ds b) ≡ suc (length rest) = ap length a in
      let last = t.token + length (word ds b) in
      let left : b ≢ [] = λ e. ground (arith, ap (after_word ds) e, a) in
      let g : IsReading t.mem t.save rest = record {
        real = omega (arith, h.real, at_word, save);
        text = next;
        delimiters = rw mem (
            CString-frame m (store8 m last 0) delim ds (λ x lo hi. ground (arith, h.apart))
              h.delimiters);
        apart = ground (arith, h.apart);
        enough = omega (arith, h.enough);
      } in
      token_loop-next rounds start bs rest (word ds b) m t (omega (arith, h.real, at_word))
        (omega (arith, at_word)) (omega (arith, at_word, n, k)) (omega (arith, at_word, save))
        (omega (arith, at_word, save, n, k, z))
        (words-next ds bs left
          ∙ ap (λ l. word ds b ∷ words ds l) a
          ∙ ap (λ ws. word ds b ∷ ws) (words-delimiter ds d rest (after_word-head ds b a)))
        held (λ x hi. ground arith) (λ x off. (ground arith, ap (λ g. g x) mem ∙ ground arith)) g
        (λ t' cut. token_loop-HasTokens rounds t.save rest t.mem t' g (omega arith) cut)

  length-PointTo :
      (m : Memory) (lo hi : ℕ) (ps : List ℕ) (ws : List (List ℕ))
      → PointTo m lo hi ps ws
      → length ps ≡ length ws
  length-PointTo m lo hi [] [] h = refl
  length-PointTo m lo hi [] (w ∷ ws) h = elim h [ ]
  length-PointTo m lo hi (p ∷ ps) [] h = elim h [ ]
  length-PointTo m lo hi (p ∷ ps) (w ∷ ws) h = ap suc (length-PointTo m lo hi ps ws h.3)

  length-lengthen : (c : ℕ) (ws : List (List ℕ)) → length (lengthen ds c ws) ≤ length ws + 1
  unfolding lengthen
  length-lengthen c [] = omega arith
  length-lengthen c (w ∷ ws) = omega arith

  length-words : (bs : List ℕ) → length (words ds bs) * 2 ≤ length bs + 1
  unfolding words in_front lengthen
  length-words [] = omega arith
  length-words (c ∷ []) = ground arith
  length-words (c ∷ d ∷ cs) = ground (
    arith,
    length-words cs,
    length-words (d ∷ cs),
    length-lengthen c (in_front ds d cs (words ds cs)),
  )

  -- With the delimiters outside the command and enough fuel, the tokens are pointers to the words of
  -- the command, in order, each a string of its own inside the command; a command of `n` characters
  -- has at most (n + 1) / 2, and only the command itself is written to.
  pub tokenize-words :
      (rounds buffer save : ℕ) (bs : List ℕ) (m : Memory)
      → IsReading m buffer bs
      → length bs + 1 < rounds
      → (argv : List ℕ) × (m' : Memory) × (tokenize rounds fuel m delim buffer save
          ≡ some (argv, m'))
        × PointTo m' buffer (buffer + length bs) argv (words ds bs)
        × (length argv * 2 ≤ length bs + 1)
        × ((x : ℕ) → (x < buffer) ⊎ (buffer + length bs ≤ x) → m' x ≡ m x)
  unfolding tokenize
  tokenize-words rounds buffer save bs m h lt =
      let nonnull : (buffer == null) ≡ false = ground (arith, h.real) in
      let (t, run, cut) =
        strtok_r-Cut m delim ds h.delimiters fuel buffer save buffer bs (rw nonnull refl) h.real
          h.text h.enough in
      let (r, more, has) = token_loop-HasTokens rounds buffer bs m t h lt cut in
      (
        r.0,
        r.1,
        rw (tokenize, run, more) refl,
        has.tokens,
        omega (
          arith,
          length-PointTo r.1 buffer (buffer + length bs) r.0 (words ds bs) has.tokens,
          length-words bs,
        ),
        has.outside,
      )
