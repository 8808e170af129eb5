-- ===== src/Report/Play.antt =====
-- What a script shows: the texts of its calls, one after another, in the colours that it sets.
use mya_xos.Base.{
  ℕ, ◌+◌, ◌%◌, ◌^◌, ◌<◌, ◌≤◌, bit_and, bit_or, ◌≡◌, ◌≢◌, refl, sym, ◌∙◌, inl, inr, List, [], ◌∷◌,
  true, false, Bool, not, ◌&&◌, some, All, arith, length, Bool-cases, ◌<<<◌,
}
use Prim.Native.String.{String}
use mya_xos.Memory.{Memory, within, CString}
use mathlib.Core.Path.{subst}
use mya_xos.Str.Text.{CString-frame, CString-unique}
use mya_xos.Str.Compare.{IsText}
use mya_xos.Vga.{Console, blank, puts, settextcolor, resettextcolor}
use mya_xos.Vga.Terminal.{Terminal, Shows}
use mya_xos.Vga.Puts.{IsConsole, type_text, puts-Shows}
use mya_xos.Print.{printed, kprintf}
use mya_xos.Print.Pieces.{
  Piece, plain, escaped, a_string, a_char, a_hex, a_number, behind_percent, AreSupplied, Renders,
  ends, itself, escape_of, text_at, low_byte, hexadecimal, decimal, second,
}
use mya_xos.Print.Screen.{kprintf-Shows}
use mya_xos.Report.Formats.{format, IsFormat, plain_only, one_word}
use mya_xos.Report.{
  Script, stop, say, put_text, colours, default_colours, when, unfinished, codes, run_script,
}

-- The character attribute that `settextcolor` makes.
abbrev pub attribute : (fore back : ℕ) → ℕ
attribute fore back = bit_or (back <<< 4) (bit_and fore 0x0F)

-- One of two statements.
abbrev pub Chosen : Bool → Type 0 → Type 0 → Type 0
Chosen true P Q = P
Chosen false P Q = Q

-- `m0` is memory at the start, with the screen at `screen`; `v` and `w` bound the wait for the serial line
-- and the length of a text.
IsText-bytes : (bs : List ℕ) → IsText bs → All (λ c. c < 256) bs
IsText-bytes [] h = tt
IsText-bytes (c ∷ cs) h = (h.0.1, IsText-bytes cs h.1)

module _ (v w fuel buf screen : ℕ) (literal : String → ℕ) (m0 : Memory) where
  -- What printing leaves alone.
  abbrev pub kept : ℕ → Bool
  kept x = not (within screen 4000 x) && not (within buf 1024 x)

  abbrev pub Agree : Memory → Type 0
  Agree m = (x : ℕ) → kept x ≡ true → m x ≡ m0 x

  -- The text at `p`, away from the screen and the buffer.
  pub record IsHeld (p : ℕ) (bs : List ℕ) : Type 0 where
    pub text : CString m0 p bs
    pub away : (x : ℕ) → p ≤ x → x ≤ p + length bs → kept x ≡ true

  -- There is a text of fewer than `w` characters at an address.
  abbrev pub HoldsText : ℕ → Type 0
  HoldsText p = (bs : List ℕ) × IsHeld p bs × IsText bs × (length bs < w)

  -- A literal is where the linker put it.
  abbrev pub IsLinked : String → Type 0
  IsLinked f = IsHeld (literal f) (codes f)

  -- The arguments suit the pieces of a format: one for each conversion, a word or a text.
  abbrev pub Suits : List Piece → List ℕ → Type 0
  Suits [] args = Unit
  Suits (plain c ∷ ps) args = Suits ps args
  Suits (escaped d ∷ ps) args = Suits ps args
  Suits (behind_percent d ∷ ps) args = Suits ps args
  Suits (a_string ∷ ps) [] = ⊥
  Suits (a_string ∷ ps) (a ∷ args) = HoldsText a × Suits ps args
  Suits (a_char ∷ ps) [] = ⊥
  Suits (a_char ∷ ps) (a ∷ args) = (a % 256 ≢ 0) × Suits ps args
  Suits (a_hex ∷ ps) [] = ⊥
  Suits (a_hex ∷ ps) (a ∷ args) = (a < 2 ^ 32) × Suits ps args
  Suits (a_number ∷ ps) [] = ⊥
  Suits (a_number ∷ ps) (a ∷ args) = (a < 2 ^ 32) × Suits ps args

  plain_only-Suits : (ps : List Piece) → plain_only ps ≡ true → Suits ps []
  unfolding plain_only
  plain_only-Suits [] h = tt
  plain_only-Suits (plain c ∷ ps) h = plain_only-Suits ps h
  plain_only-Suits (escaped c ∷ ps) h = plain_only-Suits ps h
  plain_only-Suits (behind_percent c ∷ ps) h = plain_only-Suits ps h
  plain_only-Suits (a_string ∷ ps) h = absurd (ground (arith, h))
  plain_only-Suits (a_char ∷ ps) h = absurd (ground (arith, h))
  plain_only-Suits (a_hex ∷ ps) h = absurd (ground (arith, h))
  plain_only-Suits (a_number ∷ ps) h = absurd (ground (arith, h))

  pub one_word-Suits :
      (ps : List Piece) (a : ℕ) → one_word ps ≡ true → a < 2 ^ 32 → Suits ps (a ∷ [])
  unfolding one_word
  one_word-Suits [] a h lt = absurd (ground (arith, h))
  one_word-Suits (plain c ∷ ps) a h lt = one_word-Suits ps a h lt
  one_word-Suits (escaped c ∷ ps) a h lt = one_word-Suits ps a h lt
  one_word-Suits (behind_percent c ∷ ps) a h lt = one_word-Suits ps a h lt
  one_word-Suits (a_string ∷ ps) a h lt = absurd (ground (arith, h))
  one_word-Suits (a_char ∷ ps) a h lt = absurd (ground (arith, h))
  one_word-Suits (a_hex ∷ ps) a h lt = (lt, plain_only-Suits ps h)
  one_word-Suits (a_number ∷ ps) a h lt = (lt, plain_only-Suits ps h)

  pub IsHeld-Agree : (m : Memory) (p : ℕ) (bs : List ℕ) → Agree m → IsHeld p bs → CString m p bs
  IsHeld-Agree m p bs e h = CString-frame m0 m p bs (λ x lo hi. e x (h.away x lo hi)) h.text

  Suits-AreSupplied :
      (m : Memory) (ps : List Piece) (args : List ℕ)
      → Agree m
      → Suits ps args
      → AreSupplied m buf w ps args
  Suits-AreSupplied m [] args e s = tt
  Suits-AreSupplied m (plain c ∷ ps) args e s = Suits-AreSupplied m ps args e s
  Suits-AreSupplied m (escaped d ∷ ps) args e s = Suits-AreSupplied m ps args e s
  Suits-AreSupplied m (behind_percent d ∷ ps) args e s = Suits-AreSupplied m ps args e s
  Suits-AreSupplied m (a_string ∷ ps) [] e s = s
  Suits-AreSupplied m (a_string ∷ ps) (a ∷ args) e ((bs, h, text, short), s) = (
    (bs, IsHeld-Agree m a bs e h, text, short, λ x lo hi. ground (arith, h.away x lo hi)),
    Suits-AreSupplied m ps args e s,
  )
  Suits-AreSupplied m (a_char ∷ ps) [] e s = s
  Suits-AreSupplied m (a_char ∷ ps) (a ∷ args) e s = (s.0, Suits-AreSupplied m ps args e s.1)
  Suits-AreSupplied m (a_hex ∷ ps) [] e s = s
  Suits-AreSupplied m (a_hex ∷ ps) (a ∷ args) e s = (s.0, Suits-AreSupplied m ps args e s.1)
  Suits-AreSupplied m (a_number ∷ ps) [] e s = s
  Suits-AreSupplied m (a_number ∷ ps) (a ∷ args) e s = (s.0, Suits-AreSupplied m ps args e s.1)

  -- Texts that printing leaves alone read alike later.
  Renders-Agree :
      (m : Memory) {ps : List Piece} {args out : List ℕ}
      → Agree m
      → Suits ps args
      → Renders m ps args out
      → Renders m0 ps args out
  Renders-Agree m e s ends = ends
  Renders-Agree m e s (itself c r) = itself c (Renders-Agree m e s r)
  Renders-Agree m e s (escape_of d r) = escape_of d (Renders-Agree m e s r)
  Renders-Agree m e s (text_at a bs held text r) =
      let (bs', h, text', short) = s.0 in
      let same = CString-unique m a bs' bs (IsHeld-Agree m a bs' e h) held in
      text_at a bs (subst (λ l. CString m0 a l) same h.text) text (Renders-Agree m e s.1 r)
  Renders-Agree m e s (low_byte a r) = low_byte a (Renders-Agree m e s.1 r)
  Renders-Agree m e s (hexadecimal a cs len reads digits r) =
      hexadecimal a cs len reads digits (Renders-Agree m e s.1 r)
  Renders-Agree m e s (decimal a cs n r) = decimal a cs n (Renders-Agree m e s.1 r)
  Renders-Agree m e s (second d r) = second d (Renders-Agree m e s r)

  -- A call of `kprintf` that is in order: a format that is spelled by its pieces, whose text fits the
  -- buffer, and arguments that suit it and that printing leaves alone.
  pub record Says (f : String) (args : Memory → List ℕ) : Type 0 where
    pub held : IsLinked f
    pub good : IsFormat w f
    pub steady : (m : Memory) → Agree m → args m ≡ args m0
    pub suits : Suits (format (codes f)) (args m0)

  abbrev pub Ready : Script → Type 0
  Ready stop = Unit
  Ready (say f args rest) = Says f args × Ready rest
  Ready (put_text a rest) = HoldsText a × Ready rest
  Ready (colours fore back rest) = (attribute fore back < 256) × Ready rest
  Ready (default_colours rest) = Ready rest
  Ready (when c body rest) =
      ((m : Memory) → Agree m → c m ≡ c m0) × (c m0 ≡ true → Ready body) × Ready rest
  Ready unfinished = ⊥

  -- The colours and the terminal before and after.
  abbrev pub Plays : Script → ℕ × Terminal → ℕ × Terminal → Type 0
  Plays stop p q = q ≡ p
  Plays (say f args rest) p q =
      (out : List ℕ) × Renders m0 (format (codes f)) (args m0) out
      × Plays rest (p.0, type_text p.0 (blank p.0) out p.1) q
  Plays (put_text a rest) p q =
      (bs : List ℕ) × CString m0 a bs × Plays rest (p.0, type_text p.0 (blank p.0) bs p.1) q
  Plays (colours fore back rest) p q = Plays rest (attribute fore back, p.1) q
  Plays (default_colours rest) p q = Plays rest (attribute 15 0, p.1) q
  Plays (when c body rest) p q =
      (r : ℕ × Terminal) × Chosen (c m0) (Plays body p r) (r ≡ p) × Plays rest r q
  Plays unfinished p q = ⊥

  -- The console while a script runs.
  pub record IsPlaying (p : ℕ × Terminal) (s : Console) : Type 0 where
    pub console : IsConsole v s
    pub shows : Shows s p.1
    pub colour : s.attrib ≡ p.0
    pub place : s.textmemptr ≡ screen
    pub agree : Agree s.mem

  module _ (patient : v ≤ fuel) (wide : 10 ≤ w) (enough : 1024 + w ≤ fuel)
      (apart : (x : ℕ) → buf ≤ x → x < buf + 1024 → within screen 4000 x ≡ false) where
    -- One call of `kprintf`.
    kprintf-Plays :
        (f : String) (args : Memory → List ℕ) (p : ℕ × Terminal) (s : Console)
        → Says f args
        → IsPlaying p s
        → (s' : Console) × (out : List ℕ) × (kprintf fuel buf (literal f) (args s.mem) s
            ≡ printed s')
          × Renders m0 (format (codes f)) (args m0) out
          × IsPlaying (p.0, type_text p.0 (blank p.0) out p.1) s'
    kprintf-Plays f args p s c h =
        let same = c.steady s.mem h.agree in
        let bs = codes f in
        let (s', out, run, r, shown, on, colour, place, left) =
          kprintf-Shows v w fuel buf (literal f) (format bs) (args m0) s p.1 h.console patient wide
            (omega (arith, c.good.2)) (omega (arith, c.good.2)) (omega (arith, c.good.3))
            (subst (λ l. CString s.mem (literal f) l) (sym c.good.0)
              (IsHeld-Agree s.mem (literal f) bs h.agree c.held))
            (λ x lo hi. ground (
              arith,
              c.held.away x lo (subst (λ (l : List ℕ). x ≤ literal f + length l) c.good.0 hi),
            ))
            c.good.1 (Suits-AreSupplied s.mem (format bs) (args m0) h.agree c.suits)
            (λ x lo hi. subst (λ a. within a 4000 x ≡ false) (sym h.place) (apart x lo hi))
            h.shows in
        (
          s',
          out,
          rw same run,
          Renders-Agree s.mem h.agree c.suits r,
          record {
            console = on;
            shows = subst (λ a. Shows s' (type_text a (blank a) out p.1)) h.colour shown;
            colour = colour ∙ h.colour;
            place = place ∙ h.place;
            agree = λ x k.
                left x (subst (λ a. within a 4000 x ≡ false) (sym h.place) (ground (arith, k)))
                  (ground (arith, k))
                ∙ h.agree x k;
          },
        )

    -- One call of `puts`.
    puts-Plays :
        (a : ℕ) (p : ℕ × Terminal) (s : Console)
        → HoldsText a
        → IsPlaying p s
        → (s' : Console) × (bs : List ℕ) × (puts fuel a s ≡ some s')
          × CString m0 a bs
          × IsPlaying (p.0, type_text p.0 (blank p.0) bs p.1) s'
    puts-Plays a p s (bs, held, text, short) h =
        let (s', run, on, shown, keeps) =
          puts-Shows v fuel a bs s p.1 h.console patient (omega (arith, enough, short))
            (IsText-bytes bs text) (IsHeld-Agree s.mem a bs h.agree held)
            (λ x lo hi.
              subst (λ b. within b 4000 x ≡ false) (sym h.place)
                (ground (arith, held.away x lo hi)))
            h.shows in
        (
          s',
          bs,
          run,
          held.text,
          record {
            console = on;
            shows = subst (λ b. Shows s' (type_text b (blank b) bs p.1)) h.colour shown;
            colour = keeps.same_attrib ∙ h.colour;
            place = keeps.same_text ∙ h.place;
            agree = λ x k.
                keeps.same_mem x
                  (subst (λ b. within b 4000 x ≡ false) (sym h.place) (ground (arith, k)))
                ∙ h.agree x k;
          },
        )

    -- A change of the colours.
    settextcolor-Plays :
        (fore back : ℕ) (p : ℕ × Terminal) (s : Console)
        → attribute fore back < 256
        → IsPlaying p s
        → IsPlaying (attribute fore back, p.1) (settextcolor fore back s)
    unfolding settextcolor
    settextcolor-Plays fore back p s small h = record {
      console = record {
        on = record { column = h.console.on.column; row = h.console.on.row };
        colour = small;
        line = h.console.line;
      };
      shows = record { cells = h.shows.cells; column = h.shows.column; line = h.shows.line };
      colour = refl;
      place = h.place;
      agree = h.agree;
    }

    -- A script that is ready comes to an end, and shows what it plays.
    pub run_script-Plays :
        (sc : Script) (p : ℕ × Terminal) (s : Console)
        → Ready sc
        → IsPlaying p s
        → (s' : Console) × (q : ℕ × Terminal) × (run_script fuel buf literal sc s ≡ printed s')
          × Plays sc p q
          × IsPlaying q s'
    unfolding run_script resettextcolor
    run_script-Plays stop p s ready h = (s, p, refl, refl, h)
    run_script-Plays (say f args rest) p s ready h =
        let (s1, out, run, r, h1) = kprintf-Plays f args p s ready.0 h in
        let (s2, q, rest_run, plays, h2) = run_script-Plays rest _ s1 ready.1 h1 in
        (s2, q, rw run rest_run, (out, r, plays), h2)
    run_script-Plays (put_text a rest) p s ready h =
        let (s1, bs, run, text, h1) = puts-Plays a p s ready.0 h in
        let (s2, q, rest_run, plays, h2) = run_script-Plays rest _ s1 ready.1 h1 in
        (s2, q, rw run rest_run, (bs, text, plays), h2)
    run_script-Plays (colours fore back rest) p s ready h =
        run_script-Plays rest (attribute fore back, p.1) (settextcolor fore back s) ready.1
          (settextcolor-Plays fore back p s ready.0 h)
    run_script-Plays (default_colours rest) p s ready h =
        run_script-Plays rest (attribute 15 0, p.1) (settextcolor 15 0 s) ready
          (settextcolor-Plays 15 0 p s (omega arith) h)
    run_script-Plays (when c body rest) p s (steady, inside, after) h = elim (Bool-cases (c m0)) [
      | inl yes_ ↦
          let now : c s.mem ≡ true = steady s.mem h.agree ∙ yes_ in
          let (s1, r, run, plays, h1) = run_script-Plays body p s (inside yes_) h in
          let (s2, q, rest_run, rest_plays, h2) = run_script-Plays rest r s1 after h1 in
          (s2, q, rw (now, run) rest_run, (r, rw yes_ plays, rest_plays), h2)
      | inr no_ ↦
          let now : c s.mem ≡ false = steady s.mem h.agree ∙ no_ in
          let (s2, q, rest_run, rest_plays, h2) = run_script-Plays rest p s after h in
          (s2, q, rw now rest_run, (p, rw no_ refl, rest_plays), h2)
    ]
    run_script-Plays unfinished p s ready h = absurd ready
