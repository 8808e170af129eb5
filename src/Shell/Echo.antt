-- ===== src/Shell/Echo.antt =====
-- A line "echo ..." shows its words.
use mya_xos.Base.{
  ℕ, ◌+◌, ◌<◌, ◌≤◌, ◌≡◌, refl, sym, ap, ◌∙◌, ◌⊎◌, inl, inr, some, Option, List, [], ◌∷◌, ◌++◌, map,
  true, false, Bool, arith, length, All, Bool-cases,
}
use Prim.Native.String.{String}
use mathlib.Core.Path.{subst}
use mathlib.Core.List.{append_assoc}
use mya_xos.Memory.{Memory, CString, within}
use mya_xos.Str.Text.{CString-unique, CString-frame}
use mya_xos.Str.Compare.{IsText}
use mya_xos.Allocator.{Allocator}
use mya_xos.Print.Pieces.{a_string, plain, Renders, ends, itself, text_at}
use mya_xos.Vga.{blank}
use mya_xos.Vga.Terminal.{Terminal, Shows}
use mya_xos.Vga.Puts.{type_text, IsConsole, type_text-append, Shows-frame}
use mya_xos.Report.{codes}
use mya_xos.Report.Formats.{format, is_format, is_piece, are_pieces, same_bytes, is_format-IsFormat}
use mya_xos.Report.Play.{IsHeld, IsLinked, Ready, Plays, kept, run_script-Plays}
use mya_xos.Vfs.{done, Driver}
use mya_xos.Shell.Words.{words, PointTo, IsReading, PointTo-widen, tokenize-words}
use mya_xos.Shell.Commands.{Command, echo, echo_script, commands, read_command, run_command, Shell}
use mya_xos.Shell.Naming.{named, AreNamed, read_command-named}
use mya_xos.Shell.Loop.{run_words, run_line}

-- The words, each with a blank behind it, and a new line.
unfoldable pub spoken : List (List ℕ) → List ℕ
spoken [] = b'\n' ∷ []
spoken (w ∷ ws) = w ++ (b' ' ∷ spoken ws)

-- "%s " makes a word and a blank.
word-Renders :
    (m : Memory) (a : ℕ) (w out : List ℕ)
    → CString m a w
    → Renders m (a_string ∷ plain b' ' ∷ []) (a ∷ []) out
    → out ≡ w ++ (b' ' ∷ [])
word-Renders m a w out held (text_at b bs there text (itself c ends)) =
    ap (λ l. l ++ (b' ' ∷ [])) (CString-unique m a bs w there held)

line-Renders : (m : Memory) (out : List ℕ) → Renders m (plain b'\n' ∷ []) [] out → out ≡ b'\n' ∷ []
line-Renders m out (itself c ends) = refl

module _ (v w fuel buf screen : ℕ) (literal : String → ℕ) (m0 : Memory) (narrow : w ≤ 40) where
  -- The arguments are texts that printing leaves alone.
  abbrev pub AreHeld : List ℕ → List (List ℕ) → Type 0
  AreHeld [] [] = Unit
  AreHeld (p ∷ ps) (x ∷ xs) =
      (IsHeld v w fuel buf screen literal m0 p x × IsText x × (length x < w)) × AreHeld ps xs
  AreHeld _ _ = ⊥

  echo_script-Ready :
      (ps : List ℕ) (xs : List (List ℕ))
      → IsLinked v w fuel buf screen literal m0 "%s "
      → IsLinked v w fuel buf screen literal m0 "\n"
      → AreHeld ps xs
      → Ready v w fuel buf screen literal m0 (echo_script ps)
  unfolding echo_script is_format format is_piece are_pieces same_bytes
  echo_script-Ready [] [] word line h = (
    record {
      held = line;
      good = is_format-IsFormat 25 w "\n" refl (omega (arith, narrow)) (omega arith);
      steady = λ m e. refl;
      suits = tt;
    },
    tt,
  )
  echo_script-Ready [] (x ∷ xs) word line h = elim h [ ]
  echo_script-Ready (p ∷ ps) [] word line h = elim h [ ]
  echo_script-Ready (p ∷ ps) (x ∷ xs) word line ((held, text, short), rest) = (
    record {
      held = word;
      good = is_format-IsFormat 25 w "%s " refl (omega (arith, narrow)) (omega arith);
      steady = λ m e. refl;
      suits = ((x, held, text, short), tt);
    },
    echo_script-Ready ps xs word line rest,
  )

  -- What it plays is the words.
  echo_script-spoken :
      (ps : List ℕ) (xs : List (List ℕ)) (p q : ℕ × Terminal)
      → AreHeld ps xs
      → Plays v w fuel buf screen literal m0 (echo_script ps) p q
      → q ≡ (p.0, type_text p.0 (blank p.0) (spoken xs) p.1)
  unfolding echo_script spoken format
  echo_script-spoken [] [] p q h (out, r, e) =
      e ∙ ap (λ l. (p.0, type_text p.0 (blank p.0) l p.1)) (line-Renders m0 out r)
  echo_script-spoken [] (x ∷ xs) p q h plays = elim h [ ]
  echo_script-spoken (a ∷ ps) [] p q h plays = elim h [ ]
  echo_script-spoken (a ∷ ps) (x ∷ xs) p q ((held, text, short), rest) (out, r, plays) =
      let same = word-Renders m0 a x out held.text r in
      let next = echo_script-spoken ps xs (p.0, type_text p.0 (blank p.0) out p.1) q rest plays in
      next
      ∙ ap (λ l. (p.0, l))
          (sym (type_text-append p.0 (blank p.0) out (spoken xs) p.1)
            ∙ ap (λ l. type_text p.0 (blank p.0) l p.1)
                (ap (λ l. l ++ spoken xs) same ∙ append_assoc x (b' ' ∷ []) (spoken xs)))

  PointTo-AreHeld :
      (lo hi : ℕ) (ps : List ℕ) (xs : List (List ℕ))
      → ((y : ℕ) → lo ≤ y → y ≤ hi → kept v w fuel buf screen literal m0 y ≡ true)
      → All (λ x. IsText x × (length x < w)) xs
      → PointTo m0 lo hi ps xs
      → AreHeld ps xs
  PointTo-AreHeld lo hi [] [] away small h = tt
  PointTo-AreHeld lo hi [] (x ∷ xs) away small h = elim h [ ]
  PointTo-AreHeld lo hi (p ∷ ps) [] away small h = elim h [ ]
  PointTo-AreHeld lo hi (p ∷ ps) (x ∷ xs) away small h = (
    (
      record { text = h.0; away = λ y a b. away y (omega (arith, h.1)) (omega (arith, h.2)) },
      small.0.0,
      small.0.1,
    ),
    PointTo-AreHeld lo hi ps xs away small.1 h.3,
  )

pub commands-IsText : All (λ e. IsText (codes (e.0))) commands
commands-IsText = omega arith

pub linked-AreNamed :
    (v w fuel buf screen : ℕ) (literal : String → ℕ) (m : Memory) (cmd : ℕ) (bs : List ℕ)
    (table : List (String × Command))
    → All (λ e. IsText (codes (e.0))) table
    → All (IsLinked v w fuel buf screen literal m) (map (λ e. e.0) table)
    → AreNamed fuel m literal cmd bs table
linked-AreNamed v w fuel buf screen literal m cmd bs [] texts linked = tt
linked-AreNamed v w fuel buf screen literal m cmd bs (e ∷ table) texts linked = (
  (linked.0.text, texts.0),
  linked-AreNamed v w fuel buf screen literal m cmd bs table texts.1 linked.1,
)

-- The literals that the command "echo" needs.
abbrev pub echo_literals : List String
echo_literals = "%s " ∷ "\n" ∷ map (λ e. e.0) commands

module _ {a : Allocator} (d : Driver a) (v : ℕ) (x : List ℕ) (xs : List (List ℕ)) where
  -- The state after the command: the screen shows the words, and the shell is where it was.
  pub record Echoed (t : Terminal) (s s' : Shell d) : Type 0 where
    pub shows :
        Shows
          (s'.console)
          (type_text (s.console.attrib) (blank (s.console.attrib)) (spoken (x ∷ xs)) t)
    pub console : IsConsole v (s'.console)
    pub same_node : s'.node ≡ s.node
    pub same_heap : s'.heap ≡ s.heap

module _ {a : Allocator} (d : Driver a) (v w fuel buf screen buffer : ℕ) (literal : String → ℕ)
    (x : List ℕ) (xs : List (List ℕ)) where
  -- A line in the buffer whose words are "echo" and others, with the literals elsewhere.
  pub record IsEchoLine (bs : List ℕ) (s : Shell d) : Type 0 where
    pub reading : IsReading (literal " ") (b' ' ∷ []) fuel (s.console.mem) buffer bs
    pub fits : length bs ≤ 1023
    pub split : words (b' ' ∷ []) bs ≡ codes "echo" ∷ x ∷ xs
    pub away :
        (y : ℕ)
        → buffer ≤ y
        → y ≤ buffer + 1023
        → kept v w fuel buf screen literal (s.console.mem) y ≡ true
    pub linked : All (IsLinked v w fuel buf screen literal (s.console.mem)) echo_literals
    pub elsewhere :
        All
          (λ f.
            (y : ℕ)
            → literal f ≤ y
            → y ≤ literal f + length (codes f)
            → (y < buffer) ⊎ (buffer + 1023 < y))
          echo_literals

module _ {a : Allocator} (d : Driver a) (v w fuel buf screen path buffer : ℕ) (literal : String → ℕ)
    (mapped : ℕ → Bool) (fs_root : Option (d.Node)) (narrow : w ≤ 40) (patient : v ≤ fuel)
    (wide : 10 ≤ w) (enough : 1024 + w ≤ fuel)
    (apart : (x : ℕ) → buf ≤ x → x < buf + 1024 → within screen 4000 x ≡ false) (x : List ℕ)
    (xs : List (List ℕ)) (small : All (λ l. IsText l × (length l < w)) (x ∷ xs)) where
  -- The tokens are in place.
  run_words-echo :
      (argv : List ℕ) (s : Shell d) (t : Terminal)
      → ((y : ℕ)
          → buffer ≤ y
          → y ≤ buffer + 1023
          → kept v w fuel buf screen literal (s.console.mem) y ≡ true)
      → PointTo (s.console.mem) buffer (buffer + 1023) argv (codes "echo" ∷ x ∷ xs)
      → All (IsLinked v w fuel buf screen literal (s.console.mem)) echo_literals
      → IsConsole v (s.console)
      → s.console.textmemptr ≡ screen
      → Shows (s.console) t
      → (s' : Shell d) × (run_words d fuel buf path buffer literal mapped fs_root argv s ≡ done s')
        × Echoed d v x xs t s s'
  unfolding run_command named same_bytes
  run_words-echo [] s t away points linked console place shows = elim points [ ]
  run_words-echo (cmd ∷ []) s t away points linked console place shows = elim points.3 [ ]
  run_words-echo (cmd ∷ arg ∷ args) s t away points linked console place shows =
      let m = s.console.mem in
      let found : read_command fuel m literal cmd commands ≡ some echo =
        read_command-named fuel m literal cmd (codes "echo") commands points.0 (omega arith)
          (omega arith)
          (linked-AreNamed v w fuel buf screen literal m cmd (codes "echo") commands commands-IsText
            linked.1.1) in
      let held =
        PointTo-AreHeld v w fuel buf screen literal m narrow buffer (buffer + 1023) (arg ∷ args)
          (x ∷ xs) away small points.3 in
      let (c, q, run, plays, after) =
        run_script-Plays v w fuel buf screen literal m patient wide enough apart
          (echo_script (arg ∷ args)) (s.console.attrib, t) (s.console)
          (echo_script-Ready v w fuel buf screen literal m narrow (arg ∷ args) (x ∷ xs) linked.0
            linked.1.0 held)
          (record {
            console = console;
            shows = shows;
            colour = refl;
            place = place;
            agree = λ y k. refl;
          }) in
      let said =
        echo_script-spoken v w fuel buf screen literal m narrow (arg ∷ args) (x ∷ xs)
          (s.console.attrib, t) q held plays in
      (
        record s { console = c },
        rw (found, run) refl,
        record {
          shows = subst (λ r. Shows c r) (ap (λ r. r.1) said) after.shows;
          console = after.console;
          same_node = refl;
          same_heap = refl;
        },
      )

  -- The literals are still there once the line is cut.
  IsLinked-frame :
      (m m' : Memory) (fs : List String)
      → ((y : ℕ) → (y < buffer) ⊎ (buffer + 1023 < y) → m' y ≡ m y)
      → All
          (λ f.
            (y : ℕ)
            → literal f ≤ y
            → y ≤ literal f + length (codes f)
            → (y < buffer) ⊎ (buffer + 1023 < y))
          fs
      → All (IsLinked v w fuel buf screen literal m) fs
      → All (IsLinked v w fuel buf screen literal m') fs
  IsLinked-frame m m' [] same off h = tt
  IsLinked-frame m m' (f ∷ fs) same off h = (
    record {
      text = CString-frame m m' (literal f) (codes f) (λ y lo hi. same y (off.0 y lo hi)) h.0.text;
      away = h.0.away;
    },
    IsLinked-frame m m' fs same off.1 h.1,
  )

  -- A line of at most 1023 characters whose first word is "echo" is cut into its words, its command is
  -- found, and the screen then shows the other words, each with a blank behind it, and a new line; the
  -- shell's node and the heap are as they were.
  pub run_line-echo :
      (bs : List ℕ) (s : Shell d) (t : Terminal)
      → IsEchoLine d v w fuel buf screen buffer literal x xs bs s
      → IsConsole v (s.console)
      → s.console.textmemptr ≡ screen
      → Shows (s.console) t
      → (s' : Shell d) × (run_line d fuel buf path buffer literal mapped fs_root s ≡ done s')
        × Echoed d v x xs t s s'
  unfolding run_line
  run_line-echo bs s t h console place shows =
      let m = s.console.mem in
      let (argv, m', run, points, count, outside) =
        tokenize-words (literal " ") (b' ' ∷ []) fuel fuel buffer 0 bs m h.reading
          (omega (arith, h.fits)) in
      let cut : Shell d = record s { console = record (s.console) { mem = m' } } in
      let there =
        PointTo-widen m' buffer (buffer + length bs) buffer (buffer + 1023) argv
          (words (b' ' ∷ []) bs) (omega arith) (omega (arith, h.fits)) points in
      let off_screen : (y : ℕ)
          → within screen 4000 y ≡ true
          → (y < buffer) ⊎ (buffer + length bs ≤ y) =
        λ y on. elim (Bool-cases (within buffer 1024 y)) [
          | inl inside ↦
              absurd
                (ground (arith, on, h.away y (ground (arith, inside)) (ground (arith, inside))))
          | inr outside_ ↦ ground (arith, outside_, h.fits)
        ] in
      let (s', said, e) =
        run_words-echo argv cut t h.away
          (subst (λ l. PointTo m' buffer (buffer + 1023) argv l) h.split there)
          (IsLinked-frame m m' echo_literals (λ y off. outside y (ground (arith, off, h.fits)))
            h.elsewhere h.linked)
          (record {
            on = record { column = console.on.column; row = console.on.row };
            colour = console.colour;
            line = console.line;
          })
          place
          (Shows-frame (s.console) t m'
            (λ y on. outside y (off_screen y (subst (λ p. within p 4000 y ≡ true) place on)))
            shows) in
      (
        s',
        rw (run_line, run) said,
        record {
          shows = e.shows;
          console = e.console;
          same_node = e.same_node;
          same_heap = e.same_heap;
        },
      )
