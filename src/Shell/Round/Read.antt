-- ===== src/Shell/Round/Read.antt =====
-- A round of the loop up to the command: the prompt and the line.
use mya_xos.Base.{
  ℕ, suc, ◌+◌, ◌<◌, ◌≤◌, ◌≡◌, refl, sym, ap, ◌∙◌, Bool, some, Option, List, [], ◌∷◌, ◌++◌, false,
  arith, ltb, length, All,
}
use Prim.Native.String.{String}
use mathlib.Core.Path.{subst}
use mya_xos.Memory.{within, CString}
use mya_xos.Str.Text.{CString-frame}
use mya_xos.Allocator.{Allocator}
use mya_xos.Vga.Terminal.{Terminal}
use mya_xos.Vga.Puts.{on_screen}
use mya_xos.Line.{Input, kgets}
use mya_xos.Line.Accept.{accept}
use mya_xos.Line.Held.{onto}
use mya_xos.Vfs.{Run, done, Driver, ◌>>=◌}
use mya_xos.Shell.Words.{words, IsReading}
use mya_xos.Shell.Commands.{Shell, print}
use mya_xos.Shell.Loop.{run_line, take_line, shell_loop}
use mya_xos.Line.Shown.{echoes, IsTyped, IsTyped-trans}
use mya_xos.Line.Made.{kgets-IsMade}
use mya_xos.Shell.Round.{prompt, IsSame, IsPrompting, run_shell}
use mya_xos.Shell.Round.Prompt.{prompt_text, prompt-done}

length-onto : (l cs : List ℕ) → length (onto l cs) ≡ length l + length cs
length-onto [] cs = omega arith
length-onto (c ∷ l) cs = omega (arith, length-onto l (c ∷ cs))

-- A line with a word in it is not empty.
line-ne :
    (ds l word : List ℕ) (rest : List (List ℕ)) (n : ℕ)
    → n ≡ length l
    → words ds (onto l []) ≡ word ∷ rest
    → ltb n 1 ≡ false
unfolding words
line-ne ds [] word rest n e h = absurd (omega (arith, ap length h))
line-ne ds (c ∷ l) word rest n e h = ground (arith, e)

module _ {a : Allocator} (d : Driver a) (v w fuel buf screen path buffer : ℕ)
    (literal : String → ℕ) where
  -- The shell with the line `line` in its buffer, and with the directory `dir` on the prompt.
  pub record IsRead (keys dir line : List ℕ) (t : Terminal) (s s' : Shell d) : Type 0 where
    pub same : IsSame d v w fuel buf screen path buffer literal s s'
    pub text : CString (s'.console.mem) buffer line
    pub fits : length line ≤ 1023
    pub typed : IsTyped v (prompt_text dir ++ echoes 1023 keys []) t (s.console) (s'.console)

module _ {a : Allocator} (d : Driver a) (v w fuel buf screen path buffer : ℕ) (literal : String → ℕ)
    (mapped : ℕ → Bool) (fs_root : Option (d.Node)) (narrow : w ≤ 40) (patient : v ≤ fuel)
    (wide : 10 ≤ w) (enough : 1024 + w ≤ fuel)
    (apart : (x : ℕ) → buf ≤ x → x < buf + 1024 → within screen 4000 x ≡ false) where
  abbrev taken : ℕ → Shell d → Input → Run (Shell d)
  taken rounds =
      take_line d fuel buf path buffer literal mapped fs_root
        (run_shell d v w fuel buf screen path buffer literal mapped fs_root rounds)

  -- Behind the prompt.
  shell_loop-take_line :
      (rounds : ℕ) (keys : List ℕ) (s s1 : Shell d)
      → print d fuel buf path literal mapped fs_root
          (prompt d v w fuel buf screen path buffer literal)
          s
        ≡ done s1
      → run_shell d v w fuel buf screen path buffer literal mapped fs_root (suc rounds) keys s
        ≡ taken rounds s1 (kgets fuel buffer 1023 keys (s1.console))
  unfolding shell_loop
  shell_loop-take_line rounds keys s s1 e =
      ap (λ r. r >>= λ s2. taken rounds s2 (kgets fuel buffer 1023 keys (s2.console))) e

  -- A round in which the keys make a line with a word in it runs that line.
  pub shell_loop-IsRead :
      (rounds : ℕ) (keys l rest dir word : List ℕ) (others : List (List ℕ)) (t : Terminal)
      (s : Shell d)
      → IsPrompting d v w fuel buf screen path buffer literal t s
      → CString (s.console.mem) path dir
      → All (λ ch. ch < 256) keys
      → accept 1023 keys [] ≡ some (l, rest)
      → words (b' ' ∷ []) (onto l []) ≡ word ∷ others
      → (s' : Shell d) × IsRead d v w fuel buf screen path buffer literal keys dir
          (onto l [])
          t
          s
          s'
        × (run_shell d v w fuel buf screen path buffer literal mapped fs_root (suc rounds) keys s
            ≡ run_line d fuel buf path buffer literal mapped fs_root s'
              >>= run_shell d v w fuel buf screen path buffer literal mapped fs_root rounds rest)
  unfolding take_line
  shell_loop-IsRead rounds keys l rest dir word others t s h there small made split =
      let (c, prompted, shown, same) =
        prompt-done d v w fuel buf screen path buffer literal mapped fs_root narrow patient wide
          enough apart dir t s h there in
      let step = shell_loop-take_line rounds keys s (record s { console = c }) prompted in
      let place : c.textmemptr ≡ screen = shown.3 ∙ h.place in
      let off : (x : ℕ) → buffer ≤ x → x ≤ buffer + 1023 → on_screen c x ≡ false = λ x lo hi.
        subst (λ p. within p 4000 x ≡ false) (sym place) (ground (arith, h.away x lo hi)) in
      let (e, run, m) =
        kgets-IsMade v fuel buffer 1023 keys l rest c _ shown.0 shown.1 patient small off made in
      (
        record s { console = e.console },
        record {
          same = record {
            node = refl;
            heap = refl;
            mem = λ x o.
                m.outside x (subst (λ p. within p 4000 x ≡ false) (sym place) (ground (arith, o.0)))
                  (ground (arith, o.1))
                ∙ same x o.0;
          };
          text = m.text;
          fits = omega (arith, m.room, length-onto l []);
          typed =
              IsTyped-trans v (prompt_text dir) (echoes 1023 keys []) t (s.console) c e.console
                shown.2 shown.3 m.typed;
        },
        step
            ∙ ap (taken rounds (record s { console = c })) run
            ∙ rw (line-ne (b' ' ∷ []) l word others e.collected m.count split) refl,
      )

module _ {a : Allocator} (d : Driver a) (v w fuel buf screen path buffer : ℕ) (literal : String → ℕ)
    (enough : 1024 + w ≤ fuel) (wide : 10 ≤ w) where
  -- The line can be cut into words.
  pub prompted-IsReading :
      (line : List ℕ) (t : Terminal) (s s' : Shell d)
      → IsPrompting d v w fuel buf screen path buffer literal t s
      → IsSame d v w fuel buf screen path buffer literal s s'
      → CString (s'.console.mem) buffer line
      → length line ≤ 1023
      → IsReading (literal " ") (b' ' ∷ []) fuel (s'.console.mem) buffer line
  prompted-IsReading line t s s' h same text fits = record {
    real = h.real;
    text = text;
    delimiters =
        CString-frame (s.console.mem) (s'.console.mem) (literal " ") (b' ' ∷ [])
          (λ y lo hi. same.mem y (h.blank_linked.0.away y lo hi, h.blank_linked.1 y lo hi))
          h.blank_linked.0.text;
    apart = ground (
      arith,
      fits,
      h.blank_linked.1 (literal " ") (omega arith) (omega arith),
      h.blank_linked.1 (literal " " + 1) (omega arith) (omega arith),
    );
    enough = omega (arith, fits, enough, wide);
  }
