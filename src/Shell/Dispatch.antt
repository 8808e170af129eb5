-- ===== src/Shell/Dispatch.antt =====
-- From a line to its command: the words are cut, and the first one names the command.
use mya_xos.Base.{
  ℕ, ◌+◌, ◌<◌, ◌≤◌, ◌≡◌, ◌⊎◌, refl, some, Option, List, [], ◌∷◌, Bool, arith, length, All,
}
use Prim.Native.String.{String}
use mathlib.Core.Path.{subst}
use mya_xos.Memory.{Memory, CString}
use mya_xos.Str.Text.{CString-frame}
use mya_xos.Str.Compare.{IsText}
use mya_xos.Allocator.{Allocator}
use mya_xos.Report.{codes}
use mya_xos.Vfs.{Driver}
use mya_xos.Shell.Words.{words, PointTo, IsReading, tokenize-words}
use mya_xos.Shell.Commands.{Command, commands, read_command, run_command, Shell}
use mya_xos.Shell.Naming.{named, AreNamed, read_command-named}
use mya_xos.Shell.Loop.{run_words, run_line}

commands-AreTexts : All (λ e. IsText (codes (e.0))) commands
commands-AreTexts = omega arith

-- A name in memory that does not touch the line.
abbrev pub IsApart : (literal : String → ℕ) → Memory → (lo hi : ℕ) → String → Type 0
IsApart literal m lo hi f =
    CString m (literal f) (codes f)
    × ((y : ℕ) → literal f ≤ y → y ≤ literal f + length (codes f) → (y < lo) ⊎ (hi ≤ y))

module _ {a : Allocator} (d : Driver a) (fuel buffer : ℕ) (literal : String → ℕ) where
  -- A line with a word in it, and the names of the commands.
  pub record IsLine (bs word : List ℕ) (rest : List (List ℕ)) (s : Shell d) : Type 0 where
    pub reading : IsReading (literal " ") (b' ' ∷ []) fuel (s.console.mem) buffer bs
    pub split : words (b' ' ∷ []) bs ≡ word ∷ rest
    pub text : IsText word
    pub short : length word < fuel
    pub names :
        All (λ e. IsApart literal (s.console.mem) buffer (buffer + length bs) (e.0)) commands

-- The names are still there once the line is cut.
IsApart-AreNamed :
    (fuel : ℕ) (literal : String → ℕ) (m m' : Memory) (lo hi cmd : ℕ) (bs : List ℕ)
    (table : List (String × Command))
    → ((x : ℕ) → (x < lo) ⊎ (hi ≤ x) → m' x ≡ m x)
    → All (λ e. IsText (codes (e.0))) table
    → All (λ e. IsApart literal m lo hi (e.0)) table
    → AreNamed fuel m' literal cmd bs table
IsApart-AreNamed fuel literal m m' lo hi cmd bs [] outside texts h = tt
IsApart-AreNamed fuel literal m m' lo hi cmd bs (e ∷ table) outside texts h = (
  (
    CString-frame m m' (literal (e.0)) (codes (e.0)) (λ y a b. outside y (h.0.1 y a b)) h.0.0,
    texts.0,
  ),
  IsApart-AreNamed fuel literal m m' lo hi cmd bs table outside texts.1 h.1,
)

module _ {a : Allocator} (d : Driver a) (fuel buf path buffer : ℕ) (literal : String → ℕ)
    (mapped : ℕ → Bool) (fs_root : Option (d.Node)) where
  -- The tokens are in place.
  run_words-named :
      (argv bs word : List ℕ) (rest : List (List ℕ)) (lo hi : ℕ) (m : Memory) (s : Shell d)
      → PointTo (s.console.mem) lo hi argv (word ∷ rest)
      → ((x : ℕ) → (x < buffer) ⊎ (buffer + length bs ≤ x) → s.console.mem x ≡ m x)
      → IsText word
      → length word < fuel
      → All (λ e. IsApart literal m buffer (buffer + length bs) (e.0)) commands
      → (cmd : ℕ) × (args : List ℕ) × PointTo (s.console.mem) lo hi (cmd ∷ args) (word ∷ rest)
        × (run_words d fuel buf path buffer literal mapped fs_root argv s
            ≡ run_command d fuel buf path literal mapped fs_root (named word commands) cmd args s)
  run_words-named [] bs word rest lo hi m s points outside text short names = elim points [ ]
  run_words-named (cmd ∷ args) bs word rest lo hi m s points outside text short names =
      let found : read_command fuel (s.console.mem) literal cmd commands
          ≡ some (named word commands) =
        read_command-named fuel (s.console.mem) literal cmd word commands points.0 text short (
          IsApart-AreNamed fuel literal m (s.console.mem) buffer (buffer + length bs) cmd word
            commands outside commands-AreTexts names) in
      (cmd, args, points, rw found refl)

  -- A line with a word in it is cut into its words, and then the shell does what the command does that
  -- the first word names, on pointers to the others; the line alone has been written to.
  pub run_line-named :
      (bs word : List ℕ) (rest : List (List ℕ)) (s : Shell d)
      → IsLine d fuel buffer literal bs word rest s
      → (cmd : ℕ) × (args : List ℕ) × (m' : Memory) × PointTo m' buffer
          (buffer + length bs)
          (cmd ∷ args)
          (word ∷ rest)
        × ((x : ℕ) → (x < buffer) ⊎ (buffer + length bs ≤ x) → m' x ≡ s.console.mem x)
        × (run_line d fuel buf path buffer literal mapped fs_root s
            ≡ run_command d fuel buf path literal mapped fs_root
                (named word commands)
                cmd
                args
                (record s { console = record (s.console) { mem = m' } }))
  unfolding run_line
  run_line-named bs word rest s h =
      let (argv, m', run, points, count, outside) =
        tokenize-words (literal " ") (b' ' ∷ []) fuel fuel buffer 0 bs (s.console.mem) h.reading
          (omega (arith, h.reading.enough)) in
      let cut : Shell d = record s { console = record (s.console) { mem = m' } } in
      let (cmd, args, there, done_) =
        run_words-named argv bs word rest buffer (buffer + length bs) (s.console.mem) cut
          (subst (λ l. PointTo m' buffer (buffer + length bs) argv l) h.split points) outside h.text
          h.short h.names in
      (cmd, args, m', there, outside, rw (run_line, run) done_)
