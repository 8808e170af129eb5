-- ===== src/Shell/Round.antt =====
-- One round of the shell's loop: the prompt, the line that the keys make, and its command.
pub mod Prompt
pub mod Read
pub mod Choice
pub mod Echo
mod Tests
use mya_xos.Base.{ℕ, suc, ◌+◌, ◌<◌, ◌≤◌, ◌≡◌, ◌⊎◌, Bool, Option, List, [], ◌∷◌, true, length, All}
use Prim.Native.String.{String}
use mathlib.Core.Path.{subst}
use mya_xos.Memory.{Memory, within, CString}
use mya_xos.Str.Text.{CString-frame}
use mya_xos.Str.Compare.{IsText}
use mya_xos.Allocator.{Allocator}
use mya_xos.Vga.{Console, blank}
use mya_xos.Vga.Terminal.{Terminal, Shows}
use mya_xos.Vga.Puts.{IsConsole, type_text}
use mya_xos.Line.{Editor, Input, returned, waiting, kgets}
use mya_xos.Line.Accept.{accept, kgets-accept}
use mya_xos.Line.Held.{onto}
use mya_xos.Print.{printed}
use mya_xos.Report.{codes, Script, say, stop, run_script}
use mya_xos.Report.Formats.{format, is_format, is_piece, are_pieces, same_bytes, is_format-IsFormat}
use mya_xos.Report.Play.{
  HoldsText, IsHeld, IsLinked, kept, Ready, Plays, IsPlaying, run_script-Plays,
}
use mya_xos.Vfs.{Run, done, Driver, ◌>>=◌}
use mya_xos.Shell.Words.{words, PointTo, IsReading}
use mya_xos.Shell.Commands.{Command, commands, run_command, Shell, print}
use mya_xos.Shell.Actions.{action}
use mya_xos.Shell.Dispatch.{IsApart, IsLine, run_line-named}
use mya_xos.Shell.Loop.{run_line, take_line, shell_loop}

module _ {a : Allocator} (d : Driver a) (v w fuel buf screen path buffer : ℕ)
    (literal : String → ℕ) where
  abbrev pub prompt : Script
  prompt = say "MyaXOS %s> " (λ m. path ∷ []) stop

  -- Neither the screen nor the two buffers.
  abbrev pub IsElsewhere : Memory → ℕ → Type 0
  IsElsewhere m x =
      (kept v w fuel buf screen literal m x ≡ true) × ((x < buffer) ⊎ (buffer + 1024 ≤ x))

  -- The state after the prompt and the line: the shell is where it was, and memory as well, but for the
  -- screen and the two buffers.
  pub record IsSame (s s' : Shell d) : Type 0 where
    pub node : s'.node ≡ s.node
    pub heap : s'.heap ≡ s.heap
    pub mem : (x : ℕ) → IsElsewhere (s.console.mem) x → s'.console.mem x ≡ s.console.mem x

  -- A literal outside the buffer of the line.
  abbrev pub IsOutside : Memory → String → Type 0
  IsOutside m f =
      IsLinked v w fuel buf screen literal m f
      × ((y : ℕ)
          → literal f ≤ y
          → y ≤ literal f + length (codes f)
          → (y < buffer) ⊎ (buffer + 1024 ≤ y))

  -- The shell before the prompt.
  pub record IsPrompting (t : Terminal) (s : Shell d) : Type 0 where
    pub console : IsConsole v (s.console)
    pub place : s.console.textmemptr ≡ screen
    pub shows : Shows (s.console) t
    pub format_linked : IsLinked v w fuel buf screen literal (s.console.mem) "MyaXOS %s> "
    pub directory : HoldsText v w fuel buf screen literal (s.console.mem) path
    pub real : 0 < buffer
    pub away :
        (y : ℕ)
        → buffer ≤ y
        → y ≤ buffer + 1023
        → kept v w fuel buf screen literal (s.console.mem) y ≡ true
    pub blank_linked : IsOutside (s.console.mem) " "
    pub names : All (λ e. IsOutside (s.console.mem) (e.0)) commands

module _ {a : Allocator} (d : Driver a) (v w fuel buf screen path buffer : ℕ) (literal : String → ℕ)
    (mapped : ℕ → Bool) (fs_root : Option (d.Node)) where
  abbrev pub run_shell : ℕ → List ℕ → Shell d → Run (Shell d)
  run_shell = shell_loop d fuel buf path buffer literal mapped fs_root

  -- The shell that runs a command, and the command with its words in memory `m'`.
  pub record IsRun (rounds : ℕ) (keys rest line word : List ℕ) (others : List (List ℕ))
      (s s' : Shell d) (cmd : ℕ) (args : List ℕ) (m' : Memory) : Type 0 where
    pub same : IsSame d v w fuel buf screen path buffer literal s s'
    pub line_held : CString (s'.console.mem) buffer line
    pub points : PointTo m' buffer (buffer + length line) (cmd ∷ args) (word ∷ others)
    pub cut : (x : ℕ) → (x < buffer) ⊎ (buffer + length line ≤ x) → m' x ≡ s'.console.mem x
    pub runs :
        run_shell (suc rounds) keys s
        ≡ action d fuel buf path literal mapped fs_root word cmd args
            (record s' { console = record (s'.console) { mem = m' } })
          >>= run_shell rounds rest

module _ {a : Allocator} (d : Driver a) (v : ℕ) where
  -- The state after a round that shows a text: the screen shows it, and the shell is where it was.
  pub record HasShown (bs : List ℕ) (t : Terminal) (s s' : Shell d) : Type 0 where
    pub shows : Shows (s'.console) (type_text (s.console.attrib) (blank (s.console.attrib)) bs t)
    pub console : IsConsole v (s'.console)
    pub same_node : s'.node ≡ s.node
    pub same_heap : s'.heap ≡ s.heap
