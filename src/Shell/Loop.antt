-- ===== src/Shell/Loop.antt =====
-- The loop of the shell: the prompt, the line, its tokens and the command.
use mya_xos.Base.{ℕ, zero, suc, Option, List, [], ◌∷◌, Bool, ltb, if◌then◌else◌}
use Prim.Native.String.{String}
use mya_xos.Memory.{null, store8, within}
use mya_xos.Allocator.{Allocator}
use mya_xos.Line.{Input, returned, waiting, kgets}
use mya_xos.Report.{stop, say}
use mya_xos.Vfs.{Run, done, Driver, ◌>>=◌}
use mya_xos.Shell.{tokenize}
use mya_xos.Shell.Commands.{Shell, commands, read_command, run_command, from_option, print}

-- `buffer` is the array with the line. `cmd` is NULL where there is no token.
module _ {a : Allocator} (d : Driver a) (fuel buf path buffer : ℕ) (literal : String → ℕ)
    (mapped : ℕ → Bool) (fs_root : Option (d.Node)) where
  abbrev pub run_words : List ℕ → Shell d → Run (Shell d)
  run_words [] s = from_option (read_command fuel s.console.mem literal null commands) >>= λ c.
      run_command d fuel buf path literal mapped fs_root c null [] s
  run_words (cmd ∷ args) s =
      from_option (read_command fuel s.console.mem literal cmd commands) >>= λ c.
      run_command d fuel buf path literal mapped fs_root c cmd args s

  -- A line that is not empty.
  unfoldable pub run_line : Shell d → Run (Shell d)
  run_line s = from_option (tokenize fuel fuel s.console.mem (literal " ") buffer 0) >>= λ t.
      run_words t.0 (record s { console = record (s.console) { mem = t.1 } })

  -- What is done with what `kgets` returns. `next` is the rest of the loop.
  unfoldable pub take_line :
      (next : List ℕ → Shell d → Run (Shell d)) → Shell d → Input → Run (Shell d)
  take_line next s (waiting e) = done (record s { console = e.console })
  take_line next s Input.out_of_fuel = Run.out_of_fuel
  take_line next s (returned e rest) =
      let s2 = record s { console = e.console } in
      (if ltb (e.collected) 1 then done s2 else run_line s2) >>= next rest

  -- The keys come one after another; `done` is the shell that waits for the next one.
  unfoldable pub shell_loop : (rounds : ℕ) → List ℕ → Shell d → Run (Shell d)
  shell_loop zero keys s = Run.out_of_fuel
  shell_loop (suc rounds) keys s =
      print d fuel buf path literal mapped fs_root (say "MyaXOS %s> " (λ m. path ∷ []) stop) s
      >>= λ s1. take_line (shell_loop rounds) s1 (kgets fuel buffer 1023 keys (s1.console))

  -- The shell begins in the root. The array `path` is filled with 0 behind the slash.
  pub start_shell : (rounds : ℕ) → List ℕ → Shell d → Run (Shell d)
  start_shell rounds keys s = shell_loop rounds keys (record s {
    node = fs_root;
    console = record (s.console) {
      mem = store8 (λ x. if within path 1024 x then 0 else s.console.mem x) path b'/';
    };
  })
