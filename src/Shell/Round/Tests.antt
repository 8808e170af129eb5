-- ===== src/Shell/Round/Tests.antt =====
-- The keys of "ls" and of "echo hi" on a blank screen, in the root directory.
use mya_xos.Base.{ℕ, none, List, [], ◌∷◌, true, Bool, ◌&&◌, ◌==◌, if◌then◌else◌}
use Prim.Native.String.{String}
use mya_xos.Memory.{Memory}
use mya_xos.Allocator.Bump.{bump}
use mya_xos.Vfs.{Driver}
use mya_xos.Report.{codes}
use mya_xos.Report.Image.{literal, image, is_placed}
use mya_xos.Report.Blank.{cleared}
use mya_xos.Shell.Commands.{Shell, Command}
use mya_xos.Shell.Echo.{echo_literals}

abbrev idle : Driver bump
idle = record {
  Node = ℕ;
  flags = λ n. 2;
  length = λ n. 0;
  read = λ n. none;
  write = λ n. none;
  open_node = λ n. none;
  close_node = λ n. none;
  readdir = λ n. none;
  finddir = λ n. none;
}

-- "/" is at 0x3000.
abbrev low : Memory
low x = if x == 0x3000 then 47 else 0

abbrev texts : List String
texts = "MyaXOS %s> " ∷ " " ∷ echo_literals

abbrev place : String → ℕ
place = literal texts low

abbrev memory : Memory
memory = image texts low

abbrev waiting_shell : Shell idle
waiting_shell = record { node = none; heap = (0x200000, 0); console = cleared memory }

are_placed : List (String × Command) → Bool
are_placed [] = true
are_placed (e ∷ table) = is_placed texts low e.0 && are_placed table

abbrev keys : List ℕ
keys = 108 ∷ 115 ∷ 10 ∷ 104 ∷ []

abbrev echo_keys : List ℕ
echo_keys = codes "echo hi\nls"
