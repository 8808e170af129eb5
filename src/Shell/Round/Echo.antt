-- ===== src/Shell/Round/Echo.antt =====
-- A round of the loop with the command "echo", as it shows on the screen.
use Prim.Native.String.{String}
use mya_xos.Memory.{Memory}
use mya_xos.Allocator.{Allocator}
use mya_xos.Vga.Terminal.{Terminal}
use mya_xos.Shell.Commands.{Shell}
