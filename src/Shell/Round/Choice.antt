-- ===== src/Shell/Round/Choice.antt =====
-- A round of the loop: the line and the command that its first word names.
use Prim.Native.String.{String}
use mya_xos.Memory.{Memory}
use mya_xos.Allocator.{Allocator}
use mya_xos.Vga.Terminal.{Terminal}
use mya_xos.Shell.Commands.{Shell}
