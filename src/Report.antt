-- ===== src/Report.antt =====
-- Code that only prints: sequences of calls of `kprintf` and of the colours, as they stand in
-- kernel/core/panic.c, mem.c, multiboot.c and shell.c. The address of a string literal is a parameter.
pub mod Formats
pub mod Play
pub mod Image
pub mod Blank
pub mod Panic
pub mod Texts
pub mod Faults
pub mod Exceptions
mod Tests
use mya_xos.Base.{some, none, Option, ℕ, ◌≡◌, List, [], ◌∷◌, Bool, if◌then◌else◌}
use Prim.Native.String.{String}
use Prim.Native.Char.{code}
use mya_xos.Memory.{Memory}
use mya_xos.Vga.{Console, puts, settextcolor, resettextcolor}
use mya_xos.Print.{Printed, printed, no_argument, overrun, out_of_fuel, kprintf}
use mya_xos.Print.Pieces.{Piece, plain, escaped, a_string, a_char, a_hex, a_number, behind_percent}

-- The bytes of a literal.
abbrev pub codes : String → List ℕ
codes String.[] = []
codes (String.◌∷◌ c s) = code c ∷ codes s

-- `say format args rest` is a call of `kprintf`, whose arguments are read from memory at the call;
-- `put_text` is a call of `puts`;
-- `unfinished` is a loop with no round left.
pub data Script : Type 0 where
  stop : Script
  say : String → (Memory → List ℕ) → Script → Script
  put_text : (text : ℕ) → Script → Script
  colours : (fore back : ℕ) → Script → Script
  default_colours : Script → Script
  when : (Memory → Bool) → Script → Script → Script
  unfinished : Script

infixl 5 ◌>>=◌
abbrev pub ◌>>=◌ {ℓ κ} : {A : Type ℓ} {B : Type κ} → Printed A → (A → Printed B) → Printed B
printed a >>= f = f a
no_argument >>= f = no_argument
overrun >>= f = overrun
out_of_fuel >>= f = out_of_fuel

abbrev pub from_text {ℓ} : {A : Type ℓ} → Option A → Printed A
from_text none = out_of_fuel
from_text (some x) = printed x

-- `buf` is the buffer of `kprintf`.
module _ (fuel buf : ℕ) (literal : String → ℕ) where
  pub run_script : Script → Console → Printed Console
  run_script stop s = printed s
  run_script (say f args rest) s = kprintf fuel buf (literal f) (args s.mem) s >>= run_script rest
  run_script (put_text text rest) s = from_text (puts fuel text s) >>= run_script rest
  run_script (colours fore back rest) s = run_script rest (settextcolor fore back s)
  run_script (default_colours rest) s = run_script rest (resettextcolor s)
  run_script (when test body rest) s =
      let inner = run_script body s in (if test s.mem then inner else printed s) >>= run_script rest
  run_script unfinished s = out_of_fuel
