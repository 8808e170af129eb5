-- ===== src/Interrupts.antt =====
-- The calls of interrupt handlers: kernel/core/irq.c and kernel/core/isrs.c, the handlers that the kernel
-- installs (timer.c, kbd.c, serial.c, mem.c), and their installation. A function pointer is a tag.
-- What an exception without a handler prints is `unhandled` of Report.Panic.
pub mod Dispatch
mod Tests
use mya_xos.Base.{
  ℕ, ◌-◌, ◌≡◌, some, none, Option, List, [], ◌∷◌, false, Bool, ◌==◌, ltb, leb, if◌then◌else◌,
}
use mya_xos.Panic.{Outcome, ok, halted}
use mya_xos.Ports.{Ports, outportb}
use mya_xos.Serial.{serial_install, serial_recv, serial_fix}
use mya_xos.Timer.{Timer, timer_handler, timer_phase}
use mya_xos.Keyboard.{Keyboard, keyboard_handler}
use mya_xos.Vga.{Console, writech}
use mya_xos.Line.{Editor, kgets_handler}

-- `no_handler` is NULL.
pub data Handler : Type 0 where
  no_handler on_timer on_keyboard on_serial on_page_fault : Handler

-- `irq_routines`, `isrs_routines`, whether `keyboard_buffer_handler` is set, which is then
-- `kgets_handler`, the drivers, and the line editor with the console and its ports.
pub record Cpu : Type 0 where
  pub irq_routines : ℕ → Handler
  pub isrs_routines : ℕ → Handler
  pub editing : Bool
  pub timer : Timer
  pub keyboard : Keyboard
  pub editor : Editor

abbrev pub ports_of : Cpu → Ports
ports_of s = s.editor.console.ports

abbrev pub with_console : Console → Cpu → Cpu
with_console c s = record s { editor = record (s.editor) { console = c } }

abbrev pub with_ports : Ports → Cpu → Cpu
with_ports p s = with_console (record (s.editor.console) { ports = p }) s

abbrev set_handler : ℕ → Handler → (ℕ → Handler) → (ℕ → Handler)
set_handler n h routines = λ k. if k == n then h else routines k

pub irq_install_handler : (irq : ℕ) → Handler → Cpu → Cpu
irq_install_handler irq h s = record s { irq_routines = set_handler irq h s.irq_routines }

pub irq_uninstall_handler : (irq : ℕ) → Cpu → Cpu
irq_uninstall_handler irq s = record s { irq_routines = set_handler irq no_handler s.irq_routines }

pub isrs_install_handler : (isrs : ℕ) → Handler → Cpu → Cpu
isrs_install_handler isrs h s = record s { isrs_routines = set_handler isrs h s.isrs_routines }

pub isrs_uninstall_handler : (isrs : ℕ) → Cpu → Cpu
isrs_uninstall_handler isrs s = record s {
  isrs_routines = set_handler isrs no_handler s.isrs_routines;
}

pub timer_install : Cpu → Cpu
timer_install s =
    let s = irq_install_handler 0 on_timer s in with_ports (timer_phase 100 (ports_of s)) s

pub keyboard_install : Cpu → Cpu
keyboard_install s = record (irq_install_handler 1 on_keyboard s) { editing = false }

-- `serial_install` with the handler that it installs before its last write.
pub install_serial : Cpu → Cpu
install_serial s =
    let s = irq_install_handler 4 on_serial s in with_ports (serial_install (ports_of s)) s

-- The hardware drivers, in the order of `main`.
pub install_drivers : Cpu → Cpu
install_drivers s = install_serial (keyboard_install (timer_install s))

-- `keyboard_buffer_handler` on a character. `none` is a serial line that is not ready within the fuel.
pub edit : (fuel c : ℕ) → Cpu → Option Cpu
edit fuel c s = elim (kgets_handler fuel c s.editor) [
  | none ↦ none
  | some e ↦ some (record s { editor = e })
]

-- `putch`: the character goes to the handler, or to the screen where there is none.
pub putch : (fuel c : ℕ) → Cpu → Option Cpu
putch fuel c s =
    let shown : Option Cpu = elim (writech fuel c s.editor.console) [
      | none ↦ none
      | some c' ↦ some (with_console c' s)
    ] in
    if s.editing then edit fuel c s else shown

-- The calls of `putch`, the latest character first in the list.
pub put_all : (fuel : ℕ) → List ℕ → Cpu → Option Cpu
put_all fuel [] s = some s
put_all fuel (c ∷ cs) s = elim (put_all fuel cs s) [ none ↦ none | some s' ↦ putch fuel c s' ]

-- The byte `c` that was received.
pub deliver : (fuel c : ℕ) → Cpu → Option Cpu
deliver fuel c s = if s.editing then edit fuel (serial_fix c) s else some s

-- `none` is a serial line on which no byte comes within the fuel, or that is not ready for what is echoed.
pub serial_handler : (fuel : ℕ) → Cpu → Option Cpu
serial_handler fuel s = elim (serial_recv fuel (ports_of s)) [
  | none ↦ none
  | some r ↦ deliver fuel r.0 (with_ports r.1 s)
]

-- What the keyboard's handler types is handed on at once.
pub handle_keyboard : (fuel : ℕ) → Cpu → Option Cpu
handle_keyboard fuel s =
    let (p, k) = keyboard_handler (ports_of s) (record (s.keyboard) { typed = [] }) in
    put_all fuel k.typed (with_ports p (record s { keyboard = record k { typed = [] } }))

abbrev returns : Option Cpu → Option (Outcome Cpu)
returns none = none
returns (some s) = some (ok s)

-- A handler that is called. A page fault is no hardware interrupt, and stops the kernel.
pub call_handler : (fuel : ℕ) → Handler → Cpu → Option (Outcome Cpu)
call_handler fuel no_handler s = some (ok s)
call_handler fuel on_timer s = some (ok (record s { timer = timer_handler s.timer }))
call_handler fuel on_keyboard s = returns (handle_keyboard fuel s)
call_handler fuel on_serial s = returns (serial_handler fuel s)
call_handler fuel on_page_fault s = some halted

-- The end of interrupt, to the second controller first where it raised the interrupt.
pub end_of_interrupt : (int_no : ℕ) → Ports → Ports
end_of_interrupt int_no p = outportb 0x20 0x20 (if leb 40 int_no then outportb 0xA0 0x20 p else p)

pub irq_handler : (fuel int_no : ℕ) → Cpu → Option (Outcome Cpu)
irq_handler fuel int_no s = elim (call_handler fuel (s.irq_routines (int_no - 32)) s) [
  | none ↦ none
  | some (ok s') ↦ some (ok (with_ports (end_of_interrupt int_no (ports_of s')) s'))
  | some stop ↦ some stop
]

-- An exception without a handler stops the kernel; other numbers are passed over.
pub fault_handler : (fuel int_no : ℕ) → Cpu → Option (Outcome Cpu)
fault_handler fuel int_no s =
    if ltb int_no 32
    then elim (s.isrs_routines int_no) [
      | no_handler ↦ some halted
      | _ ↦ call_handler fuel (s.isrs_routines int_no) s
    ]
    else some (ok s)

-- Interrupts one after another.
pub interrupts : (fuel : ℕ) → List ℕ → Cpu → Option (Outcome Cpu)
interrupts fuel [] s = some (ok s)
interrupts fuel (i ∷ is) s = elim (irq_handler fuel i s) [
  | none ↦ none
  | some (ok s') ↦ interrupts fuel is s'
  | some stop ↦ some stop
]
