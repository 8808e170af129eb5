-- ===== src/Interrupts/Dispatch.antt =====
-- The handlers of a kernel whose drivers are installed.
use mya_xos.Base.{ℕ, ◌<◌, ◌≡◌, ◌∙◌, arith, ◌==◌, if◌then◌else◌}
use mya_xos.Ports.{Ports}
use mya_xos.Serial.Wait.{IsReadyAt, serial_install-answer}
use mya_xos.Timer.{timer_phase, timer_phase-answer}
use mya_xos.Interrupts.{
  Handler, no_handler, on_timer, on_keyboard, on_serial, Cpu, install_drivers, ports_of,
  irq_install_handler, timer_install, keyboard_install, install_serial,
}

-- From every state on a byte is there after fewer than `w` questions.
pub record IsTalkative (w : ℕ) (p : Ports) : Type 0 where
  pub soon : (n : ℕ) → (k : ℕ) × (k < w) × IsReadyAt 1 k (record p { reads = n })

abbrev installed : ℕ → Handler
installed k =
    if k == 0
    then on_timer
    else if k == 1
    then on_keyboard
    else if k == 4
    then on_serial
    else no_handler

pub record IsRunning (w : ℕ) (s : Cpu) : Type 0 where
  pub drivers : (k : ℕ) → k < 16 → s.irq_routines k ≡ installed k
  pub line : IsTalkative w (ports_of s)

IsTalkative-answer : (w : ℕ) (p q : Ports) → q.answer ≡ p.answer → IsTalkative w p → IsTalkative w q
IsTalkative-answer w p q e h = record {
  soon = λ n.
      let (k, lt, r) = h.soon n in
      (k, lt, record { busy = λ j hj. rw e (r.busy j hj); ready = rw e r.ready });
}

-- The drivers that `main` installs, where no handler was there before.
pub install_drivers-IsRunning :
    (w : ℕ) (s : Cpu)
    → ((k : ℕ) → s.irq_routines k ≡ no_handler)
    → IsTalkative w (ports_of s)
    → IsRunning w (install_drivers s)
unfolding install_drivers timer_install keyboard_install install_serial irq_install_handler
install_drivers-IsRunning w s empty t = record {
  drivers = λ k h. ground (arith, empty k);
  line =
      IsTalkative-answer w (ports_of s) (ports_of (install_drivers s))
        (serial_install-answer (timer_phase 100 (ports_of s)) ∙ timer_phase-answer 100 (ports_of s))
        t;
}
