-- ===== src/Interrupts/Tests.antt =====
-- A kernel before its drivers, with a serial line that always answers.
use mya_xos.Base.{refl, [], false, arith}
use mya_xos.Timer.{started}
use mya_xos.Interrupts.{Cpu, ports_of, no_handler, install_drivers}
use mya_xos.Interrupts.Dispatch.{IsTalkative, IsRunning, install_drivers-IsRunning}

abbrev at_boot : Cpu
at_boot = record {
  irq_routines = λ k. no_handler;
  isrs_routines = λ k. no_handler;
  editing = false;
  timer = started;
  keyboard = record { shift = 0; alt = 0; ctrl = 0; typed = [] };
  editor = record {
    buffer = 0;
    collected = 0;
    want = 0;
    newline = 0;
    console = record {
      mem = λ x. 0;
      ports = record { answer = λ n p. 1; reads = 0; written = [] };
      textmemptr = 0xB8000;
      attrib = 15;
      csr_x = 0;
      csr_y = 0;
    };
  };
}

at_boot-IsTalkative : IsTalkative 1 (ports_of at_boot)
at_boot-IsTalkative = record {
  soon = λ n. (0, omega arith, record { busy = λ j h. absurd (omega arith); ready = ground arith });
}

install_drivers-IsRunning_example : IsRunning 1 (install_drivers at_boot)
install_drivers-IsRunning_example =
    install_drivers-IsRunning 1 at_boot (λ k. refl) at_boot-IsTalkative
