-- ===== src/Kernel/Main.antt =====
-- `main` of kernel/main.c: the ramdisk, the tables of the processor, the drivers, the paging and the
-- shell, one after another, on one memory and one set of ports.
use mya_xos.Base.{ℕ, List, Bool}
use Prim.Native.String.{String}
use mya_xos.Memory.{load32}
use mya_xos.Allocator.{Allocator}
use mya_xos.Descriptors.{
  GdtEntry, IdtEntry, TablePointer, gdt_install, idt_install, isrs_install, irq_install,
}
use mya_xos.Interrupts.{Cpu, ports_of, with_console, install_drivers}
use mya_xos.Vga.{init_video}
use mya_xos.Paging.{Mm, heap_install}
use mya_xos.Paging.Flat.{Flat, page_of, bitmap, table_at, physical_at}
use mya_xos.Paging.Flat.Install.{paging_install}
use mya_xos.Multiboot.{field}
use mya_xos.Vfs.{Run, done, ◌>>=◌}
use mya_xos.Ext2.Driver.{as_run}
use mya_xos.Kernel.{load_ramdisk, main_shell}

-- The console with the ports is that of `cpu`, and memory is that of `flat`, which the console takes when
-- it is used.
pub record Computer : Type 0 where
  pub gdt : ℕ → GdtEntry
  pub idt : ℕ → IdtEntry
  pub gp : TablePointer
  pub idtp : TablePointer
  pub cpu : Cpu
  pub flat : Flat
  pub heap_end : ℕ

-- The globals of mem.c, read from flat memory.
abbrev stores : Computer → Mm
stores s = record {
  placement_pointer = s.flat.placement_pointer;
  heap_end = s.heap_end;
  frames = bitmap s.flat;
  tables = λ k. load32 s.flat.mem (table_at s.flat.kernel_directory k);
  physical_tables = λ k. load32 s.flat.mem (physical_at s.flat.kernel_directory k);
  pages = λ a. page_of (load32 s.flat.mem a);
}

-- The core modules and the drivers; `stub` gives the addresses of the entries in assembly, and the
-- two bases are those of the tables.
pub install_hardware : (stub : ℕ → ℕ) → (gdt_base idt_base : ℕ) → Computer → Computer
install_hardware stub gdt_base idt_base s =
    let (gdt, gp) = gdt_install gdt_base s.gdt in
    let (idt, idtp) = idt_install idt_base s.idt in
    let (idt, ports) = irq_install stub (isrs_install stub idt) (ports_of s.cpu) in
    let screen = init_video (record (s.cpu.editor.console) { mem = s.flat.mem; ports = ports }) in
    record s {
      gdt = gdt;
      gp = gp;
      idt = idt;
      idtp = idtp;
      cpu = install_drivers (with_console screen s.cpu);
      flat = record (s.flat) { mem = screen.mem };
    }

-- `heap_install` after the paging.
pub install_memory : (fuel memsize : ℕ) → Computer → Run Computer
install_memory fuel memsize s = as_run (paging_install fuel memsize s.cpu s.flat) >>= λ r.
    let paged = record s { cpu = r.0; flat = r.1 } in
    let heap = heap_install (stores paged) in
    done (record paged {
      flat = record (paged.flat) { placement_pointer = heap.placement_pointer };
      heap_end = heap.heap_end;
    })

-- The state where the shell waits for its next key. `heap` is the allocator's.
pub kernel_main :
    (a : Allocator) (fuel buf : ℕ) (literal : String → ℕ) (stub : ℕ → ℕ)
    (gdt_base idt_base uname version path buffer : ℕ) (mapped : ℕ → Bool) (rounds : ℕ)
    (keys : List ℕ) (mboot_ptr mboot_mag : ℕ)
    → a.Heap
    → Computer
    → Run Computer
kernel_main a fuel buf literal stub gdt_base idt_base uname version path buffer mapped rounds keys
      mboot_ptr mboot_mag heap s =
    let loaded = load_ramdisk mboot_ptr mboot_mag (stores s) s.flat.mem in
    let flat = record (s.flat) {
      placement_pointer = loaded.mm.placement_pointer;
      mem = loaded.mem;
    } in
    let s1 = install_hardware stub gdt_base idt_base (record s { flat = flat }) in
    install_memory fuel (field mboot_ptr 2 s1.flat.mem) s1 >>= λ s2.
    main_shell a fuel buf literal uname version mboot_ptr loaded.ramdisk path buffer
      loaded.boot_mode mapped rounds keys heap
      (record (s2.cpu.editor.console) { mem = s2.flat.mem })
    >>= λ c.
        done (record s2 { cpu = with_console c s2.cpu; flat = record (s2.flat) { mem = c.mem } })
