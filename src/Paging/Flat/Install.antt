-- ===== src/Paging/Flat/Install.antt =====
-- `paging_install` of kernel/core/mem.c.
use mya_xos.Base.{ℕ}
use mya_xos.Panic.{Outcome, ok, ◌>>=◌}
use mya_xos.Interrupts.{Cpu, isrs_install_handler, on_page_fault}
use mya_xos.Paging.Flat.{Flat, place_directory, map_pages, switch_page_directory}

-- With fuel for each page and the last test; `memsize` is in kB.
pub paging_install : (fuel memsize : ℕ) → Cpu → Flat → Outcome (Cpu × Flat)
paging_install fuel memsize cpu s = map_pages fuel 0 (place_directory memsize s) >>= λ s'.
    ok (isrs_install_handler 14 on_page_fault cpu, switch_page_directory s'.kernel_directory s')
