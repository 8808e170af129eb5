-- ===== src/Paging/Flat/Tests.antt =====
-- A machine of 16 MB before the paging.
use mya_xos.Base.{◌+◌, ◌*◌, ◌/◌, ◌<◌, ◌≡◌, refl, arith}
use mya_xos.Memory.{load32}
use mya_xos.Panic.{ok}
use mya_xos.Paging.Flat.{Flat, place_directory, map_page}
use mya_xos.Paging.Flat.Overlap.{place_directory_overlap, map_page-misled}

abbrev before : Flat
before = record {
  placement_pointer = 0x200000;
  frames = 0;
  nframes = 0;
  kernel_directory = 0;
  current_directory = 0;
  cr0 = 0;
  cr3 = 0;
  mem = λ x. 0;
}

place_directory_overlap_example :
    let s' = place_directory 16384 before in
    (s'.kernel_directory < s'.frames + 4 * (16384 / 4 / 32))
    × (s'.frames < s'.kernel_directory + 8196)
place_directory_overlap_example =
    place_directory_overlap 16384 before (omega arith) (omega arith) (omega arith)

map_page-misled_example :
    (s1 : Flat) × (map_page 0 (place_directory 16384 before) ≡ ok s1)
    × (load32 s1.mem 0x200000 ≡ 0x202001)
map_page-misled_example =
    map_page-misled 16384 before (omega arith) (omega arith) refl (omega arith) (omega arith)
