-- ===== src/Kernel/Tests.antt =====
-- A report at 0x2000 of one module of three bytes at 0x100000.
use mya_xos.Base.{refl, inr, ◌==◌, if◌then◌else◌, arith}
use mya_xos.Memory.{Memory, load32}
use mya_xos.Paging.{Mm, blank_page}
use mya_xos.Kernel.{load_ramdisk}
use mya_xos.Kernel.Ramdisk.{IsModule, IsCopied, load_ramdisk-IsCopied}

abbrev memory : Memory
memory x =
    if x == 0x2000
    then 0x08
    else if x == 0x2014
    then 1
    else if x == 0x2019
    then 0x60
    else if x == 0x6002
    then 0x10
    else if x == 0x6004
    then 3
    else if x == 0x6006
    then 0x10
    else if x == 0x100002
    then 77
    else 0

abbrev before : Mm
before = record {
  placement_pointer = 0x100000;
  heap_end = 0;
  frames = record { nframes = 64; words = λ i. 0 };
  tables = λ i. 0;
  physical_tables = λ i. 0;
  pages = λ a. blank_page;
}

memory-IsModule : IsModule 0x2000 0x100000 0x100003 memory
unfolding load32
memory-IsModule = record {
  starts = refl;
  ends = refl;
  ordered = omega arith;
  fits = omega arith;
  apart = inr (omega arith);
}

load_ramdisk-IsCopied_example :
    IsCopied 0x100000 3 before memory (load_ramdisk 0x2000 0x2BADB002 before memory)
unfolding load32
load_ramdisk-IsCopied_example =
    load_ramdisk-IsCopied 0x2000 0x100000 0x100003 before memory refl memory-IsModule
