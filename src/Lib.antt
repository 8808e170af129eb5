-- ===== src/Lib.antt =====
-- MyaXOS, a small 32-bit kernel (i386): what its memory manager, console, string routines and
-- initial file system do, and what is proved of them.
--
-- The parts of the program and the files that model them:
--   * kernel/core/system.c: memcpy, memset, memsetw and the string routines are Str; inportb and outportb
--     are Ports.
--   * kernel/core/mem.c: the bitmap of frames (set_frame, clear_frame, test_frame, first_frame) is Frames;
--     the placement allocator (kmalloc_real and its four callers), alloc_frame, free_frame, get_page,
--     heap_install and sbrk are Paging. paging_install and switch_page_directory are Paging.Flat, which has
--     the functions that paging_install calls once more, on the flat memory, where objects can overlap.
--   * kernel/core/panic.c: Panic, the outcome of code that may stop the processor, and Report.Panic, what it
--     prints before, with the page fault handler of kernel/core/mem.c and the end of fault_handler of
--     kernel/core/isrs.c.
--   * Code that only prints (panic.c, kernel/core/multiboot.c and parts of kernel/core/shell.c) is a script of
--     Report: the calls of kprintf, puts and of the colours, which run_script carries out on the console.
--   * kernel/core/serial.c: Serial, over Ports.
--   * kernel/core/vga.c: Vga, over Str (memcpy, memsetw, strlen) and Serial, to which writech copies each
--     character.
--   * kernel/core/kprintf.c: kprintf and its helpers are Print, over Vga; kgets and kgets_handler are Line.
--   * kernel/core/fs/ext2_initrd.c: the image and its reading are Ext2, the nodes Ext2.Nodes,
--     readdir_initrd and finddir_initrd Ext2.Lookup, the functions that a node carries Ext2.Driver, which is
--     a Driver of Vfs, and initrd_mount Ext2.Mount.
--   * kernel/core/kbd.c: Keyboard; kernel/core/timer.c: Timer; kernel/core/gdt.c, idt.c and the installing
--     parts of isrs.c and irq.c: Descriptors. The tables of handlers in isrs.c and irq.c, their calls and
--     the installation of the drivers (timer_install, keyboard_install, serial_install): Interrupts, where
--     the handlers of the keyboard and of the serial line call the line editor or writech.
--   * kernel/core/vfs.c: Vfs, with the nodes and their function pointers as a parameter (Driver).
--   * kernel/core/shell.c: Shell. The tokens of a command (tokenize) and the name that cd and cat open
--     (file_name) are in Shell itself, the commands in Shell.Commands and the loop over prompt, line, tokens
--     and command in Shell.Loop, over Line, Vfs, Report, Str and Allocator. Shell.Round follows one round of
--     it from the prompt over the keys to the command, and to the screen.
--   * kernel/core/multiboot.c and kernel/include/multiboot.h: Multiboot, over Report.
--   * kernel/main.c: Kernel, for the ramdisk that it loads and mounts, what it prints and the shell; Kernel.Main
--     is the whole of main. The installation of the drivers is in Interrupts.
--   * bootloader/stage2/main.c: Boot, with the BIOS call as a parameter.
-- The state of each part is a record with the globals of the source as its fields (Frames, Mm, Console,
-- Initrd), and an operation takes the state and returns the next one. Memory is the flat memory of bytes
-- of Memory. Base has the helpers that all parts share, Allocator the interface of malloc and free.
-- The modules below a part are named for what they prove; those named Tests hold runs on concrete input.
--
-- Numbers are natural numbers with the wrap round of the source's types written out (u8, u16, u32,
-- sub32). Objects do not wrap round the end of the address space, so the address of a byte of an object
-- is a plain sum. In Paging the bitmap, the page entries and the memory of bytes are separate stores, so a
-- page table that is placed over another object shows by its address only; in Paging.Flat all of them are in
-- the memory of bytes.
--
-- Fuel: loops that look for the NUL of a string take the number of characters and one more round; the
-- theorems show that this is enough. The polling of the serial line takes the number of questions, and
-- the theorems assume that the line is ready at one of them. sbrk gets one round for each page and one
-- for the last test, and so does paging_install. The walk of a directory takes one round for each entry,
-- and the search in it the length of the longest name as well. kprintf takes a round for each piece of its format and fuel for
-- its longest text; a text that with its NUL is longer than the 1024 bytes of its buffer ends the model
-- with an outcome of its own (overrun). kgets gets the characters that are typed as a list, and waits at its end. The walk
-- of kopen takes one round for each name, and its fuel is for the length of the path. The loop over
-- strtok_r takes one round for each token and one more. The boot loader takes one for each entry. The
-- report of the modules takes one round for each module and one more, and each kprintf of a script 1024
-- rounds and the limit on a text, which is the size of its buffer. The loop of the shell gets a number of
-- lines. timer_wait gets the numbers of interrupts that come between its tests as a list, and is not done
-- where the list ends too early.
--
-- Assumed: the processor stays stopped after hlt. malloc and free come from kernel/core/alloc.c, a copy
-- of another project's allocator, and are a parameter with the contract that C gives them.
--
-- Not modelled: the first stage of the boot loader; the allocator; and code in assembly. Interrupts come as
-- lists where their order matters, and not between the calls of main.
mod Base
pub mod Memory
pub mod Str
pub mod Frames
pub mod Panic
pub mod Paging
pub mod Ports
pub mod Serial
pub mod Vga
pub mod Print
pub mod Line
pub mod Keyboard
pub mod Timer
pub mod Descriptors
pub mod Interrupts
pub mod Allocator
pub mod Report
pub mod Multiboot
pub mod Vfs
pub mod Shell
pub mod Ext2
pub mod Kernel
pub mod Boot
