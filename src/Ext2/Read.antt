-- ===== src/Ext2/Read.antt =====
-- `read_initrd` of kernel/core/fs/ext2_initrd.c: that it fills the buffer with the file.
pub mod Fill
pub mod Layout
pub mod File
