-- ===== src/Elf.antt =====
-- cpp/xhook/xh_elf.c and cpp/xhook/xh_elf.h: an ELF image in memory, for the LP64 build on
-- aarch64. Structures of <elf.h> are read field by field at their offsets.
pub mod Examples
pub mod Image
pub mod Header
pub mod Hash
pub mod Symbols
pub mod Init
pub mod Replace
pub mod Hook
