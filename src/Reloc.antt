-- ===== src/Reloc.antt =====
-- The relocation iterators of cpp/xhook/xh_elf.c: over a plain table, and over the packed
-- (APS2) table of Android, whose numbers are SLEB128 encoded.
mod Examples
pub mod Sleb128
pub mod Plain
pub mod Packed
