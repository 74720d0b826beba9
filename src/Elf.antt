-- ===== src/Elf.antt =====
-- asm2_127/src/so_util.c: the loader of the game's ELF library.
pub mod Image
pub mod Symbols
pub mod Relocate
pub mod Layout
pub mod Copy
pub mod Import
pub mod Resolve
pub mod Sections
mod Tests
