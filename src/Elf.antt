-- ===== src/Elf.antt =====
-- The integrated ELF emitter of src/emit_elf.c.
pub mod Buf
pub mod Symbols
pub mod Chars
pub mod Operand
pub mod Encode
