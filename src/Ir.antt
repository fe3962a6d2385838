-- ===== src/Ir.antt =====
-- The IR back end of src/ir68k.c.
pub mod Expr
pub mod Fold
pub mod Meaning
pub mod Evaluates
pub mod Words
pub mod Items
pub mod Cfg
pub mod Ra
pub mod Rel
pub mod Asm
pub mod Select
mod Tests
