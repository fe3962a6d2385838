-- ===== src/Ir/Ra.antt =====
-- The register allocator of src/ir68k.c (OP7): candidates, liveness over the blocks, colouring.
pub mod Set
pub mod Events
pub mod Liveness
pub mod Color
pub mod Share
mod Tests
