-- ===== src/Libc.antt =====
-- Routines of the C library, src/libc/core.
pub mod Search
pub mod Sort
mod Tests
