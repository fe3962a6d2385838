-- ===== src/Ir/Tests.antt =====
-- A small concrete machine, and the theorems on it at concrete inputs.
pub mod Machine32
mod Examples
