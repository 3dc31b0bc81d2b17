-- ===== src/Trap.antt =====
-- Exceptions: cOS/kernel/src/trap.c.
pub mod Report
pub mod Handlers
pub mod Selector
pub mod Vectors
mod Examples
