-- ===== src/Memory.antt =====
-- Physical memory: cOS/kernel/include/memory.h and cOS/kernel/src/memory.c.
pub mod Types
pub mod Page
pub mod Paging
pub mod Alloc
pub mod Init
pub mod Samples
mod Examples
