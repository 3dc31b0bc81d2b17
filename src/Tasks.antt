-- ===== src/Tasks.antt =====
-- Tasks: cOS/kernel/include/task.h, cOS/kernel/include/ptrace.h and cOS/kernel/src/task.c.
pub mod Types
pub mod Static
pub mod Thread
pub mod Fork
pub mod Switch
pub mod Init
pub mod Samples
mod Examples
