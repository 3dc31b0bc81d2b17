-- ===== src/Printk.antt =====
-- Formatted output and the text screen: cOS/kernel/include/printk.h and cOS/kernel/src/printk.c.
pub mod Number
pub mod Font
pub mod Format
pub mod Screen
mod Examples
