-- ===== src/Printk/Number/Examples.antt =====
-- A number in a field.
