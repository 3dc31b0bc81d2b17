-- ===== src/Printk/Screen/Text.antt =====
-- `color_printk` as a whole: the formatting, and the characters on the screen.
use oslib.Printk.Screen.{Screen}
