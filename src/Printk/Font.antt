-- ===== src/Printk/Font.antt =====
-- The table of pictures of cOS/kernel/include/font.h: 16 rows of 8 pixels for each of 256
-- characters.
pub mod Digits
pub mod Upper
pub mod Lower
pub mod Read
pub mod Line
pub mod Tab
pub mod Dump
mod Examples
use oslib.Prelude.{ℕ, Option, none, some, List, [], ◌∷◌, ◌++◌, replicate, get_elem?}
use oslib.Printk.Font.Digits.{digits}
use oslib.Printk.Font.Upper.{upper_case}
use oslib.Printk.Font.Lower.{lower_case}

abbrev pub control_glyphs : List (List ℕ)
control_glyphs = replicate 32 (replicate 16 0)

-- From 0x80 to 0xbf.
abbrev pub high_glyphs : List (List ℕ)
high_glyphs = replicate 64 (replicate 16 0)

-- From 0xc0 to 0xff.
abbrev pub last_glyphs : List (List ℕ)
last_glyphs = replicate 64 (replicate 16 0)

abbrev pub glyphs : List (List ℕ)
glyphs = control_glyphs ++ digits ++ upper_case ++ lower_case ++ high_glyphs ++ last_glyphs

abbrev pub glyph : Option (List ℕ) → List ℕ
glyph none = []
glyph (some rows) = rows

abbrev pub row : Option ℕ → ℕ
row none = 0
row (some r) = r

-- `font_ascii[c][i]`, and 0 where there is no such element.
pub font_ascii : (c i : ℕ) → ℕ
font_ascii c i = row (get_elem? (glyph (get_elem? glyphs c)) i)
