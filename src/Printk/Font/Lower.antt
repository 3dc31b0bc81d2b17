-- ===== src/Printk/Font/Lower.antt =====
-- The pictures of the lower-case letters and signs, from 0x60 to 0x7f, in cOS/kernel/include/font.h.
use oslib.Prelude.{ℕ, List, [], ◌∷◌, replicate}

abbrev pub lower_case : List (List ℕ)
lower_case =
    (0x10 ∷ 0x08 ∷ 0x04 ∷ 0x00 ∷ 0x00 ∷ 0x00 ∷ 0x00 ∷ 0x00 ∷ 0x00 ∷ 0x00 ∷ 0x00 ∷ 0x00 ∷ 0x00 ∷ 0x00
      ∷ 0x00 ∷ 0x00 ∷ [])
    ∷ (0x00 ∷ 0x00 ∷ 0x00 ∷ 0x00 ∷ 0x00 ∷ 0x70 ∷ 0x08 ∷ 0x04 ∷ 0x3c ∷ 0x44 ∷ 0x84 ∷ 0x84 ∷ 0x8c
        ∷ 0x76 ∷ 0x00 ∷ 0x00 ∷ [])
    ∷ (0xc0 ∷ 0x40 ∷ 0x40 ∷ 0x40 ∷ 0x40 ∷ 0x58 ∷ 0x64 ∷ 0x42 ∷ 0x42 ∷ 0x42 ∷ 0x42 ∷ 0x42 ∷ 0x64
        ∷ 0x58 ∷ 0x00 ∷ 0x00 ∷ [])
    ∷ (0x00 ∷ 0x00 ∷ 0x00 ∷ 0x00 ∷ 0x00 ∷ 0x30 ∷ 0x4c ∷ 0x84 ∷ 0x84 ∷ 0x80 ∷ 0x80 ∷ 0x82 ∷ 0x44
        ∷ 0x38 ∷ 0x00 ∷ 0x00 ∷ [])
    ∷ (0x0c ∷ 0x04 ∷ 0x04 ∷ 0x04 ∷ 0x04 ∷ 0x34 ∷ 0x4c ∷ 0x84 ∷ 0x84 ∷ 0x84 ∷ 0x84 ∷ 0x84 ∷ 0x4c
        ∷ 0x36 ∷ 0x00 ∷ 0x00 ∷ [])
    ∷ (0x00 ∷ 0x00 ∷ 0x00 ∷ 0x00 ∷ 0x00 ∷ 0x38 ∷ 0x44 ∷ 0x82 ∷ 0x82 ∷ 0xfc ∷ 0x80 ∷ 0x82 ∷ 0x42
        ∷ 0x3c ∷ 0x00 ∷ 0x00 ∷ [])
    ∷ (0x0e ∷ 0x10 ∷ 0x10 ∷ 0x10 ∷ 0x10 ∷ 0x7c ∷ 0x10 ∷ 0x10 ∷ 0x10 ∷ 0x10 ∷ 0x10 ∷ 0x10 ∷ 0x10
        ∷ 0x7c ∷ 0x00 ∷ 0x00 ∷ [])
    ∷ (0x00 ∷ 0x00 ∷ 0x00 ∷ 0x00 ∷ 0x00 ∷ 0x36 ∷ 0x4c ∷ 0x84 ∷ 0x84 ∷ 0x84 ∷ 0x84 ∷ 0x4c ∷ 0x34
        ∷ 0x04 ∷ 0x04 ∷ 0x38 ∷ [])
    ∷ (0xc0 ∷ 0x40 ∷ 0x40 ∷ 0x40 ∷ 0x40 ∷ 0x58 ∷ 0x64 ∷ 0x42 ∷ 0x42 ∷ 0x42 ∷ 0x42 ∷ 0x42 ∷ 0x42
        ∷ 0xe3 ∷ 0x00 ∷ 0x00 ∷ [])
    ∷ (0x00 ∷ 0x10 ∷ 0x10 ∷ 0x00 ∷ 0x00 ∷ 0x30 ∷ 0x10 ∷ 0x10 ∷ 0x10 ∷ 0x10 ∷ 0x10 ∷ 0x10 ∷ 0x10
        ∷ 0x38 ∷ 0x00 ∷ 0x00 ∷ [])
    ∷ (0x00 ∷ 0x04 ∷ 0x04 ∷ 0x00 ∷ 0x00 ∷ 0x0c ∷ 0x04 ∷ 0x04 ∷ 0x04 ∷ 0x04 ∷ 0x04 ∷ 0x04 ∷ 0x04
        ∷ 0x08 ∷ 0x08 ∷ 0x30 ∷ [])
    ∷ (0xc0 ∷ 0x40 ∷ 0x40 ∷ 0x40 ∷ 0x40 ∷ 0x4e ∷ 0x44 ∷ 0x48 ∷ 0x50 ∷ 0x60 ∷ 0x50 ∷ 0x48 ∷ 0x44
        ∷ 0xe6 ∷ 0x00 ∷ 0x00 ∷ [])
    ∷ (0x30 ∷ 0x10 ∷ 0x10 ∷ 0x10 ∷ 0x10 ∷ 0x10 ∷ 0x10 ∷ 0x10 ∷ 0x10 ∷ 0x10 ∷ 0x10 ∷ 0x10 ∷ 0x10
        ∷ 0x38 ∷ 0x00 ∷ 0x00 ∷ [])
    ∷ (0x00 ∷ 0x00 ∷ 0x00 ∷ 0x00 ∷ 0x00 ∷ 0xf6 ∷ 0x49 ∷ 0x49 ∷ 0x49 ∷ 0x49 ∷ 0x49 ∷ 0x49 ∷ 0x49
        ∷ 0xdb ∷ 0x00 ∷ 0x00 ∷ [])
    ∷ (0x00 ∷ 0x00 ∷ 0x00 ∷ 0x00 ∷ 0x00 ∷ 0xd8 ∷ 0x64 ∷ 0x42 ∷ 0x42 ∷ 0x42 ∷ 0x42 ∷ 0x42 ∷ 0x42
        ∷ 0xe3 ∷ 0x00 ∷ 0x00 ∷ [])
    ∷ (0x00 ∷ 0x00 ∷ 0x00 ∷ 0x00 ∷ 0x00 ∷ 0x38 ∷ 0x44 ∷ 0x82 ∷ 0x82 ∷ 0x82 ∷ 0x82 ∷ 0x82 ∷ 0x44
        ∷ 0x38 ∷ 0x00 ∷ 0x00 ∷ [])
    ∷ (0x00 ∷ 0x00 ∷ 0x00 ∷ 0x00 ∷ 0xd8 ∷ 0x64 ∷ 0x42 ∷ 0x42 ∷ 0x42 ∷ 0x42 ∷ 0x42 ∷ 0x64 ∷ 0x58
        ∷ 0x40 ∷ 0x40 ∷ 0xe0 ∷ [])
    ∷ (0x00 ∷ 0x00 ∷ 0x00 ∷ 0x00 ∷ 0x34 ∷ 0x4c ∷ 0x84 ∷ 0x84 ∷ 0x84 ∷ 0x84 ∷ 0x84 ∷ 0x4c ∷ 0x34
        ∷ 0x04 ∷ 0x04 ∷ 0x0e ∷ [])
    ∷ (0x00 ∷ 0x00 ∷ 0x00 ∷ 0x00 ∷ 0x00 ∷ 0xdc ∷ 0x62 ∷ 0x42 ∷ 0x40 ∷ 0x40 ∷ 0x40 ∷ 0x40 ∷ 0x40
        ∷ 0xe0 ∷ 0x00 ∷ 0x00 ∷ [])
    ∷ (0x00 ∷ 0x00 ∷ 0x00 ∷ 0x00 ∷ 0x00 ∷ 0x7a ∷ 0x86 ∷ 0x82 ∷ 0xc0 ∷ 0x38 ∷ 0x06 ∷ 0x82 ∷ 0xc2
        ∷ 0xbc ∷ 0x00 ∷ 0x00 ∷ [])
    ∷ (0x00 ∷ 0x00 ∷ 0x10 ∷ 0x10 ∷ 0x10 ∷ 0x7c ∷ 0x10 ∷ 0x10 ∷ 0x10 ∷ 0x10 ∷ 0x10 ∷ 0x10 ∷ 0x10
        ∷ 0x0e ∷ 0x00 ∷ 0x00 ∷ [])
    ∷ (0x00 ∷ 0x00 ∷ 0x00 ∷ 0x00 ∷ 0x00 ∷ 0xc6 ∷ 0x42 ∷ 0x42 ∷ 0x42 ∷ 0x42 ∷ 0x42 ∷ 0x42 ∷ 0x46
        ∷ 0x3b ∷ 0x00 ∷ 0x00 ∷ [])
    ∷ (0x00 ∷ 0x00 ∷ 0x00 ∷ 0x00 ∷ 0x00 ∷ 0xe7 ∷ 0x42 ∷ 0x42 ∷ 0x42 ∷ 0x24 ∷ 0x24 ∷ 0x24 ∷ 0x18
        ∷ 0x18 ∷ 0x00 ∷ 0x00 ∷ [])
    ∷ (0x00 ∷ 0x00 ∷ 0x00 ∷ 0x00 ∷ 0x00 ∷ 0xe7 ∷ 0x42 ∷ 0x42 ∷ 0x5a ∷ 0x5a ∷ 0x5a ∷ 0x24 ∷ 0x24
        ∷ 0x24 ∷ 0x00 ∷ 0x00 ∷ [])
    ∷ (0x00 ∷ 0x00 ∷ 0x00 ∷ 0x00 ∷ 0x00 ∷ 0xc6 ∷ 0x44 ∷ 0x28 ∷ 0x28 ∷ 0x10 ∷ 0x28 ∷ 0x28 ∷ 0x44
        ∷ 0xc6 ∷ 0x00 ∷ 0x00 ∷ [])
    ∷ (0x00 ∷ 0x00 ∷ 0x00 ∷ 0x00 ∷ 0x00 ∷ 0xe7 ∷ 0x42 ∷ 0x42 ∷ 0x24 ∷ 0x24 ∷ 0x24 ∷ 0x18 ∷ 0x18
        ∷ 0x10 ∷ 0x10 ∷ 0x60 ∷ [])
    ∷ (0x00 ∷ 0x00 ∷ 0x00 ∷ 0x00 ∷ 0x00 ∷ 0xfe ∷ 0x82 ∷ 0x84 ∷ 0x08 ∷ 0x10 ∷ 0x20 ∷ 0x42 ∷ 0x82
        ∷ 0xfe ∷ 0x00 ∷ 0x00 ∷ [])
    ∷ (0x00 ∷ 0x06 ∷ 0x08 ∷ 0x10 ∷ 0x10 ∷ 0x10 ∷ 0x10 ∷ 0x60 ∷ 0x10 ∷ 0x10 ∷ 0x10 ∷ 0x10 ∷ 0x08
        ∷ 0x06 ∷ 0x00 ∷ 0x00 ∷ [])
    ∷ (0x10 ∷ 0x10 ∷ 0x10 ∷ 0x10 ∷ 0x10 ∷ 0x10 ∷ 0x10 ∷ 0x10 ∷ 0x10 ∷ 0x10 ∷ 0x10 ∷ 0x10 ∷ 0x10
        ∷ 0x10 ∷ 0x10 ∷ 0x10 ∷ [])
    ∷ (0x00 ∷ 0x60 ∷ 0x10 ∷ 0x08 ∷ 0x08 ∷ 0x08 ∷ 0x08 ∷ 0x06 ∷ 0x08 ∷ 0x08 ∷ 0x08 ∷ 0x08 ∷ 0x10
        ∷ 0x60 ∷ 0x00 ∷ 0x00 ∷ [])
    ∷ (0x00 ∷ 0x72 ∷ 0x8c ∷ 0x00 ∷ 0x00 ∷ 0x00 ∷ 0x00 ∷ 0x00 ∷ 0x00 ∷ 0x00 ∷ 0x00 ∷ 0x00 ∷ 0x00
        ∷ 0x00 ∷ 0x00 ∷ 0x00 ∷ [])
    ∷ replicate 16 0
    ∷ []
