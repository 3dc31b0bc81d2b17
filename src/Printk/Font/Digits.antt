-- ===== src/Printk/Font/Digits.antt =====
-- The pictures of the space, the digits and most signs, from 0x20 to 0x3f, in
-- cOS/kernel/include/font.h.
use oslib.Prelude.{ℕ, List, [], ◌∷◌, replicate}

abbrev pub digits : List (List ℕ)
digits =
    replicate 16 0
    ∷ (0x00 ∷ 0x10 ∷ 0x10 ∷ 0x10 ∷ 0x10 ∷ 0x10 ∷ 0x10 ∷ 0x10 ∷ 0x10 ∷ 0x10 ∷ 0x00 ∷ 0x00 ∷ 0x10
        ∷ 0x10 ∷ 0x00 ∷ 0x00 ∷ [])
    ∷ (0x28 ∷ 0x28 ∷ 0x28 ∷ 0x00 ∷ 0x00 ∷ 0x00 ∷ 0x00 ∷ 0x00 ∷ 0x00 ∷ 0x00 ∷ 0x00 ∷ 0x00 ∷ 0x00
        ∷ 0x00 ∷ 0x00 ∷ 0x00 ∷ [])
    ∷ (0x00 ∷ 0x44 ∷ 0x44 ∷ 0x44 ∷ 0xfe ∷ 0x44 ∷ 0x44 ∷ 0x44 ∷ 0x44 ∷ 0x44 ∷ 0xfe ∷ 0x44 ∷ 0x44
        ∷ 0x44 ∷ 0x00 ∷ 0x00 ∷ [])
    ∷ (0x10 ∷ 0x3a ∷ 0x56 ∷ 0x92 ∷ 0x92 ∷ 0x90 ∷ 0x50 ∷ 0x38 ∷ 0x14 ∷ 0x12 ∷ 0x92 ∷ 0x92 ∷ 0xd4
        ∷ 0xb8 ∷ 0x10 ∷ 0x10 ∷ [])
    ∷ (0x62 ∷ 0x92 ∷ 0x94 ∷ 0x94 ∷ 0x68 ∷ 0x08 ∷ 0x10 ∷ 0x10 ∷ 0x20 ∷ 0x2c ∷ 0x52 ∷ 0x52 ∷ 0x92
        ∷ 0x8c ∷ 0x00 ∷ 0x00 ∷ [])
    ∷ (0x00 ∷ 0x70 ∷ 0x88 ∷ 0x88 ∷ 0x88 ∷ 0x90 ∷ 0x60 ∷ 0x47 ∷ 0xa2 ∷ 0x92 ∷ 0x8a ∷ 0x84 ∷ 0x46
        ∷ 0x39 ∷ 0x00 ∷ 0x00 ∷ [])
    ∷ (0x04 ∷ 0x08 ∷ 0x10 ∷ 0x00 ∷ 0x00 ∷ 0x00 ∷ 0x00 ∷ 0x00 ∷ 0x00 ∷ 0x00 ∷ 0x00 ∷ 0x00 ∷ 0x00
        ∷ 0x00 ∷ 0x00 ∷ 0x00 ∷ [])
    ∷ (0x02 ∷ 0x04 ∷ 0x08 ∷ 0x08 ∷ 0x10 ∷ 0x10 ∷ 0x10 ∷ 0x10 ∷ 0x10 ∷ 0x10 ∷ 0x10 ∷ 0x08 ∷ 0x08
        ∷ 0x04 ∷ 0x02 ∷ 0x00 ∷ [])
    ∷ (0x80 ∷ 0x40 ∷ 0x20 ∷ 0x20 ∷ 0x10 ∷ 0x10 ∷ 0x10 ∷ 0x10 ∷ 0x10 ∷ 0x10 ∷ 0x10 ∷ 0x20 ∷ 0x20
        ∷ 0x40 ∷ 0x80 ∷ 0x00 ∷ [])
    ∷ (0x00 ∷ 0x00 ∷ 0x00 ∷ 0x00 ∷ 0x00 ∷ 0x10 ∷ 0x92 ∷ 0x54 ∷ 0x38 ∷ 0x54 ∷ 0x92 ∷ 0x10 ∷ 0x00
        ∷ 0x00 ∷ 0x00 ∷ 0x00 ∷ [])
    ∷ (0x00 ∷ 0x00 ∷ 0x00 ∷ 0x00 ∷ 0x00 ∷ 0x10 ∷ 0x10 ∷ 0x10 ∷ 0xfe ∷ 0x10 ∷ 0x10 ∷ 0x10 ∷ 0x00
        ∷ 0x00 ∷ 0x00 ∷ 0x00 ∷ [])
    ∷ (0x00 ∷ 0x00 ∷ 0x00 ∷ 0x00 ∷ 0x00 ∷ 0x00 ∷ 0x00 ∷ 0x00 ∷ 0x00 ∷ 0x00 ∷ 0x00 ∷ 0x18 ∷ 0x18
        ∷ 0x08 ∷ 0x08 ∷ 0x10 ∷ [])
    ∷ (0x00 ∷ 0x00 ∷ 0x00 ∷ 0x00 ∷ 0x00 ∷ 0x00 ∷ 0x00 ∷ 0x00 ∷ 0xfe ∷ 0x00 ∷ 0x00 ∷ 0x00 ∷ 0x00
        ∷ 0x00 ∷ 0x00 ∷ 0x00 ∷ [])
    ∷ (0x00 ∷ 0x00 ∷ 0x00 ∷ 0x00 ∷ 0x00 ∷ 0x00 ∷ 0x00 ∷ 0x00 ∷ 0x00 ∷ 0x00 ∷ 0x00 ∷ 0x00 ∷ 0x18
        ∷ 0x18 ∷ 0x00 ∷ 0x00 ∷ [])
    ∷ (0x02 ∷ 0x02 ∷ 0x04 ∷ 0x04 ∷ 0x08 ∷ 0x08 ∷ 0x08 ∷ 0x10 ∷ 0x10 ∷ 0x20 ∷ 0x20 ∷ 0x40 ∷ 0x40
        ∷ 0x40 ∷ 0x80 ∷ 0x80 ∷ [])
    ∷ (0x00 ∷ 0x18 ∷ 0x24 ∷ 0x24 ∷ 0x42 ∷ 0x42 ∷ 0x42 ∷ 0x42 ∷ 0x42 ∷ 0x42 ∷ 0x42 ∷ 0x24 ∷ 0x24
        ∷ 0x18 ∷ 0x00 ∷ 0x00 ∷ [])
    ∷ (0x00 ∷ 0x08 ∷ 0x18 ∷ 0x28 ∷ 0x08 ∷ 0x08 ∷ 0x08 ∷ 0x08 ∷ 0x08 ∷ 0x08 ∷ 0x08 ∷ 0x08 ∷ 0x08
        ∷ 0x3e ∷ 0x00 ∷ 0x00 ∷ [])
    ∷ (0x00 ∷ 0x18 ∷ 0x24 ∷ 0x42 ∷ 0x42 ∷ 0x02 ∷ 0x04 ∷ 0x08 ∷ 0x10 ∷ 0x20 ∷ 0x20 ∷ 0x40 ∷ 0x40
        ∷ 0x7e ∷ 0x00 ∷ 0x00 ∷ [])
    ∷ (0x00 ∷ 0x18 ∷ 0x24 ∷ 0x42 ∷ 0x02 ∷ 0x02 ∷ 0x04 ∷ 0x18 ∷ 0x04 ∷ 0x02 ∷ 0x02 ∷ 0x42 ∷ 0x24
        ∷ 0x18 ∷ 0x00 ∷ 0x00 ∷ [])
    ∷ (0x00 ∷ 0x0c ∷ 0x0c ∷ 0x0c ∷ 0x14 ∷ 0x14 ∷ 0x14 ∷ 0x24 ∷ 0x24 ∷ 0x44 ∷ 0x7e ∷ 0x04 ∷ 0x04
        ∷ 0x1e ∷ 0x00 ∷ 0x00 ∷ [])
    ∷ (0x00 ∷ 0x7c ∷ 0x40 ∷ 0x40 ∷ 0x40 ∷ 0x58 ∷ 0x64 ∷ 0x02 ∷ 0x02 ∷ 0x02 ∷ 0x02 ∷ 0x42 ∷ 0x24
        ∷ 0x18 ∷ 0x00 ∷ 0x00 ∷ [])
    ∷ (0x00 ∷ 0x18 ∷ 0x24 ∷ 0x42 ∷ 0x40 ∷ 0x58 ∷ 0x64 ∷ 0x42 ∷ 0x42 ∷ 0x42 ∷ 0x42 ∷ 0x42 ∷ 0x24
        ∷ 0x18 ∷ 0x00 ∷ 0x00 ∷ [])
    ∷ (0x00 ∷ 0x7e ∷ 0x42 ∷ 0x42 ∷ 0x04 ∷ 0x04 ∷ 0x08 ∷ 0x08 ∷ 0x08 ∷ 0x10 ∷ 0x10 ∷ 0x10 ∷ 0x10
        ∷ 0x38 ∷ 0x00 ∷ 0x00 ∷ [])
    ∷ (0x00 ∷ 0x18 ∷ 0x24 ∷ 0x42 ∷ 0x42 ∷ 0x42 ∷ 0x24 ∷ 0x18 ∷ 0x24 ∷ 0x42 ∷ 0x42 ∷ 0x42 ∷ 0x24
        ∷ 0x18 ∷ 0x00 ∷ 0x00 ∷ [])
    ∷ (0x00 ∷ 0x18 ∷ 0x24 ∷ 0x42 ∷ 0x42 ∷ 0x42 ∷ 0x42 ∷ 0x42 ∷ 0x26 ∷ 0x1a ∷ 0x02 ∷ 0x42 ∷ 0x24
        ∷ 0x18 ∷ 0x00 ∷ 0x00 ∷ [])
    ∷ (0x00 ∷ 0x00 ∷ 0x00 ∷ 0x00 ∷ 0x00 ∷ 0x18 ∷ 0x18 ∷ 0x00 ∷ 0x00 ∷ 0x00 ∷ 0x00 ∷ 0x00 ∷ 0x18
        ∷ 0x18 ∷ 0x00 ∷ 0x00 ∷ [])
    ∷ (0x00 ∷ 0x00 ∷ 0x00 ∷ 0x00 ∷ 0x00 ∷ 0x18 ∷ 0x18 ∷ 0x00 ∷ 0x00 ∷ 0x00 ∷ 0x00 ∷ 0x18 ∷ 0x18
        ∷ 0x08 ∷ 0x08 ∷ 0x10 ∷ [])
    ∷ (0x00 ∷ 0x02 ∷ 0x04 ∷ 0x08 ∷ 0x10 ∷ 0x20 ∷ 0x40 ∷ 0x80 ∷ 0x80 ∷ 0x40 ∷ 0x20 ∷ 0x10 ∷ 0x08
        ∷ 0x04 ∷ 0x02 ∷ 0x00 ∷ [])
    ∷ (0x00 ∷ 0x00 ∷ 0x00 ∷ 0x00 ∷ 0x00 ∷ 0x00 ∷ 0xfe ∷ 0x00 ∷ 0x00 ∷ 0xfe ∷ 0x00 ∷ 0x00 ∷ 0x00
        ∷ 0x00 ∷ 0x00 ∷ 0x00 ∷ [])
    ∷ (0x00 ∷ 0x80 ∷ 0x40 ∷ 0x20 ∷ 0x10 ∷ 0x08 ∷ 0x04 ∷ 0x02 ∷ 0x02 ∷ 0x04 ∷ 0x08 ∷ 0x10 ∷ 0x20
        ∷ 0x40 ∷ 0x80 ∷ 0x00 ∷ [])
    ∷ (0x00 ∷ 0x38 ∷ 0x44 ∷ 0x82 ∷ 0x82 ∷ 0x82 ∷ 0x04 ∷ 0x08 ∷ 0x10 ∷ 0x10 ∷ 0x00 ∷ 0x00 ∷ 0x18
        ∷ 0x18 ∷ 0x00 ∷ 0x00 ∷ [])
    ∷ []
