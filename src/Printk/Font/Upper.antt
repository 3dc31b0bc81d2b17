-- ===== src/Printk/Font/Upper.antt =====
-- The pictures of the upper-case letters and signs, from 0x40 to 0x5f, in cOS/kernel/include/font.h.
use oslib.Prelude.{ℕ, List, [], ◌∷◌}

abbrev pub upper_case : List (List ℕ)
upper_case =
    (0x00 ∷ 0x38 ∷ 0x44 ∷ 0x82 ∷ 0x9a ∷ 0xaa ∷ 0xaa ∷ 0xaa ∷ 0xaa ∷ 0xaa ∷ 0x9c ∷ 0x80 ∷ 0x46 ∷ 0x38
      ∷ 0x00 ∷ 0x00 ∷ [])
    ∷ (0x00 ∷ 0x18 ∷ 0x18 ∷ 0x18 ∷ 0x18 ∷ 0x24 ∷ 0x24 ∷ 0x24 ∷ 0x24 ∷ 0x7e ∷ 0x42 ∷ 0x42 ∷ 0x42
        ∷ 0xe7 ∷ 0x00 ∷ 0x00 ∷ [])
    ∷ (0x00 ∷ 0xf0 ∷ 0x48 ∷ 0x44 ∷ 0x44 ∷ 0x44 ∷ 0x48 ∷ 0x78 ∷ 0x44 ∷ 0x42 ∷ 0x42 ∷ 0x42 ∷ 0x44
        ∷ 0xf8 ∷ 0x00 ∷ 0x00 ∷ [])
    ∷ (0x00 ∷ 0x3a ∷ 0x46 ∷ 0x42 ∷ 0x82 ∷ 0x80 ∷ 0x80 ∷ 0x80 ∷ 0x80 ∷ 0x80 ∷ 0x82 ∷ 0x42 ∷ 0x44
        ∷ 0x38 ∷ 0x00 ∷ 0x00 ∷ [])
    ∷ (0x00 ∷ 0xf8 ∷ 0x44 ∷ 0x44 ∷ 0x42 ∷ 0x42 ∷ 0x42 ∷ 0x42 ∷ 0x42 ∷ 0x42 ∷ 0x42 ∷ 0x44 ∷ 0x44
        ∷ 0xf8 ∷ 0x00 ∷ 0x00 ∷ [])
    ∷ (0x00 ∷ 0xfe ∷ 0x42 ∷ 0x42 ∷ 0x40 ∷ 0x40 ∷ 0x44 ∷ 0x7c ∷ 0x44 ∷ 0x40 ∷ 0x40 ∷ 0x42 ∷ 0x42
        ∷ 0xfe ∷ 0x00 ∷ 0x00 ∷ [])
    ∷ (0x00 ∷ 0xfe ∷ 0x42 ∷ 0x42 ∷ 0x40 ∷ 0x40 ∷ 0x44 ∷ 0x7c ∷ 0x44 ∷ 0x44 ∷ 0x40 ∷ 0x40 ∷ 0x40
        ∷ 0xf0 ∷ 0x00 ∷ 0x00 ∷ [])
    ∷ (0x00 ∷ 0x3a ∷ 0x46 ∷ 0x42 ∷ 0x82 ∷ 0x80 ∷ 0x80 ∷ 0x9e ∷ 0x82 ∷ 0x82 ∷ 0x82 ∷ 0x42 ∷ 0x46
        ∷ 0x38 ∷ 0x00 ∷ 0x00 ∷ [])
    ∷ (0x00 ∷ 0xe7 ∷ 0x42 ∷ 0x42 ∷ 0x42 ∷ 0x42 ∷ 0x42 ∷ 0x7e ∷ 0x42 ∷ 0x42 ∷ 0x42 ∷ 0x42 ∷ 0x42
        ∷ 0xe7 ∷ 0x00 ∷ 0x00 ∷ [])
    ∷ (0x00 ∷ 0x7c ∷ 0x10 ∷ 0x10 ∷ 0x10 ∷ 0x10 ∷ 0x10 ∷ 0x10 ∷ 0x10 ∷ 0x10 ∷ 0x10 ∷ 0x10 ∷ 0x10
        ∷ 0x7c ∷ 0x00 ∷ 0x00 ∷ [])
    ∷ (0x00 ∷ 0x1f ∷ 0x04 ∷ 0x04 ∷ 0x04 ∷ 0x04 ∷ 0x04 ∷ 0x04 ∷ 0x04 ∷ 0x04 ∷ 0x04 ∷ 0x04 ∷ 0x84
        ∷ 0x48 ∷ 0x30 ∷ 0x00 ∷ [])
    ∷ (0x00 ∷ 0xe7 ∷ 0x42 ∷ 0x44 ∷ 0x48 ∷ 0x50 ∷ 0x50 ∷ 0x60 ∷ 0x50 ∷ 0x50 ∷ 0x48 ∷ 0x44 ∷ 0x42
        ∷ 0xe7 ∷ 0x00 ∷ 0x00 ∷ [])
    ∷ (0x00 ∷ 0xf0 ∷ 0x40 ∷ 0x40 ∷ 0x40 ∷ 0x40 ∷ 0x40 ∷ 0x40 ∷ 0x40 ∷ 0x40 ∷ 0x40 ∷ 0x42 ∷ 0x42
        ∷ 0xfe ∷ 0x00 ∷ 0x00 ∷ [])
    ∷ (0x00 ∷ 0xc3 ∷ 0x42 ∷ 0x66 ∷ 0x66 ∷ 0x66 ∷ 0x5a ∷ 0x5a ∷ 0x5a ∷ 0x42 ∷ 0x42 ∷ 0x42 ∷ 0x42
        ∷ 0xe7 ∷ 0x00 ∷ 0x00 ∷ [])
    ∷ (0x00 ∷ 0xc7 ∷ 0x42 ∷ 0x62 ∷ 0x62 ∷ 0x52 ∷ 0x52 ∷ 0x52 ∷ 0x4a ∷ 0x4a ∷ 0x4a ∷ 0x46 ∷ 0x46
        ∷ 0xe2 ∷ 0x00 ∷ 0x00 ∷ [])
    ∷ (0x00 ∷ 0x38 ∷ 0x44 ∷ 0x82 ∷ 0x82 ∷ 0x82 ∷ 0x82 ∷ 0x82 ∷ 0x82 ∷ 0x82 ∷ 0x82 ∷ 0x82 ∷ 0x44
        ∷ 0x38 ∷ 0x00 ∷ 0x00 ∷ [])
    ∷ (0x00 ∷ 0xf8 ∷ 0x44 ∷ 0x42 ∷ 0x42 ∷ 0x42 ∷ 0x44 ∷ 0x78 ∷ 0x40 ∷ 0x40 ∷ 0x40 ∷ 0x40 ∷ 0x40
        ∷ 0xf0 ∷ 0x00 ∷ 0x00 ∷ [])
    ∷ (0x00 ∷ 0x38 ∷ 0x44 ∷ 0x82 ∷ 0x82 ∷ 0x82 ∷ 0x82 ∷ 0x82 ∷ 0x82 ∷ 0x82 ∷ 0x92 ∷ 0x8a ∷ 0x44
        ∷ 0x3a ∷ 0x00 ∷ 0x00 ∷ [])
    ∷ (0x00 ∷ 0xfc ∷ 0x42 ∷ 0x42 ∷ 0x42 ∷ 0x42 ∷ 0x7c ∷ 0x44 ∷ 0x42 ∷ 0x42 ∷ 0x42 ∷ 0x42 ∷ 0x42
        ∷ 0xe7 ∷ 0x00 ∷ 0x00 ∷ [])
    ∷ (0x00 ∷ 0x3a ∷ 0x46 ∷ 0x82 ∷ 0x82 ∷ 0x80 ∷ 0x40 ∷ 0x38 ∷ 0x04 ∷ 0x02 ∷ 0x82 ∷ 0x82 ∷ 0xc4
        ∷ 0xb8 ∷ 0x00 ∷ 0x00 ∷ [])
    ∷ (0x00 ∷ 0xfe ∷ 0x92 ∷ 0x92 ∷ 0x10 ∷ 0x10 ∷ 0x10 ∷ 0x10 ∷ 0x10 ∷ 0x10 ∷ 0x10 ∷ 0x10 ∷ 0x10
        ∷ 0x7c ∷ 0x00 ∷ 0x00 ∷ [])
    ∷ (0x00 ∷ 0xe7 ∷ 0x42 ∷ 0x42 ∷ 0x42 ∷ 0x42 ∷ 0x42 ∷ 0x42 ∷ 0x42 ∷ 0x42 ∷ 0x42 ∷ 0x42 ∷ 0x24
        ∷ 0x3c ∷ 0x00 ∷ 0x00 ∷ [])
    ∷ (0x00 ∷ 0xe7 ∷ 0x42 ∷ 0x42 ∷ 0x42 ∷ 0x42 ∷ 0x24 ∷ 0x24 ∷ 0x24 ∷ 0x24 ∷ 0x18 ∷ 0x18 ∷ 0x18
        ∷ 0x18 ∷ 0x00 ∷ 0x00 ∷ [])
    ∷ (0x00 ∷ 0xe7 ∷ 0x42 ∷ 0x42 ∷ 0x42 ∷ 0x5a ∷ 0x5a ∷ 0x5a ∷ 0x5a ∷ 0x24 ∷ 0x24 ∷ 0x24 ∷ 0x24
        ∷ 0x24 ∷ 0x00 ∷ 0x00 ∷ [])
    ∷ (0x00 ∷ 0xe7 ∷ 0x42 ∷ 0x42 ∷ 0x24 ∷ 0x24 ∷ 0x24 ∷ 0x18 ∷ 0x24 ∷ 0x24 ∷ 0x24 ∷ 0x42 ∷ 0x42
        ∷ 0xe7 ∷ 0x00 ∷ 0x00 ∷ [])
    ∷ (0x00 ∷ 0xee ∷ 0x44 ∷ 0x44 ∷ 0x44 ∷ 0x28 ∷ 0x28 ∷ 0x28 ∷ 0x10 ∷ 0x10 ∷ 0x10 ∷ 0x10 ∷ 0x10
        ∷ 0x7c ∷ 0x00 ∷ 0x00 ∷ [])
    ∷ (0x00 ∷ 0xfe ∷ 0x84 ∷ 0x84 ∷ 0x08 ∷ 0x08 ∷ 0x10 ∷ 0x10 ∷ 0x20 ∷ 0x20 ∷ 0x40 ∷ 0x42 ∷ 0x82
        ∷ 0xfe ∷ 0x00 ∷ 0x00 ∷ [])
    ∷ (0x00 ∷ 0x3e ∷ 0x20 ∷ 0x20 ∷ 0x20 ∷ 0x20 ∷ 0x20 ∷ 0x20 ∷ 0x20 ∷ 0x20 ∷ 0x20 ∷ 0x20 ∷ 0x20
        ∷ 0x20 ∷ 0x3e ∷ 0x00 ∷ [])
    ∷ (0x80 ∷ 0x80 ∷ 0x40 ∷ 0x40 ∷ 0x20 ∷ 0x20 ∷ 0x20 ∷ 0x10 ∷ 0x10 ∷ 0x08 ∷ 0x08 ∷ 0x04 ∷ 0x04
        ∷ 0x04 ∷ 0x02 ∷ 0x02 ∷ [])
    ∷ (0x00 ∷ 0x7c ∷ 0x04 ∷ 0x04 ∷ 0x04 ∷ 0x04 ∷ 0x04 ∷ 0x04 ∷ 0x04 ∷ 0x04 ∷ 0x04 ∷ 0x04 ∷ 0x04
        ∷ 0x04 ∷ 0x7c ∷ 0x00 ∷ [])
    ∷ (0x00 ∷ 0x10 ∷ 0x28 ∷ 0x44 ∷ 0x82 ∷ 0x00 ∷ 0x00 ∷ 0x00 ∷ 0x00 ∷ 0x00 ∷ 0x00 ∷ 0x00 ∷ 0x00
        ∷ 0x00 ∷ 0x00 ∷ 0x00 ∷ [])
    ∷ (0x00 ∷ 0x00 ∷ 0x00 ∷ 0x00 ∷ 0x00 ∷ 0x00 ∷ 0x00 ∷ 0x00 ∷ 0x00 ∷ 0x00 ∷ 0x00 ∷ 0x00 ∷ 0x00
        ∷ 0x00 ∷ 0xfe ∷ 0x00 ∷ [])
    ∷ []
