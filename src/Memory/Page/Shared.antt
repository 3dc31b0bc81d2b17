-- ===== src/Memory/Page/Shared.antt =====
-- The test for a shared page reads digits 2 and 8 of the attribute, so it goes through `|`.
use oslib.Prelude.{ℕ, ◌≡◌, ◌≢◌, arith, ◌||◌, bit_or}
use oslib.Prelude.Bits.{bit-bit_or, bit_and-pow, le-bit_or}
use oslib.Memory.Page.{is_shared}

pub is_shared-bit_or : (a b : ℕ) → is_shared (bit_or a b) ≡ (is_shared a || is_shared b)
unfolding is_shared
is_shared-bit_or a b = ground (
  arith,
  bit_and-pow 2 (bit_or a b),
  bit_and-pow 8 (bit_or a b),
  bit_and-pow 2 a,
  bit_and-pow 8 a,
  bit_and-pow 2 b,
  bit_and-pow 8 b,
  bit-bit_or 2 a b,
  bit-bit_or 8 a b,
)

pub bit_or-ne-zero : (a b : ℕ) → b ≢ 0 → bit_or a b ≢ 0
bit_or-ne-zero a b h = omega (arith, le-bit_or a b)
