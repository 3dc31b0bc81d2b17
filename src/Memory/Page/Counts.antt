-- ===== src/Memory/Page/Counts.antt =====
-- What the counters of pages and zones mean, and that `page_init` and `page_clean` keep it.
use oslib.Prelude.{ℕ, ◌+◌, ◌^◌, ◌<◌, ◌≡◌, ◌≢◌, arith, some, false}
use oslib.Memory.Types.{Page, Memory}
use oslib.Memory.Page.{is_shared, page_init, page_clean}
use oslib.Memory.Page.Shared.{is_shared-bit_or, bit_or-ne-zero}

-- A page is unused with no references, used once, or shared with at least one reference.
pub record IsCounted (p : Page) : Type 0 where
  pub unused : p.attribute ≡ 0 → p.ref_cnt ≡ 0
  pub in_use : p.attribute ≢ 0 → 0 < p.ref_cnt
  pub exclusive : p.attribute ≢ 0 → is_shared p.attribute ≡ false → p.ref_cnt ≡ 1
  pub fits : p.ref_cnt < 2 ^ 64

-- `page_init` keeps that of every page, if it sets some attribute and the reference count of
-- the page does not overflow.
pub page_init-IsCounted :
    (n flags : ℕ) (m : Memory) {m' : Memory} (i : ℕ)
    → page_init n flags m ≡ some m'
    → flags ≢ 0
    → (m.pages n).ref_cnt + 1 < 2 ^ 64
    → IsCounted (m.pages n)
    → IsCounted (m.pages i)
    → IsCounted (m'.pages i)
unfolding page_init
page_init-IsCounted n flags m i run nz small c ci = ground (
  arith,
  c.unused,
  c.in_use,
  c.exclusive,
  is_shared-bit_or (m.pages n).attribute flags,
  bit_or-ne-zero (m.pages n).attribute flags,
)

-- `page_clean` keeps it of every page.
pub page_clean-IsCounted :
    (n : ℕ) (m : Memory) {m' : Memory} (i : ℕ)
    → page_clean n m ≡ some m'
    → IsCounted (m.pages n)
    → IsCounted (m.pages i)
    → IsCounted (m'.pages i)
unfolding page_clean
page_clean-IsCounted n m i run c ci = ground arith
