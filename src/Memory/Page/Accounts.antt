-- ===== src/Memory/Page/Accounts.antt =====
-- The counters of a zone count the pages of the zone: free ones, used ones, and references.
use oslib.Prelude.{
  ℕ, ◌+◌, ◌^◌, ◌≤◌, ◌<◌, ◌≡◌, ◌≢◌, sym, ap, arith, Option, none, some, Bool, false, ◌&&◌, not, ◌==◌,
  if◌then◌else◌,
}
use oslib.Prelude.Words.{add64}
use oslib.Prelude.Sums.{total, total_change, total-le, le-total}
use oslib.Memory.Types.{Page, Memory}
use oslib.Memory.Page.{page_init, page_clean}
use oslib.Memory.Page.Counts.{IsCounted}
use oslib.Memory.Page.Effect.{page_init_same, page_clean_same}
use oslib.Memory.Page.Shared.{bit_or-ne-zero}

unfoldable pub in_zone : ℕ → Option ℕ → Bool
in_zone z none = false
in_zone z (some y) = y == z

unfoldable pub unused_in : ℕ → Page → ℕ
unfolding in_zone
unused_in z p = if in_zone z p.zone_struct && p.attribute == 0 then 1 else 0

unfoldable pub used_in : ℕ → Page → ℕ
unfolding in_zone
used_in z p = if in_zone z p.zone_struct && not (p.attribute == 0) then 1 else 0

unfoldable pub links_in : ℕ → Page → ℕ
unfolding in_zone
links_in z p = if in_zone z p.zone_struct then p.ref_cnt else 0

-- The counters of zone `z` over the first `size` page structures. `uncounted` pages of the zone
-- were never counted as free: `init_memory` puts page 0 into zone 0 with no count.
pub record IsAccounted (size uncounted z : ℕ) (m : Memory) : Type 0 where
  pub free : add64 (m.zones z).page_free_cnt uncounted ≡ total size (λ i. unused_in z (m.pages i))
  pub using : (m.zones z).page_using_cnt ≡ total size (λ i. used_in z (m.pages i))
  pub links : (m.zones z).total_page_lnk ≡ total size (λ i. links_in z (m.pages i))

pub change_pages :
    (size : ℕ) (w : Page → ℕ) (f g : ℕ → Page) (n : ℕ)
    → n < size
    → ((i : ℕ) → i ≢ n → g i ≡ f i)
    → total size (λ i. w (g i)) + w (f n) ≡ total size (λ i. w (f i)) + w (g n)
change_pages size w f g n in_range same =
    total_change size (λ i. w (f i)) (λ i. w (g i)) n in_range (λ i ne. ap w (sym (same i ne)))

unused_in-le-one : (z : ℕ) (p : Page) → unused_in z p ≤ 1
unfolding unused_in
unused_in-le-one z p = ground arith

used_in-le-one : (z : ℕ) (p : Page) → used_in z p ≤ 1
unfolding used_in
used_in-le-one z p = ground arith

module _ (size uncounted z n flags : ℕ) (m m' : Memory) (in_range : n < size) (word : size < 2 ^ 64)
    (run : page_init n flags m ≡ some m') (nz : flags ≢ 0)
    (room : (m.zones z).total_page_lnk + 1 < 2 ^ 64) (before : IsAccounted size uncounted z m) where
  init_free :
      add64 (m'.zones z).page_free_cnt uncounted ≡ total size (λ i. unused_in z (m'.pages i))
  unfolding page_init unused_in
  init_free = ground (
    arith,
    before.free,
    bit_or-ne-zero (m.pages n).attribute flags,
    change_pages size (unused_in z) m.pages m'.pages n in_range (page_init_same n flags m run),
    total-le size (λ i. unused_in z (m'.pages i)) (λ i. unused_in-le-one z (m'.pages i)),
    total-le size (λ i. unused_in z (m.pages i)) (λ i. unused_in-le-one z (m.pages i)),
    le-total size (λ i. unused_in z (m.pages i)) n in_range,
  )

  init_using : (m'.zones z).page_using_cnt ≡ total size (λ i. used_in z (m'.pages i))
  unfolding page_init used_in
  init_using = ground (
    arith,
    before.using,
    bit_or-ne-zero (m.pages n).attribute flags,
    change_pages size (used_in z) m.pages m'.pages n in_range (page_init_same n flags m run),
    total-le size (λ i. used_in z (m'.pages i)) (λ i. used_in-le-one z (m'.pages i)),
  )

  init_links : (m'.zones z).total_page_lnk ≡ total size (λ i. links_in z (m'.pages i))
  unfolding page_init links_in
  init_links = ground (
    arith,
    before.links,
    change_pages size (links_in z) m.pages m'.pages n in_range (page_init_same n flags m run),
    le-total size (λ i. links_in z (m.pages i)) n in_range,
  )

  -- `page_init` on a page of the array keeps the counters of every zone right, if it sets some
  -- attribute and the reference counter of the zone does not overflow.
  pub page_init-IsAccounted : IsAccounted size uncounted z m'
  page_init-IsAccounted = record { free = init_free; using = init_using; links = init_links }

module _ (size uncounted z n : ℕ) (m m' : Memory) (in_range : n < size) (word : size < 2 ^ 64)
    (run : page_clean n m ≡ some m') (room : (m.zones z).total_page_lnk < 2 ^ 64)
    (counted : IsCounted (m.pages n)) (before : IsAccounted size uncounted z m) where
  clean_free :
      add64 (m'.zones z).page_free_cnt uncounted ≡ total size (λ i. unused_in z (m'.pages i))
  unfolding page_clean unused_in
  clean_free = ground (
    arith,
    before.free,
    counted.in_use,
    change_pages size (unused_in z) m.pages m'.pages n in_range (page_clean_same n m run),
    total-le size (λ i. unused_in z (m'.pages i)) (λ i. unused_in-le-one z (m'.pages i)),
  )

  clean_using : (m'.zones z).page_using_cnt ≡ total size (λ i. used_in z (m'.pages i))
  unfolding page_clean used_in
  clean_using = ground (
    arith,
    before.using,
    counted.in_use,
    change_pages size (used_in z) m.pages m'.pages n in_range (page_clean_same n m run),
    total-le size (λ i. used_in z (m.pages i)) (λ i. used_in-le-one z (m.pages i)),
    le-total size (λ i. used_in z (m.pages i)) n in_range,
  )

  clean_links : (m'.zones z).total_page_lnk ≡ total size (λ i. links_in z (m'.pages i))
  unfolding page_clean links_in
  clean_links = ground (
    arith,
    before.links,
    counted.unused,
    counted.in_use,
    counted.exclusive,
    change_pages size (links_in z) m.pages m'.pages n in_range (page_clean_same n m run),
    le-total size (λ i. links_in z (m.pages i)) n in_range,
  )

  -- `page_clean` on a page of the array whose own counts are right keeps the counters of every
  -- zone right.
  pub page_clean-IsAccounted : IsAccounted size uncounted z m'
  page_clean-IsAccounted = record { free = clean_free; using = clean_using; links = clean_links }
