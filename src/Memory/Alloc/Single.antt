-- ===== src/Memory/Alloc/Single.antt =====
-- The page that `alloc_pages` returns when one is asked for.
use oslib.Prelude.{ℕ, ◌+◌, ◌*◌, ◌/◌, ◌^◌, ◌≤◌, ◌<◌, ◌≡◌, ◌∙◌, arith, some}
use oslib.Memory.Types.{Memory}
use oslib.Memory.Page.{page_init}
use oslib.Memory.Alloc.{alloc_pages, allocated, zone_range, start_page, init_pages}
use oslib.Memory.Alloc.Result.{init_pages_step, allocated_from}
use oslib.Memory.Alloc.Pages.{ForZones, SecondInWord}

page_init_place :
    (n flags : ℕ) (m : Memory) {m' : Memory}
    → page_init n flags m ≡ some m'
    → (m'.pages n).phy_addr ≡ (m.pages n).phy_addr
unfolding page_init
page_init_place n flags m run = ground (arith, run)

-- The one page that is taken stays at its address.
pub one_page :
    (zone_select flags p : ℕ) (m : Memory) {m' : Memory}
    → alloc_pages zone_select 1 flags m ≡ allocated p m'
    → (zone_range zone_select m).1 + 1 < 2 ^ 64
    → (m'.pages p).phy_addr ≡ (m.pages p).phy_addr
unfolding init_pages
one_page zone_select flags p m {m'} done w =
    let (z, j, k, a) = allocated_from zone_select 1 flags m done (omega arith) w in
    let (mid, first, rest) = init_pages_step 0 p flags m a.initialised in
    page_init_place p flags m (first ∙ rest)

-- It is in the word in which some zone of the selection starts, not before that zone.
pub in_word :
    (zone_select flags p : ℕ) (m : Memory) {m' : Memory}
    → alloc_pages zone_select 1 flags m ≡ allocated p m'
    → (zone_range zone_select m).1 + 1 < 2 ^ 64
    → ForZones zone_select m (SecondInWord m)
    → (z : ℕ) × ((zone_range zone_select m).0 ≤ z)
      × (z ≤ (zone_range zone_select m).1)
      × (start_page m z ≤ p)
      × (p < 64 * (start_page m z / 64) + 63)
in_word zone_select flags p m done w zones =
    let (z, j, k, a) = allocated_from zone_select 1 flags m done (omega arith) w in
    let lo = a.hit_at.from_zone in
    let hi = a.hit_at.to_zone in
    let second = zones z lo hi in
    let hit_at = a.hit_at.run in
    (
      z,
      lo,
      hi,
      omega (
        arith, a.page_at, hit_at.from_start, hit_at.to_end, hit_at.shift_le, hit_at.shift_lt,
        second,
      ),
      omega (arith, a.page_at, hit_at.from_start, hit_at.to_end, hit_at.shift_lt, second),
    )
